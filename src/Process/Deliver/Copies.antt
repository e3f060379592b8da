-- ===== src/Process/Deliver/Copies.antt =====
-- A message of quality 0 and its way to the subscribers: the buffer that is written is declared
-- outside the loops, so each subscriber gets the message once more than the one before it.
use mqtt_server_go.Prelude.{
  ℕ, zero, suc, ◌<◌, ◌≡◌, refl, ap, ◌∙◌, inl, inr, true, false, Bool, Bool-cases, ◌&&◌, Bytes,
  lookup, nat_eq, bytes_eq, Option, none, some, List, [], ◌∷◌, ◌++◌, append-nil, append_assoc,
  get_elem?, length, ok, ◌==◌, ltb, if◌then◌else◌,
}
use mqtt_server_go.ProtocolStack.Publish.{MqttPacketPublishData, mqtt_seserialize_publish}
use mqtt_server_go.ProtocolStack.Publish.Layout.{
  Fits, remaining, id_field, publish_body, publish_bytes, seserialize_publish-bytes,
}
use mqtt_server_go.Process.Server.{MqttClientInfo, Server, Effect, write, load, emit}
use mqtt_server_go.Process.Deliver.{for_clients, fresh_id, deliver_publish, publish_to_client}
use mqtt_server_go.Process.Deliver.Rounds.{round_lem}
use mqtt_server_go.Process.Deliver.Ready.{IsReady, Visitable, with_id, with_id-Fits}

abbrev is_some : Option ℕ → Bool
is_some none = false
is_some (some q) = true

-- The client is logged in and has the topic.
abbrev pub gets : Bytes → MqttClientInfo → Bool
gets topic c = c.login_success == 1 && is_some (lookup topic c.sub_info)

unfoldable pub copies : ℕ → Bytes → Bytes
copies zero bytes = []
copies (suc n) bytes = copies n bytes ++ bytes

-- A packet of quality 0 has no packet id.
with_id-bytes :
    (p : MqttPacketPublishData) (id : ℕ)
    → p.qos ≡ 0
    → publish_bytes (with_id p id) ≡ publish_bytes p
unfolding publish_bytes publish_body remaining id_field
with_id-bytes p id e = rw e refl

module _ (p : MqttPacketPublishData) where
  -- What one client is written, and the number of copies behind it.
  abbrev served : MqttClientInfo → ℕ → List Effect
  served c n = if gets p.topic c then write c.conn (copies (suc n) (publish_bytes p)) ∷ [] else []

  abbrev count : MqttClientInfo → ℕ → ℕ
  count c n = if gets p.topic c then suc n else n

  -- The loop's state: the message with an id of some client, and the copies so far.
  abbrev state : ℕ → ℕ → MqttPacketPublishData × Bytes
  state id n = (with_id p id, copies n (publish_bytes p))

  abbrev served_at : Option MqttClientInfo → ℕ → List Effect
  served_at none n = []
  served_at (some c) n = served c n

  abbrev count_at : Option MqttClientInfo → ℕ → ℕ
  count_at none n = n
  count_at (some c) n = count c n

  -- The writes of a visit: the number of copies goes up with each client that gets the message.
  unfoldable pub sends : List MqttClientInfo → ℕ → List ℕ → List Effect
  sends heap n [] = []
  sends heap n (a ∷ visit) =
      served_at (get_elem? heap a) n ++ sends heap (count_at (get_elem? heap a) n) visit

module _ (rand : ℕ → ℕ) (fuel : ℕ) (p : MqttPacketPublishData) (e : p.qos ≡ 0) (f : Fits p) where
  serialize :
      (id n : ℕ)
      → id < 65536
      → mqtt_seserialize_publish (with_id p id) (copies n (publish_bytes p))
        ≡ ok (length (publish_bytes p), copies (suc n) (publish_bytes p))
  unfolding copies
  serialize id n h =
      rw
        (
          seserialize_publish-bytes (with_id p id) (copies n (publish_bytes p))
              (with_id-Fits p id h f),
          with_id-bytes p id e,
        )
        refl

  -- One round of the inner loop, for a client that has the topic.
  deliver_lem :
      (a id n new drawn : ℕ) (s : Server) {c : MqttClientInfo}
      → get_elem? s.heap a ≡ some c
      → new < 65536
      → fresh_id rand fuel c.pub_status s ≡ ok (new, record s { drawn = drawn })
      → deliver_publish rand fuel a (state p id n) s ≡ (
          if c.login_success == 1
          then ok (
            state p new (suc n),
            record s {
              drawn = drawn;
              trace = s.trace ++ write c.conn (copies (suc n) (publish_bytes p)) ∷ [];
            },
          )
          else ok (state p new n, record s { drawn = drawn }))
  unfolding deliver_publish load emit
  deliver_lem a id n new drawn s {c} there lt drew =
      let one : (p.qos == 1) ≡ false = rw e refl in
      let two : (p.qos == 2) ≡ false = rw e refl in
      let none_sent : (p.qos == 0) ≡ true = rw e refl in
      let below : ltb 0 p.qos ≡ false = rw e refl in
      elim (Bool-cases (c.login_success == 1)) [
        | inl online ↦ rw (there, drew, online, one, two, none_sent, serialize new n lt) refl
        | inr offline ↦ rw (there, drew, offline, below) refl
      ]

  client_lem :
      (a id n : ℕ) (s : Server) {c : MqttClientInfo}
      → get_elem? s.heap a ≡ some c
      → IsReady rand fuel c
      → id < 65536
      → (id' : ℕ) × (drawn : ℕ) × (id' < 65536)
        × (publish_to_client rand fuel a (state p id n) s
            ≡ ok (
              state p id' (count p c n),
              record s { drawn = drawn; trace = s.trace ++ served p c n },
            ))
  unfolding publish_to_client load
  client_lem a id n s {c} there ready h =
      elim (round_lem rand fuel (deliver_publish rand fuel a) p.topic a (state p id n) s there
        ready) [
          | inl (absent, here) ↦ (
            id,
            s.drawn,
            h,
            elim (Bool-cases (c.login_success == 1)) [
              | inl online ↦ rw (absent, online, append-nil s.trace) here
              | inr offline ↦ rw (absent, offline, append-nil s.trace) here
            ],
          )
          | inr (q, new, drawn, present, unused, word, drew, here) ↦
              let run = here ∙ deliver_lem a id n new drawn s there word drew in
              (
                new,
                drawn,
                word,
                elim (Bool-cases (c.login_success == 1)) [
                  | inl online ↦ rw (present, online) (rw online at run)
                  | inr offline ↦ rw (present, offline, append-nil s.trace) (rw offline at run)
                ],
              )
        ]

  for_clients_lem :
      (visit : List ℕ) (id n : ℕ) (s : Server)
      → Visitable rand fuel s.heap visit
      → id < 65536
      → (id' : ℕ) × (n' : ℕ) × (drawn : ℕ) × (for_clients
            (publish_to_client rand fuel)
            visit
            (state p id n)
            s
          ≡ ok (
            state p id' n',
            record s { drawn = drawn; trace = s.trace ++ sends p s.heap n visit },
          ))
  unfolding for_clients sends
  for_clients_lem [] id n s v h = (id, n, s.drawn, rw (append-nil s.trace) refl)
  for_clients_lem (a ∷ visit) id n s ((c, there, ready), v) h =
      let (id1, drawn1, h1, run1) = client_lem a id n s there ready h in
      let (id2, n2, drawn2, run2) =
        for_clients_lem visit id1 (count p c n)
          (record s { drawn = drawn1; trace = s.trace ++ served p c n }) v h1 in
      (
        id2,
        n2,
        drawn2,
        rw (run1, there)
            (run2
              ∙ ap
                  (λ (t : List Effect). ok (state p id2 n2, record s { drawn = drawn2; trace = t }))
                  (append_assoc s.trace (served p c n) (sends p s.heap (count p c n) visit))),
      )

  -- Both loops, from an empty buffer.
  pub deliveries :
      (visit : List ℕ) (s : Server)
      → Visitable rand fuel s.heap visit
      → (st : MqttPacketPublishData × Bytes) × (drawn : ℕ) × (for_clients
            (publish_to_client rand fuel)
            visit
            (p, [])
            s
          ≡ ok (st, record s { drawn = drawn; trace = s.trace ++ sends p s.heap 0 visit }))
  unfolding copies
  deliveries visit s v =
      let (id, n, drawn, run) = for_clients_lem visit p.packet_id 0 s v f.packet_id_fits in
      (state p id n, drawn, run)
