-- ===== src/Process/Deliver/Relaying.antt =====
-- A message of another node and its way to the subscribers here.
use mqtt_server_go.Prelude.{
  ℕ, zero, suc, ◌≡◌, ◌<◌, ◌≤◌, refl, arith, inl, inr, ◌⊎◌, true, false, Bool-cases, lookup, insert,
  nat_eq, bytes_eq, none, some, List, [], ◌∷◌, ◌++◌, append-nil, get_elem?, set, set-get_elem?, ok,
  ◌==◌, leb,
}
use mqtt_server_go.ProtocolStack.PacketType.{puback}
use mqtt_server_go.ProtocolStack.Publish.{MqttPacketPublishData}
use mqtt_server_go.ProtocolStack.Publish.Layout.{Fits, publish_bytes, seserialize_publish-bytes}
use mqtt_server_go.Process.Server.{MqttClientInfo, Server, Effect, write, load, store, emit}
use mqtt_server_go.Process.Deliver.{for_clients, fresh_id, deliver_cluster, cluster_to_client}
use mqtt_server_go.Process.Deliver.Rounds.{round_lem}
use mqtt_server_go.Process.Deliver.Ready.{Visitable, with_id, with_id-Fits}
use mqtt_server_go.Process.Deliver.Releasing.{sent_to, kept_for, Once, set-Visitable}

-- The record of a client that is sent a message of quality 1
abbrev pub acked_by : ℕ → MqttClientInfo → MqttClientInfo
acked_by id c = record c { pub_status = insert id puback c.pub_status }

abbrev pub one_write : MqttPacketPublishData → ℕ → MqttClientInfo → List Effect
one_write p id c = write c.conn (publish_bytes (with_id p id)) ∷ []

-- What becomes of a subscriber's record, and what is sent, for the id that was drawn for it.
pub data Relays (p : MqttPacketPublishData) (id : ℕ) (c : MqttClientInfo)
    : MqttClientInfo → List Effect → Type 0 where
  sent_once : (c.login_success == 1) ≡ true → p.qos ≡ 0 → Relays p id c c (one_write p id c)
  sent_for_ack :
      (c.login_success == 1) ≡ true → p.qos ≡ 1 → Relays p id c (acked_by id c) (one_write p id c)
  sent_for_rec :
      (c.login_success == 1) ≡ true → p.qos ≡ 2 → Relays p id c (sent_to p id c) (one_write p id c)
  kept : (c.login_success == 1) ≡ false → 1 ≤ p.qos → Relays p id c (kept_for p id c) []
  lost : (c.login_success == 1) ≡ false → p.qos ≡ 0 → Relays p id c c []

-- The tests of a quality
tests :
    (q : ℕ)
    → q < 3
    → ((q ≡ 0) × ((q == 0) ≡ true))
      ⊎ (((q ≡ 1) × ((q == 0) ≡ false) × ((q == 1) ≡ true))
          ⊎ ((q ≡ 2) × ((q == 0) ≡ false) × ((q == 1) ≡ false) × ((q == 2) ≡ true)))
tests zero lt = inl (refl, refl)
tests (suc zero) lt = inr (inl (refl, refl, refl))
tests (suc (suc zero)) lt = inr (inr (refl, refl, refl, refl))
tests (suc (suc (suc q))) lt = absurd (omega arith)

some_quality : (q : ℕ) → ((q ≡ 0) × (leb 1 q ≡ false)) ⊎ ((1 ≤ q) × (leb 1 q ≡ true))
some_quality zero = inl (refl, refl)
some_quality (suc q) = inr (omega arith, ground arith)

module _ (rand : ℕ → ℕ) (fuel : ℕ) (p : MqttPacketPublishData) (small : p.qos < 3) where
  -- The run that the record and the effects describe
  abbrev Ends : ℕ → ℕ → ℕ → ℕ → Server → MqttClientInfo → List Effect → Type 0
  Ends a old id drawn s c' effects =
      deliver_cluster rand fuel a (with_id p old) s
      ≡ ok (
        with_id p id,
        record s { heap = set s.heap a c'; drawn = drawn; trace = s.trace ++ effects },
      )

  deliver_lem :
      (a old id drawn : ℕ) (s : Server) {c : MqttClientInfo}
      → get_elem? s.heap a ≡ some c
      → Fits (with_id p id)
      → fresh_id rand fuel c.pub_status s ≡ ok (id, record s { drawn = drawn })
      → (c' : MqttClientInfo) × (effects : List Effect) × Relays p id c c' effects
        × Ends a old id drawn s c' effects
  unfolding deliver_cluster load store emit
  deliver_lem a old id drawn s {c} there f drew =
      let bytes = seserialize_publish-bytes (with_id p id) [] f in
      let same = set-get_elem? s.heap a c there in
      elim (Bool-cases (c.login_success == 1)) [
        | inl online ↦ elim (tests p.qos small) [
          | inl (e, is0) ↦ (
            c,
            one_write p id c,
            sent_once online e,
            rw (there, drew, online, is0, bytes, same) refl,
          )
          | inr (inl (e, is0, is1)) ↦ (
            acked_by id c,
            one_write p id c,
            sent_for_ack online e,
            rw (there, drew, online, is0, is1, bytes) refl,
          )
          | inr (inr (e, is0, is1, is2)) ↦ (
            sent_to p id c,
            one_write p id c,
            sent_for_rec online e,
            rw (there, drew, online, is0, is1, is2, bytes) refl,
          )
        ]
        | inr offline ↦ elim (some_quality p.qos) [
          | inl (e, is0) ↦
              (c, [], lost offline e, rw (there, drew, offline, is0, same, append-nil s.trace) refl)
          | inr (le, above) ↦ (
            kept_for p id c,
            [],
            kept offline le,
            rw (there, drew, offline, above, append-nil s.trace) refl,
          )
        ]
      ]

-- How the state may go while the clients are visited: past a client without the topic, and for one that
-- has it by what becomes of its record and by what it is sent, under an id that it does not use.
pub data Relayed (p : MqttPacketPublishData) : List ℕ → Server → Server → Type 0 where
  over : {s : Server} → Relayed p [] s s
  passed :
      {a : ℕ} {visit : List ℕ} {s s' : Server} {c : MqttClientInfo}
      → get_elem? s.heap a ≡ some c
      → lookup p.topic c.sub_info ≡ none
      → Relayed p visit s s'
      → Relayed p (a ∷ visit) s s'
  served :
      {a : ℕ} {visit : List ℕ} {s s' : Server} {c c' : MqttClientInfo} {effects : List Effect}
      {q : ℕ} (id drawn : ℕ)
      → get_elem? s.heap a ≡ some c
      → lookup p.topic c.sub_info ≡ some q
      → lookup id c.pub_status ≡ none
      → Relays p id c c' effects
      → Relayed p visit
          (record s { heap = set s.heap a c'; drawn = drawn; trace = s.trace ++ effects })
          s'
      → Relayed p (a ∷ visit) s s'

module _ (rand : ℕ → ℕ) (fuel : ℕ) (p : MqttPacketPublishData) (small : p.qos < 3)
    (f : Fits p) where
  pub relays :
      (visit : List ℕ) (old : ℕ) (s : Server)
      → Once visit
      → Visitable rand fuel s.heap visit
      → (s' : Server) × (id : ℕ) × (for_clients
            (cluster_to_client rand fuel)
            visit
            (with_id p old)
            s
          ≡ ok (with_id p id, s'))
        × Relayed p visit s s'
  unfolding for_clients cluster_to_client load Once
  relays [] old s once v = (s, old, refl, over)
  relays (a ∷ visit) old s (others, once) ((c, there, ready), v) =
      elim (round_lem rand fuel (deliver_cluster rand fuel a) p.topic a (with_id p old) s there
        ready) [
          | inl (absent, here) ↦
              let (s', last, run, steps) = relays visit old s once v in
              (s', last, rw here run, passed there absent steps)
          | inr (q, id, drawn, present, unused, word, drew, here) ↦
              let (c', effects, step, ends) =
                deliver_lem rand fuel p small a old id drawn s there (with_id-Fits p id word f)
                  drew in
              let s1 = record s {
                heap = set s.heap a c';
                drawn = drawn;
                trace = s.trace ++ effects;
              } in
              let (s', last, run, steps) =
                relays visit id s1 once (set-Visitable rand fuel s.heap a c' visit others v) in
              (s', last, rw (here, ends) run, served id drawn there present unused step steps)
        ]
