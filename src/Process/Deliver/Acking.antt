-- ===== src/Process/Deliver/Acking.antt =====
-- A message of quality 1 and its way to the subscribers. The buffer that is written is declared
-- outside the loops, as for quality 0.
use mqtt_server_go.Prelude.{
  ℕ, ◌≡◌, refl, inl, inr, true, false, Bool-cases, Bytes, lookup, nat_eq, bytes_eq, none, some,
  List, [], ◌∷◌, ◌++◌, get_elem?, set, ok, ◌==◌, ltb, if◌then◌else◌,
}
use mqtt_server_go.ProtocolStack.Publish.{MqttPacketPublishData}
use mqtt_server_go.ProtocolStack.Publish.Layout.{Fits, publish_bytes, seserialize_publish-bytes}
use mqtt_server_go.Process.Server.{MqttClientInfo, Server, write, load, store, emit}
use mqtt_server_go.Process.Deliver.{for_clients, fresh_id, deliver_publish, publish_to_client}
use mqtt_server_go.Process.Deliver.Rounds.{round_lem}
use mqtt_server_go.Process.Deliver.Ready.{Visitable, with_id, with_id-Fits}
use mqtt_server_go.Process.Deliver.Releasing.{kept_for, Once, set-Visitable}
use mqtt_server_go.Process.Deliver.Relaying.{acked_by}

-- What the buffer holds behind the message with one more id
abbrev pub longer : MqttPacketPublishData → Bytes → ℕ → Bytes
longer p buf id = buf ++ publish_bytes (with_id p id)

-- The state behind a client that is logged in, and behind one that is not
abbrev pub after_sent : MqttPacketPublishData → Bytes → ℕ → MqttClientInfo → ℕ → ℕ → Server → Server
after_sent p buf a c id drawn s = record s {
  heap = set s.heap a (acked_by id c);
  drawn = drawn;
  trace = s.trace ++ write c.conn (longer p buf id) ∷ [];
}

abbrev pub after_kept : MqttPacketPublishData → ℕ → MqttClientInfo → ℕ → ℕ → Server → Server
after_kept p a c id drawn s = record s { heap = set s.heap a (kept_for p id c); drawn = drawn }

-- How the state may go while the clients are visited, from what the buffer holds: past a client without
-- the topic; for one that is logged in, by a write of the buffer with the message behind it, under an id
-- that the client does not use and that then waits for its PUBACK; by a kept message for another.
pub data Acks (p : MqttPacketPublishData) : Bytes → List ℕ → Server → Server → Type 0 where
  over : {buf : Bytes} {s : Server} → Acks p buf [] s s
  passed :
      {buf : Bytes} {a : ℕ} {visit : List ℕ} {s s' : Server} {c : MqttClientInfo}
      → get_elem? s.heap a ≡ some c
      → lookup p.topic c.sub_info ≡ none
      → Acks p buf visit s s'
      → Acks p buf (a ∷ visit) s s'
  sent :
      {buf : Bytes} {a : ℕ} {visit : List ℕ} {s s' : Server} {c : MqttClientInfo} {q : ℕ}
      (id drawn : ℕ)
      → get_elem? s.heap a ≡ some c
      → lookup p.topic c.sub_info ≡ some q
      → (c.login_success == 1) ≡ true
      → lookup id c.pub_status ≡ none
      → Acks p (longer p buf id) visit (after_sent p buf a c id drawn s) s'
      → Acks p buf (a ∷ visit) s s'
  kept :
      {buf : Bytes} {a : ℕ} {visit : List ℕ} {s s' : Server} {c : MqttClientInfo} {q : ℕ}
      (id drawn : ℕ)
      → get_elem? s.heap a ≡ some c
      → lookup p.topic c.sub_info ≡ some q
      → (c.login_success == 1) ≡ false
      → Acks p buf visit (after_kept p a c id drawn s) s'
      → Acks p buf (a ∷ visit) s s'

module _ (rand : ℕ → ℕ) (fuel : ℕ) (p : MqttPacketPublishData) (e : p.qos ≡ 1) (f : Fits p) where
  deliver_lem :
      (a old id drawn : ℕ) (buf : Bytes) (s : Server) {c : MqttClientInfo}
      → get_elem? s.heap a ≡ some c
      → Fits (with_id p id)
      → fresh_id rand fuel c.pub_status s ≡ ok (id, record s { drawn = drawn })
      → deliver_publish rand fuel a (with_id p old, buf) s ≡ (
          if c.login_success == 1
          then ok ((with_id p id, longer p buf id), after_sent p buf a c id drawn s)
          else ok ((with_id p id, buf), after_kept p a c id drawn s))
  unfolding deliver_publish load store emit
  deliver_lem a old id drawn buf s {c} there fits drew =
      let one : (p.qos == 1) ≡ true = rw e refl in
      let above : ltb 0 p.qos ≡ true = rw e refl in
      elim (Bool-cases (c.login_success == 1)) [
        | inl online ↦
            rw (there, drew, online, one, seserialize_publish-bytes (with_id p id) buf fits) refl
        | inr offline ↦ rw (there, drew, offline, above, one) refl
      ]

  pub acks :
      (visit : List ℕ) (old : ℕ) (buf : Bytes) (s : Server)
      → Once visit
      → Visitable rand fuel s.heap visit
      → (s' : Server) × (st : MqttPacketPublishData × Bytes) × (for_clients
            (publish_to_client rand fuel)
            visit
            (with_id p old, buf)
            s
          ≡ ok (st, s'))
        × Acks p buf visit s s'
  unfolding for_clients publish_to_client load Once
  acks [] old buf s once v = (s, (with_id p old, buf), refl, over)
  acks (a ∷ visit) old buf s (others, once) ((c, there, ready), v) =
      elim (round_lem rand fuel (deliver_publish rand fuel a) p.topic a (with_id p old, buf) s there
        ready) [
          | inl (absent, here) ↦
              let (s', last, run, steps) = acks visit old buf s once v in
              (s', last, rw here run, passed there absent steps)
          | inr (q, id, drawn, present, unused, word, drew, here) ↦
              let ends = deliver_lem a old id drawn buf s there (with_id-Fits p id word f) drew in
              elim (Bool-cases (c.login_success == 1)) [
                | inl online ↦
                    let (s', last, run, steps) =
                      acks visit id (longer p buf id) (after_sent p buf a c id drawn s) once
                        (set-Visitable rand fuel s.heap a (acked_by id c) visit others v) in
                    (
                      s',
                      last,
                      rw (here, rw online at ends) run,
                      sent id drawn there present online unused steps,
                    )
                | inr offline ↦
                    let (s', last, run, steps) =
                      acks visit id buf (after_kept p a c id drawn s) once
                        (set-Visitable rand fuel s.heap a (kept_for p id c) visit others v) in
                    (
                      s',
                      last,
                      rw (here, rw offline at ends) run,
                      kept id drawn there present offline steps,
                    )
              ]
        ]
