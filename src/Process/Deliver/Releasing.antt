-- ===== src/Process/Deliver/Releasing.antt =====
-- A message of quality 2 after its PUBREL: one step for each client that is visited.
use mqtt_server_go.Prelude.{
  ℕ, ◌≡◌, refl, inl, inr, true, false, Bool-cases, lookup, insert, nat_eq, bytes_eq, none, some,
  List, [], ◌∷◌, ◌++◌, All, get_elem?, set, get_elem?-set, ok, ◌==◌, if◌then◌else◌,
}
use mqtt_server_go.ProtocolStack.PacketType.{pubrec}
use mqtt_server_go.ProtocolStack.Publish.{MqttPacketPublishData}
use mqtt_server_go.ProtocolStack.Publish.Layout.{Fits, publish_bytes, seserialize_publish-bytes}
use mqtt_server_go.Process.Server.{MqttClientInfo, Server, write, load, store, emit}
use mqtt_server_go.Process.Deliver.{for_clients, fresh_id, deliver_released, release_to_client}
use mqtt_server_go.Process.Deliver.Rounds.{round_lem}
use mqtt_server_go.Process.Deliver.Ready.{Visitable, with_id, with_id-Fits}

-- The record of a client that was sent the message, and of one that was not there
abbrev pub sent_to : MqttPacketPublishData → ℕ → MqttClientInfo → MqttClientInfo
sent_to p id c = record c {
  cache_msg = insert id (with_id p id) c.cache_msg;
  pub_status = insert id pubrec c.pub_status;
}

abbrev pub kept_for : MqttPacketPublishData → ℕ → MqttClientInfo → MqttClientInfo
kept_for p id c = record c { offline_msg = c.offline_msg ++ with_id p id ∷ [] }

-- How the state may go while the clients are visited: past a client without the topic; by a write to one
-- that is logged in, under an id that it does not use; by a kept message for one that is not.
pub data Releases (p : MqttPacketPublishData) : List ℕ → Server → Server → Type 0 where
  over : {s : Server} → Releases p [] s s
  passed :
      {a : ℕ} {visit : List ℕ} {s s' : Server} {c : MqttClientInfo}
      → get_elem? s.heap a ≡ some c
      → lookup p.topic c.sub_info ≡ none
      → Releases p visit s s'
      → Releases p (a ∷ visit) s s'
  sent :
      {a : ℕ} {visit : List ℕ} {s s' : Server} {c : MqttClientInfo} {q : ℕ} (id drawn : ℕ)
      → get_elem? s.heap a ≡ some c
      → lookup p.topic c.sub_info ≡ some q
      → (c.login_success == 1) ≡ true
      → lookup id c.pub_status ≡ none
      → Releases p visit
          (record s {
            heap = set s.heap a (sent_to p id c);
            drawn = drawn;
            trace = s.trace ++ write c.conn (publish_bytes (with_id p id)) ∷ [];
          })
          s'
      → Releases p (a ∷ visit) s s'
  kept :
      {a : ℕ} {visit : List ℕ} {s s' : Server} {c : MqttClientInfo} {q : ℕ} (id drawn : ℕ)
      → get_elem? s.heap a ≡ some c
      → lookup p.topic c.sub_info ≡ some q
      → (c.login_success == 1) ≡ false
      → Releases p visit (record s { heap = set s.heap a (kept_for p id c); drawn = drawn }) s'
      → Releases p (a ∷ visit) s s'

-- No client is visited twice.
unfoldable pub Once : List ℕ → Type 0
Once [] = Unit {0}
Once (a ∷ visit) = All (λ b. (a == b) ≡ false) visit × Once visit

module _ (rand : ℕ → ℕ) (fuel : ℕ) where
  -- A write to a record that is not visited again
  pub set-Visitable :
      (heap : List MqttClientInfo) (a : ℕ) (c : MqttClientInfo) (visit : List ℕ)
      → All (λ b. (a == b) ≡ false) visit
      → Visitable rand fuel heap visit
      → Visitable rand fuel (set heap a c) visit
  set-Visitable heap a c [] others v = tt
  set-Visitable heap a c (b ∷ visit) (other, others) ((d, there, ready), v) = (
    (d, rw (get_elem?-set heap a b c, other) there, ready),
    set-Visitable heap a c visit others v,
  )

  module _ (p : MqttPacketPublishData) where
    deliver_lem :
        (a old id drawn : ℕ) (s : Server) {c : MqttClientInfo}
        → get_elem? s.heap a ≡ some c
        → Fits (with_id p id)
        → fresh_id rand fuel c.pub_status s ≡ ok (id, record s { drawn = drawn })
        → deliver_released rand fuel a (with_id p old) s ≡ (
            if c.login_success == 1
            then ok (
              with_id p id,
              record s {
                heap = set s.heap a (sent_to p id c);
                drawn = drawn;
                trace = s.trace ++ write c.conn (publish_bytes (with_id p id)) ∷ [];
              },
            )
            else ok
                (with_id p id, record s { heap = set s.heap a (kept_for p id c); drawn = drawn }))
    unfolding deliver_released load store emit
    deliver_lem a old id drawn s {c} there f drew = elim (Bool-cases (c.login_success == 1)) [
      | inl online ↦ rw (there, drew, online, seserialize_publish-bytes (with_id p id) [] f) refl
      | inr offline ↦ rw (there, drew, offline) refl
    ]

    pub releases :
        (visit : List ℕ) (old : ℕ) (s : Server)
        → Fits p
        → Once visit
        → Visitable rand fuel s.heap visit
        → (s' : Server) × (id : ℕ) × (for_clients
              (release_to_client rand fuel)
              visit
              (with_id p old)
              s
            ≡ ok (with_id p id, s'))
          × Releases p visit s s'
    unfolding for_clients release_to_client load Once
    releases [] old s f once v = (s, old, refl, over)
    releases (a ∷ visit) old s f (others, once) ((c, there, ready), v) =
        elim (round_lem rand fuel (deliver_released rand fuel a) p.topic a (with_id p old) s there
          ready) [
            | inl (absent, here) ↦
                let (s', last, run, steps) = releases visit old s f once v in
                (s', last, rw here run, passed there absent steps)
            | inr (q, id, drawn, present, unused, word, drew, here) ↦
                let ends = deliver_lem a old id drawn s there (with_id-Fits p id word f) drew in
                elim (Bool-cases (c.login_success == 1)) [
                  | inl online ↦
                      let s1 = record s {
                        heap = set s.heap a (sent_to p id c);
                        drawn = drawn;
                        trace = s.trace ++ write c.conn (publish_bytes (with_id p id)) ∷ [];
                      } in
                      let (s', last, run, steps) =
                        releases visit id s1 f once
                          (set-Visitable s.heap a (sent_to p id c) visit others v) in
                      (
                        s',
                        last,
                        rw (here, rw online at ends) run,
                        sent id drawn there present online unused steps,
                      )
                  | inr offline ↦
                      let s1 = record s { heap = set s.heap a (kept_for p id c); drawn = drawn } in
                      let (s', last, run, steps) =
                        releases visit id s1 f once
                          (set-Visitable s.heap a (kept_for p id c) visit others v) in
                      (
                        s',
                        last,
                        rw (here, rw offline at ends) run,
                        kept id drawn there present offline steps,
                      )
                ]
          ]
