-- ===== src/Process/Deliver/Waiting.antt =====
-- A message of quality 2 before its PUBREL: the loops draw a packet id for each subscriber and do
-- nothing else.
use mqtt_server_go.Prelude.{
  ℕ, ◌≡◌, refl, ◌∙◌, inl, inr, true, false, Bool-cases, bytes_eq, List, [], ◌∷◌, get_elem?, ok,
  ◌==◌, ltb, some,
}
use mqtt_server_go.ProtocolStack.Publish.{MqttPacketPublishData}
use mqtt_server_go.Process.Server.{MqttClientInfo, Server, load}
use mqtt_server_go.Process.Deliver.{for_clients, deliver_publish, publish_to_client}
use mqtt_server_go.Process.Deliver.Rounds.{round_lem}
use mqtt_server_go.Process.Deliver.Ready.{IsReady, Visitable, with_id}

module _ (rand : ℕ → ℕ) (fuel : ℕ) (p : MqttPacketPublishData) (e : p.qos ≡ 2) where
  one_client :
      (a id : ℕ) (s : Server) {c : MqttClientInfo}
      → get_elem? s.heap a ≡ some c
      → IsReady rand fuel c
      → (id' : ℕ) × (drawn : ℕ) × (publish_to_client rand fuel a (with_id p id, []) s
          ≡ ok ((with_id p id', []), record s { drawn = drawn }))
  unfolding publish_to_client load
  one_client a id s {c} there ready =
      elim (round_lem rand fuel (deliver_publish rand fuel a) p.topic a (with_id p id, []) s there
        ready) [
          | inl (absent, here) ↦ (id, s.drawn, here)
          | inr (q, new, drawn, present, unused, word, drew, here) ↦ (
            new,
            drawn,
            here
                ∙ unfold deliver_publish load in
                  elim (Bool-cases (c.login_success == 1)) [
                    | inl online ↦ rw (there, drew, online, one, two) refl
                    | inr offline ↦ rw (there, drew, offline, above, one) refl
                  ],
          )
        ]
    where
      one : (p.qos == 1) ≡ false
      one = rw e refl

      two : (p.qos == 2) ≡ true
      two = rw e refl

      above : ltb 0 p.qos ≡ true
      above = rw e refl

  pub waits :
      (visit : List ℕ) (id : ℕ) (s : Server)
      → Visitable rand fuel s.heap visit
      → (id' : ℕ) × (drawn : ℕ) × (for_clients
            (publish_to_client rand fuel)
            visit
            (with_id p id, [])
            s
          ≡ ok ((with_id p id', []), record s { drawn = drawn }))
  unfolding for_clients
  waits [] id s v = (id, s.drawn, refl)
  waits (a ∷ visit) id s ((c, there, ready), v) =
      let (id1, drawn1, run1) = one_client a id s there ready in
      let (id2, drawn2, run2) = waits visit id1 (record s { drawn = drawn1 }) v in
      (id2, drawn2, rw run1 run2)
