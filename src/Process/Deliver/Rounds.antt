-- ===== src/Process/Deliver/Rounds.antt =====
-- One round of the loop over the clients, whatever it does for a client that has the topic.
use mqtt_server_go.Prelude.{
  ℕ, ◌<◌, ◌≡◌, inl, inr, ◌⊎◌, Bytes, lookup, nat_eq, bytes_eq, Option-cases, none, some, get_elem?,
  ok,
}
use mqtt_server_go.Process.Server.{MqttClientInfo, Server, M, ◌>>=◌, pure, load}
use mqtt_server_go.Process.Deliver.{for_topics, fresh_id}
use mqtt_server_go.Process.Deliver.Topics.{for_topics_absent, for_topics_present}
use mqtt_server_go.Process.Deliver.Ready.{IsReady, fresh_id_lem}

module _ (rand : ℕ → ℕ) (fuel : ℕ) {S : Type 0} (body : S → M S) (topic : Bytes) (a : ℕ) where
  -- The loop over the topics of the client at `a`
  abbrev pub to_client : S → M S
  to_client st = load a >>= λ c. for_topics body topic c.sub_info st

  -- A client without the topic is passed. For another the body runs once, and the id that it will draw is
  -- one that the client does not use.
  pub round_lem :
      (st : S) (s : Server) {c : MqttClientInfo}
      → get_elem? s.heap a ≡ some c
      → IsReady rand fuel c
      → ((lookup topic c.sub_info ≡ none) × (to_client st s ≡ pure st s))
        ⊎ ((q : ℕ) × (id : ℕ) × (drawn : ℕ) × (lookup topic c.sub_info ≡ some q)
            × (lookup id c.pub_status ≡ none)
            × (id < 65536)
            × (fresh_id rand fuel c.pub_status s ≡ ok (id, record s { drawn = drawn }))
            × (to_client st s ≡ body st s))
  unfolding load
  round_lem st s {c} there ready = elim (Option-cases (lookup topic c.sub_info)) [
    | inl absent ↦ inl (absent, rw there (for_topics_absent body topic c.sub_info st s absent))
    | inr (q, present) ↦
        let (id, drawn, unused, word, drew) = fresh_id_lem rand fuel c s ready in
        inr (
          q,
          id,
          drawn,
          present,
          unused,
          word,
          drew,
          rw there (for_topics_present body topic c.sub_info st s ready.distinct present),
        )
  ]
