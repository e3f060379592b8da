-- ===== src/Process/Handlers/Once.antt =====
-- A message of quality 2 is released once: after its PUBREL the publisher's record does not wait
-- for another.
use mqtt_server_go.Prelude.{
  ℕ, ◌≡◌, refl, ap, sym, ◌∙◌, inl, inr, false, Bool-cases, Bytes, Map, lookup, insert, delete,
  lookup-insert, lookup-delete, nat_eq, bytes_eq, subst, Option, Option-cases, none, some, Outcome,
  ok, get_elem?, set, get_elem?-set, ◌==◌, ==_iff, ==_self, List,
}
use mqtt_server_go.ProtocolStack.PacketType.{pubrel, pubrec}
use mqtt_server_go.ProtocolStack.Publish.{MqttPacketPublishData}
use mqtt_server_go.Cluster.Message.{publish_data}
use mqtt_server_go.Process.Server.{find_client, MqttClientInfo, Server, load}
use mqtt_server_go.Process.Deliver.{deliver_released, release_to_client}
use mqtt_server_go.Process.Handlers.{status_is, release_kept, pubrel_of, client_pubrel}
use mqtt_server_go.Process.Heaps.{
  Pred, Keeps-load, Heap, Triple, Keeps, Triple-bind, Triple-load, Triple-store, Triple-if,
  Triple-pure, Keeps-pure, Keeps-lift, Keeps-emit, Keeps-fresh_id, Keeps-for_topics,
  Keeps-for_clients,
}

-- The record does not wait for the PUBREL of `id`.
abbrev pub IsQuiet : ℕ → Option MqttClientInfo → Type 0
IsQuiet id none = ⊥
IsQuiet id (some c) = status_is pubrel id c ≡ false

module _ (a id : ℕ) (clients : Map Bytes ℕ) where
  -- The record at an address, for an unchanged map.
  abbrev pub Quiet : Pred
  Quiet h m = IsQuiet id (get_elem? h a) × (m ≡ clients)

  -- A write keeps this if the new record is as quiet as the old one.
  store-Quiet :
      (h : Heap) (m : Map Bytes ℕ) (b : ℕ) (c c' : MqttClientInfo)
      → Quiet h m × (get_elem? h b ≡ some c)
      → (status_is pubrel id c ≡ false → status_is pubrel id c' ≡ false)
      → Quiet (set h b c') m
  store-Quiet h m b c c' ((q, same_map), e) k = elim (Bool-cases (b == a)) [
    | inl same ↦
        let e' : get_elem? h a ≡ some c = ap (get_elem? h) (sym ((==_iff b a).0 same)) ∙ e in
        (rw (get_elem?-set h b a c', same, e') (k (rw e' at q)), same_map)
    | inr other ↦ (rw (get_elem?-set h b a c', other) q, same_map)
  ]

  status_insert :
      (c c' : MqttClientInfo) (new : ℕ)
      → c'.pub_status ≡ insert new pubrec c.pub_status
      → status_is pubrel id c ≡ false
      → status_is pubrel id c' ≡ false
  unfolding status_is
  status_insert c c' new e q =
      rw (e, lookup-insert new id pubrec c.pub_status)
        (elim (Bool-cases (new == id)) [ inl same ↦ rw same | inr other ↦ rw other q ])

  status_same :
      (c c' : MqttClientInfo)
      → c'.pub_status ≡ c.pub_status
      → status_is pubrel id c ≡ false
      → status_is pubrel id c' ≡ false
  unfolding status_is
  status_same c c' e q = rw e q

  status_delete :
      (c c' : MqttClientInfo)
      → c'.pub_status ≡ delete id c.pub_status
      → status_is pubrel id c' ≡ false
  unfolding status_is
  status_delete c c' e = rw (e, lookup-delete id id c.pub_status, ==_self id)

  module _ (rand : ℕ → ℕ) (fuel : ℕ) where
    deliver_released-Quiet :
        (b : ℕ) (p : MqttPacketPublishData) → Keeps Quiet (deliver_released rand fuel b p)
    unfolding deliver_released
    deliver_released-Quiet b p = Triple-bind _ _ (Triple-load b) λ c.
        Triple-bind _ _ (Keeps-fresh_id rand fuel c.pub_status) λ new.
          Triple-if (c.login_success == 1) _ _
            (λ _. Triple-bind _ _ (Keeps-lift _) λ r.
              Triple-bind _ _
                (Triple-store {Q = Quiet} b _
                  (λ h m q. store-Quiet h m b c _ q (status_insert c _ new refl)))
                λ _. Triple-bind _ _ (Keeps-emit _) λ _. Keeps-pure _)
            (λ _.
              Triple-bind _ _
                (Triple-store {Q = Quiet} b _
                  (λ h m q. store-Quiet h m b c _ q (status_same c _ refl)))
                λ _. Keeps-pure _)

    release_to_client-Quiet :
        (b : ℕ) (p : MqttPacketPublishData) → Keeps Quiet (release_to_client rand fuel b p)
    unfolding release_to_client
    release_to_client-Quiet b p =
        Triple-bind _ _ (Keeps-load b)
          λ c. Keeps-for_topics _ p.topic c.sub_info p (deliver_released-Quiet b)

    release_kept-Quiet :
        (visit : List ℕ) (kept : Option MqttPacketPublishData)
        → Keeps Quiet (release_kept rand fuel visit kept)
    unfolding release_kept
    release_kept-Quiet visit none = Keeps-pure tt
    release_kept-Quiet visit (some kept) =
        Triple-bind _ _ (Keeps-for_clients _ visit kept release_to_client-Quiet) λ _. Keeps-emit _

    -- Whatever the status was, a PUBREL leaves the record quiet.
    pubrel_of-Quiet :
        (visit : List ℕ) (p : MqttPacketPublishData)
        → p.packet_id ≡ id
        → Triple (λ h m. m ≡ clients) (pubrel_of rand fuel visit a p) (λ r. Quiet)
    unfolding pubrel_of
    pubrel_of-Quiet visit p e = Triple-bind _ _ (Triple-load a) λ c.
        Triple-if (status_is pubrel p.packet_id c) _ _
          (λ _. Triple-bind _ _ (Keeps-lift _) λ r.
            Triple-bind _ _
              (Triple-store {Q = Quiet} a _ (λ h m (same_map, there). (
                rw (get_elem?-set h a a _, ==_self a, there)
                    (status_delete c _ (ap (λ (k : ℕ). delete k c.pub_status) e)),
                same_map,
              )))
              λ _.
                Triple-bind _ _ (Keeps-emit _)
                  λ _. release_kept-Quiet visit (lookup p.packet_id c.cache_msg))
          (λ quiet. Triple-pure tt (λ h m (same_map, there). (rw there (rw e at quiet), same_map)))

-- A PUBREL from a client whose record is quiet changes nothing.
pubrel_of_quiet :
    (rand : ℕ → ℕ) (fuel a : ℕ) (visit : List ℕ) (p : MqttPacketPublishData) (s : Server)
    → IsQuiet p.packet_id (get_elem? s.heap a)
    → pubrel_of rand fuel visit a p s ≡ ok (tt, s)
unfolding pubrel_of load
pubrel_of_quiet rand fuel a visit p s q = elim (Option-cases (get_elem? s.heap a)) [
  | inl absent ↦ absurd (rw absent at q)
  | inr (c, there) ↦ rw (there, (rw there at q))
]

unchanged :
    {s s' : Server} → ◌≡◌ {A = Outcome (Unit {0} × Server)} (ok (tt, s)) (ok (tt, s')) → s ≡ s'
unchanged e = cc

-- When a client's PUBREL was handled, another one with the same packet id from the same client, right
-- behind it, has no effect at all, in whatever order the clients are visited: the kept message goes
-- out once.
pub pubrel_once :
    (rand : ℕ → ℕ) (fuel : ℕ) (visit visit' : List ℕ) (from : Bytes) (p : MqttPacketPublishData)
    (s s' : Server)
    → client_pubrel rand fuel visit from (publish_data p) s ≡ ok (tt, s')
    → client_pubrel rand fuel visit' from (publish_data p) s' ≡ ok (tt, s')
unfolding client_pubrel find_client
pubrel_once rand fuel visit visit' from p s s' e = elim (Option-cases (lookup from s.clients)) [
  | inl absent ↦
      let same : s ≡ s' = unchanged (rw absent at e) in
      subst (λ (t : Server). client_pubrel rand fuel visit' from (publish_data p) t ≡ ok (tt, t))
        same (rw absent)
  | inr (a, found) ↦
      let run : pubrel_of rand fuel visit a p s ≡ ok (tt, s') = rw found at e in
      let (quiet, same_map) =
        rw run at ((pubrel_of-Quiet a p.packet_id s.clients rand fuel visit p refl).at s refl) in
      let found' : lookup from s'.clients ≡ some a = ap (lookup from) same_map ∙ found in
      rw found' (pubrel_of_quiet rand fuel a visit' p s' quiet)
]
