-- ===== src/Process/Invariant.antt =====
-- The invariant of the state that the routines of process/ share.
pub mod Updates
pub mod Deliver
pub mod Handlers
pub mod Packets
pub mod Dispatch
pub mod Session
pub mod Rounds
use mqtt_server_go.Prelude.{
  ℕ, zero, suc, ◌+◌, ◌≤◌, ◌<◌, ◌≡◌, refl, ap, sym, subst, ◌∙◌, arith, inl, inr, true, false,
  Bool-cases, List, [], ◌∷◌, ◌++◌, All, Bytes, Map, lookup, nat_eq, bytes_eq, some, get_elem?, set,
  get_elem?-set, ◌==◌, ==_iff, length, if◌then◌else◌,
}
use mqtt_server_go.ProtocolStack.Publish.{MqttPacketPublishData}
use mqtt_server_go.Process.Server.{MqttClientInfo, M, store, pure}
use mqtt_server_go.Process.Deliver.Topics.{Distinct}
use mqtt_server_go.Process.Heaps.{
  Pred, Heap, Triple, Triple-store, Triple-pure, Triple-pre, Triple-fact,
}

-- The status of a packet id is PUBACK, PUBREC, PUBREL or PUBCOMP.
abbrev pub Statuses : Map ℕ ℕ → Type 0
Statuses m = (id st : ℕ) → lookup id m ≡ some st → (4 ≤ st) × (st ≤ 7)

-- The messages that are kept have a quality above 0.
abbrev pub Kept : Map ℕ MqttPacketPublishData → Type 0
Kept m = (id : ℕ) (p : MqttPacketPublishData) → lookup id m ≡ some p → 1 ≤ p.qos

-- A client's record: its topics are distinct, it is logged in or not, its packet ids have a status,
-- and neither what it keeps nor what waits for it has quality 0.
pub record IsClient (c : MqttClientInfo) : Type 0 where
  pub topics : Distinct c.sub_info
  pub login : c.login_success ≤ 1
  pub statuses : Statuses c.pub_status
  pub cached : Kept c.cache_msg
  pub waiting : All (λ p. 1 ≤ p.qos) c.offline_msg

-- The map: no client id stands twice in it, and each leads to a record of that client.
pub record Valid (h : Heap) (m : Map Bytes ℕ) : Type 0 where
  pub keys : Distinct m
  pub entries :
      (k : Bytes) (a : ℕ)
      → lookup k m ≡ some a
      → (c : MqttClientInfo) × (get_elem? h a ≡ some c) × (c.client_id ≡ k)
  pub records : (a : ℕ) (c : MqttClientInfo) → get_elem? h a ≡ some c → IsClient c

-- The record at an address is known.
abbrev pub Has : ℕ → MqttClientInfo → Pred
Has a c h m = Valid h m × (get_elem? h a ≡ some c)

-- A write to a record that leaves the client's id as the map has it
pub set-Valid :
    (h : Heap) (m : Map Bytes ℕ) (a : ℕ) (c c' : MqttClientInfo)
    → Valid h m
    → get_elem? h a ≡ some c
    → ((k : Bytes) → lookup k m ≡ some a → c'.client_id ≡ k)
    → IsClient c'
    → Valid (set h a c') m
set-Valid h m a c c' v at name fine = record {
  keys = v.keys;
  entries = λ k b found.
      let (d, there, id) = v.entries k b found in
      elim (Bool-cases (a == b)) [
        | inl same ↦ (
          c',
          rw (get_elem?-set h a b c', same, there) refl,
          name k (found ∙ ap some (sym ((==_iff a b).0 same))),
        )
        | inr other ↦ (d, rw (get_elem?-set h a b c', other) there, id)
      ];
  records = λ b d there. elim (Bool-cases (a == b)) [
    | inl same ↦
        let here : get_elem? h b ≡ some c = ap (get_elem? h) (sym ((==_iff a b).0 same)) ∙ at in
        let written : some c' ≡ some d = rw (get_elem?-set h a b c', same, here) at there in
        let new : c' ≡ d = cc in subst IsClient new fine
    | inr other ↦ v.records b d (rw (get_elem?-set h a b c', other) at there)
  ];
}

-- What a handler does that has loaded a record
module _ (a : ℕ) (c : MqttClientInfo) where
  pub store-Valid :
      (c' : MqttClientInfo)
      → c'.client_id ≡ c.client_id
      → (IsClient c → IsClient c')
      → Triple (Has a c) (store a c') (λ r. Valid)
  store-Valid c' name keep = Triple-store a c' (λ h m (v, at).
      set-Valid h m a c c' v at (λ k found. name ∙ owner v at k found) (keep (v.records a c at)))
    where
      owner :
          {h : Heap} {m : Map Bytes ℕ}
          → Valid h m
          → get_elem? h a ≡ some c
          → (k : Bytes) → lookup k m ≡ some a
          → c.client_id ≡ k
      owner v at k found =
          let (d, there, id) = v.entries k a found in
          let same : c ≡ d = cc in ap (λ (e : MqttClientInfo). e.client_id) same ∙ id

  pub pure-Valid : {A : Type 0} (r : A) → Triple (Has a c) (pure r) (λ r. Valid)
  pure-Valid r = Triple-pure r (λ h m (v, at). v)

-- What is known of the record that a handler has loaded
pub known :
    {A : Type 0} {a : ℕ} {c : MqttClientInfo} {m : M A} {Q : A → Pred}
    → (IsClient c → Triple (Has a c) m Q)
    → Triple (Has a c) m Q
known {a} {c} k = Triple-pre (λ h m (v, at). ((v, at), v.records a c at)) (Triple-fact k)

-- What needs no more than the invariant
pub forget :
    {A : Type 0} {a : ℕ} {c : MqttClientInfo} {m : M A} {Q : A → Pred}
    → Triple Valid m Q
    → Triple (Has a c) m Q
forget = Triple-pre (λ h m (v, at). v)
