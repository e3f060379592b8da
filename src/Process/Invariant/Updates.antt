-- ===== src/Process/Invariant/Updates.antt =====
-- What the program writes into a client's record keeps the invariant of the record.
use mqtt_server_go.Prelude.{
  ℕ, ◌≤◌, ◌≡◌, subst, arith, ◌+◌, inl, inr, Bool-cases, List, [], ◌∷◌, ◌++◌, All, Bytes, Map,
  lookup, insert, delete, lookup-insert, lookup-delete, nat_eq, bytes_eq, ok, Option, some, none,
  ◌==◌, >>=-inv, index_at,
}
use mqtt_server_go.ProtocolStack.Publish.{MqttPacketPublishData}
use mqtt_server_go.ProtocolStack.Subscribe.{
  MqttPacketSubscribeData, get_sub_info_loop, mqtt_get_sub_info,
}
use mqtt_server_go.ProtocolStack.Unsubscribe.{
  MqttPacketUnSubscribeData, remove_topics, delete_found, mqtt_remove_un_sub_topic,
}
use mqtt_server_go.Process.Deliver.Topics.{Distinct, insert-Distinct, delete-Distinct}
use mqtt_server_go.Process.Dispatch.{copy_entries}
use mqtt_server_go.Process.Invariant.{Statuses, Kept}

pub insert-Statuses :
    (id st : ℕ) (m : Map ℕ ℕ) → 4 ≤ st → st ≤ 7 → Statuses m → Statuses (insert id st m)
insert-Statuses id st m p q s k st' e = ground (arith, lookup-insert id k st m, s k st')

pub delete-Statuses : (id : ℕ) (m : Map ℕ ℕ) → Statuses m → Statuses (delete id m)
delete-Statuses id m s k st' e = ground (arith, lookup-delete id k m, s k st')

-- A status that is set and deleted at once
pub delete-insert-Statuses :
    (id st : ℕ) (m : Map ℕ ℕ) → Statuses m → Statuses (delete id (insert id st m))
delete-insert-Statuses id st m s k st' e =
    ground (arith, lookup-delete id k (insert id st m), lookup-insert id k st m, s k st')

pub insert-Kept :
    (id : ℕ) (p : MqttPacketPublishData) (m : Map ℕ MqttPacketPublishData)
    → 1 ≤ p.qos
    → Kept m
    → Kept (insert id p m)
insert-Kept id p m h s k q e = elim (Bool-cases (id == k)) [
  | inl same ↦
      let here : some p ≡ some q = rw (lookup-insert id k p m, same) at e in
      let eq : p ≡ q = cc in subst (λ (r : MqttPacketPublishData). 1 ≤ r.qos) eq h
  | inr other ↦ s k q (rw (lookup-insert id k p m, other) at e)
]

pub delete-Kept : (id : ℕ) (m : Map ℕ MqttPacketPublishData) → Kept m → Kept (delete id m)
delete-Kept id m s k q e = elim (Bool-cases (id == k)) [
  | inl same ↦
      let gone : ◌≡◌ {A = Option MqttPacketPublishData} none (some q) =
        rw (lookup-delete id k m, same) at e in
      absurd (cc)
  | inr other ↦ s k q (rw (lookup-delete id k m, other) at e)
]

pub append-All :
    (ps : List MqttPacketPublishData) (p : MqttPacketPublishData)
    → All (λ p. 1 ≤ p.qos) ps
    → 1 ≤ p.qos
    → All (λ p. 1 ≤ p.qos) (ps ++ p ∷ [])
append-All [] p h k = (k, tt)
append-All (q ∷ ps) p (h, hs) k = (h, append-All ps p hs k)

get_sub_info_loop-Distinct :
    (topic : List Bytes) (i : ℕ) (qos : List ℕ) (info info' : Map Bytes ℕ)
    → get_sub_info_loop topic i qos info ≡ ok info'
    → Distinct info
    → Distinct info'
unfolding get_sub_info_loop
get_sub_info_loop-Distinct [] i qos info info' e d =
    let same : info ≡ info' = cc in subst Distinct same d
get_sub_info_loop-Distinct (t ∷ topic) i qos info info' e d =
    let (q, here, there) = >>=-inv (index_at qos i) _ e in
    get_sub_info_loop-Distinct topic (i + 1) qos (insert t q info) info' there
      (insert-Distinct t q info d)

pub get_sub_info-Distinct :
    (sub : MqttPacketSubscribeData) (info info' : Map Bytes ℕ)
    → mqtt_get_sub_info sub info ≡ ok info'
    → Distinct info
    → Distinct info'
unfolding mqtt_get_sub_info
get_sub_info-Distinct sub info info' = get_sub_info_loop-Distinct sub.topic 0 sub.qos info info'

remove_topics-Distinct :
    (topic : List Bytes) (info : Map Bytes ℕ) → Distinct info → Distinct (remove_topics topic info)
unfolding remove_topics
remove_topics-Distinct [] info d = d
remove_topics-Distinct (t ∷ topic) info d = remove_topics-Distinct topic _ (removed (lookup t info))
  where
    removed : (o : Option ℕ) → Distinct (delete_found o t info)
    removed none = d
    removed (some q) = delete-Distinct t info d

pub remove_un_sub_topic-Distinct :
    (unsub : MqttPacketUnSubscribeData) (info : Map Bytes ℕ)
    → Distinct info
    → Distinct (mqtt_remove_un_sub_topic unsub info)
unfolding mqtt_remove_un_sub_topic
remove_un_sub_topic-Distinct unsub info = remove_topics-Distinct unsub.topic info

pub copy_entries-Distinct :
    (entries info : Map Bytes ℕ) → Distinct info → Distinct (copy_entries entries info)
unfolding copy_entries
copy_entries-Distinct [] info d = d
copy_entries-Distinct ((t, q) ∷ entries) info d =
    copy_entries-Distinct entries (insert t q info) (insert-Distinct t q info d)
