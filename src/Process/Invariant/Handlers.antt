-- ===== src/Process/Invariant/Handlers.antt =====
-- The dispatcher's cases for the messages of the connections' routines keep the invariant.
use mqtt_server_go.Prelude.{
  ℕ, ◌≡◌, refl, sym, ap, ◌∙◌, inl, inr, Bool-cases, Bytes, Map, insert, delete, lookup-insert,
  lookup-delete, nat_eq, bytes_eq, bytes_beq, bytes_beq_iff, Option, none, some, ok, get_elem?,
}
use mqtt_server_go.ProtocolStack.Subscribe.{MqttPacketSubscribeData, mqtt_get_sub_info}
use mqtt_server_go.ProtocolStack.Unsubscribe.{MqttPacketUnSubscribeData}
use mqtt_server_go.Cluster.Message.{
  Body, client, text, subscribe_data, unsubscribe_data, publish_data, client_info, udp_addr,
  cluster_login_msg,
}
use mqtt_server_go.Process.Server.{MqttClientInfo, to_cluster}
use mqtt_server_go.Process.Deliver.Topics.{Distinct, insert-Distinct, delete-Distinct}
use mqtt_server_go.Process.Handlers.{
  cluster_msg, client_add, client_del, sub_of, client_sub, unsub_of, client_unsub,
}
use mqtt_server_go.Process.Heaps.{
  Heap, Triple, Keeps, Triple-bind, Triple-load, Triple-fact, Triple-lift, Keeps-pure, Keeps-emit,
  Keeps-find_client, Keeps-if_found, Keeps-panic,
}
use mqtt_server_go.Process.Invariant.{IsClient, Valid, Has, store-Valid, known}
use mqtt_server_go.Process.Invariant.Updates.{get_sub_info-Distinct, remove_un_sub_topic-Distinct}

-- A client's id leads to its record.
insert-Valid :
    (h : Heap) (m : Map Bytes ℕ) (a : ℕ) (c : MqttClientInfo)
    → Has a c h m
    → Valid h (insert c.client_id a m)
insert-Valid h m a c (v, at) = record {
  keys = insert-Distinct c.client_id a m v.keys;
  entries = λ k b found. elim (Bool-cases (bytes_beq c.client_id k)) [
    | inl same ↦
        let here : some a ≡ some b = rw (lookup-insert c.client_id k a m, same) at found in
        let eq : a ≡ b = cc in
        (c, ap (get_elem? h) (sym eq) ∙ at, (bytes_beq_iff c.client_id k).0 same)
    | inr other ↦ v.entries k b (rw (lookup-insert c.client_id k a m, other) at found)
  ];
  records = v.records;
}

pub delete-Valid : (h : Heap) (m : Map Bytes ℕ) (k : Bytes) → Valid h m → Valid h (delete k m)
delete-Valid h m k v = record {
  keys = delete-Distinct k m v.keys;
  entries = λ j b found. elim (Bool-cases (bytes_beq k j)) [
    | inl same ↦
        let gone : ◌≡◌ {A = Option ℕ} none (some b) = rw (lookup-delete k j m, same) at found in
        absurd (cc)
    | inr other ↦ v.entries j b (rw (lookup-delete k j m, other) at found)
  ];
  records = v.records;
}

inserted :
    (a : ℕ) (c : MqttClientInfo)
    → Triple {A = Unit {0}}
        (Has a c)
        (λ s. ok (tt, record s { clients = insert c.client_id a s.clients }))
        (λ r. Valid)
inserted a c = record { at = λ s has. insert-Valid s.heap s.clients a c has }

pub client_add-Valid : (body : Body) → Keeps Valid (client_add body)
unfolding client_add
client_add-Valid (client a) = Triple-bind _ _ (Triple-load a) λ c.
    Triple-bind _ _ (inserted a c)
      λ _. Keeps-emit (to_cluster (cluster_msg cluster_login_msg (text c.client_id)))
client_add-Valid (text _) = Keeps-pure tt
client_add-Valid (subscribe_data _) = Keeps-pure tt
client_add-Valid (unsubscribe_data _) = Keeps-pure tt
client_add-Valid (publish_data _) = Keeps-pure tt
client_add-Valid (client_info _) = Keeps-pure tt
client_add-Valid (udp_addr _) = Keeps-pure tt

pub client_del-Valid : (body : Body) → Keeps Valid (client_del body)
unfolding client_del
client_del-Valid (client _) = Keeps-pure tt
client_del-Valid (text id) = record { at = λ s v. delete-Valid s.heap s.clients id v }
client_del-Valid (subscribe_data _) = Keeps-pure tt
client_del-Valid (unsubscribe_data _) = Keeps-pure tt
client_del-Valid (publish_data _) = Keeps-pure tt
client_del-Valid (client_info _) = Keeps-pure tt
client_del-Valid (udp_addr _) = Keeps-pure tt

pub with_topics :
    (c : MqttClientInfo) (info : Map Bytes ℕ)
    → Distinct info
    → IsClient c
    → IsClient (record c { sub_info = info })
with_topics c info d v = record {
  topics = d;
  login = v.login;
  statuses = v.statuses;
  cached = v.cached;
  waiting = v.waiting;
}

sub_of-Valid : (a : ℕ) (sub : MqttPacketSubscribeData) → Keeps Valid (sub_of a sub)
unfolding sub_of
sub_of-Valid a sub = Triple-bind _ _ (Triple-load a) λ c. known λ old.
    Triple-bind _ _ (Triple-lift (mqtt_get_sub_info sub c.sub_info)) λ info. Triple-fact λ e.
      store-Valid a c _ refl
        (with_topics c info (get_sub_info-Distinct sub c.sub_info info e old.topics))

unsub_of-Valid : (a : ℕ) (unsub : MqttPacketUnSubscribeData) → Keeps Valid (unsub_of a unsub)
unfolding unsub_of
unsub_of-Valid a unsub = Triple-bind _ _ (Triple-load a) λ c. known λ old.
    store-Valid a c _ refl
      (with_topics c _ (remove_un_sub_topic-Distinct unsub c.sub_info old.topics))

pub client_sub-Valid : (from : Bytes) (body : Body) → Keeps Valid (client_sub from body)
unfolding client_sub
client_sub-Valid from (subscribe_data sub) =
    Triple-bind _ _ (Keeps-find_client from)
      λ self. Keeps-if_found self _ _ (Keeps-pure tt) (λ a. sub_of-Valid a sub)
client_sub-Valid from (client _) = Keeps-panic
client_sub-Valid from (text _) = Keeps-panic
client_sub-Valid from (unsubscribe_data _) = Keeps-panic
client_sub-Valid from (publish_data _) = Keeps-panic
client_sub-Valid from (client_info _) = Keeps-panic
client_sub-Valid from (udp_addr _) = Keeps-panic

pub client_unsub-Valid : (from : Bytes) (body : Body) → Keeps Valid (client_unsub from body)
unfolding client_unsub
client_unsub-Valid from (unsubscribe_data unsub) =
    Triple-bind _ _ (Keeps-find_client from)
      λ self. Keeps-if_found self _ _ (Keeps-pure tt) (λ a. unsub_of-Valid a unsub)
client_unsub-Valid from (client _) = Keeps-panic
client_unsub-Valid from (text _) = Keeps-panic
client_unsub-Valid from (subscribe_data _) = Keeps-panic
client_unsub-Valid from (publish_data _) = Keeps-panic
client_unsub-Valid from (client_info _) = Keeps-panic
client_unsub-Valid from (udp_addr _) = Keeps-panic
