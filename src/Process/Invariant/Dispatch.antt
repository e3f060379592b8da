-- ===== src/Process/Invariant/Dispatch.antt =====
-- The dispatcher's cases for other nodes and the ticker's keep the invariant, and so every message.
use mqtt_server_go.Prelude.{
  ℕ, ◌+◌, ◌-◌, ◌%◌, ◌^◌, refl, arith, List, [], ◌∷◌, Bytes, delete, nat_eq, bytes_eq, bytes_beq,
  ◌==◌, ltb, if◌then◌else◌, ok,
}
use mqtt_server_go.ProtocolStack.PacketType.{pubrec}
use mqtt_server_go.ProtocolStack.Publish.{MqttPacketPublishData}
use mqtt_server_go.Cluster.Message.{
  Body, client, text, subscribe_data, unsubscribe_data, publish_data, client_info, udp_addr,
  ClusterClientInfo, RoutingCommunicateMsg, cluster_client_info_msg, msg_client_add, msg_client_del,
  msg_client_sub, msg_client_unsub, msg_client_publish, msg_client_puback, msg_client_pubrec,
  msg_client_pubrel, msg_client_pubcomp, cluster_msg_publish_dispatch, cluster_msg_login_notify,
  cluster_msg_login_info_notify,
}
use mqtt_server_go.Process.Server.{MqttClientInfo, M, to_cluster}
use mqtt_server_go.Process.Dispatch.{
  copy_entries, hand_over, login_loop, cluster_login, send_offline, take_over, login_info_loop,
  cluster_login_info, tick_client, tick, cluster_publish, process_msg,
}
use mqtt_server_go.Process.Heaps.{
  Keeps, Triple-bind, Triple-load, Triple-if, Keeps-pure, Keeps-lift, Keeps-emit, Keeps-load,
  Keeps-panic, Keeps-for_clients,
}
use mqtt_server_go.Process.Invariant.{IsClient, Valid, store-Valid, known}
use mqtt_server_go.Process.Invariant.Updates.{copy_entries-Distinct}
use mqtt_server_go.Process.Invariant.Deliver.{with_status, cluster_to_client-Valid}
use mqtt_server_go.Process.Invariant.Handlers.{
  with_topics, delete-Valid, client_add-Valid, client_del-Valid, client_sub-Valid,
  client_unsub-Valid,
}
use mqtt_server_go.Process.Invariant.Packets.{
  Keeps-as_publish, client_publish-Valid, client_puback-Valid, client_pubrec-Valid,
  client_pubrel-Valid, client_pubcomp-Valid,
}

deleted :
    (id : Bytes)
    → Keeps {A = Unit {0}} Valid (λ s. ok (tt, record s { clients = delete id s.clients }))
deleted id = record { at = λ s v. delete-Valid s.heap s.clients id v }

hand_over-Valid : (from id : Bytes) (c : MqttClientInfo) → Keeps Valid (hand_over from id c)
unfolding hand_over
hand_over-Valid from id c = Triple-bind _ _ (deleted id) λ _. Keeps-emit (
    to_cluster (record {
      msg_type = cluster_client_info_msg;
      msg_from = from;
      msg_body = client_info (record {
        client_id = id;
        subinfo = copy_entries c.sub_info [];
        offline_msg = c.offline_msg;
      });
    }))

login_loop-Valid : (from id : Bytes) (visit : List ℕ) → Keeps Valid (login_loop from id visit)
unfolding login_loop
login_loop-Valid from id [] = Keeps-pure tt
login_loop-Valid from id (a ∷ visit) = Triple-bind _ _ (Keeps-load a) λ c.
    Triple-if (bytes_beq c.client_id id) _ _ (λ _. hand_over-Valid from id c)
      (λ _. login_loop-Valid from id visit)

cluster_login-Valid :
    (visit : List ℕ) (from : Bytes) (body : Body) → Keeps Valid (cluster_login visit from body)
unfolding cluster_login
cluster_login-Valid visit from (text id) = login_loop-Valid from id visit
cluster_login-Valid visit from (client _) = Keeps-panic
cluster_login-Valid visit from (subscribe_data _) = Keeps-panic
cluster_login-Valid visit from (unsubscribe_data _) = Keeps-panic
cluster_login-Valid visit from (publish_data _) = Keeps-panic
cluster_login-Valid visit from (client_info _) = Keeps-panic
cluster_login-Valid visit from (udp_addr _) = Keeps-panic

pub send_offline-Valid :
    (conn a : ℕ) (msgs : List MqttPacketPublishData) → Keeps Valid (send_offline conn a msgs)
unfolding send_offline
send_offline-Valid conn a [] = Keeps-pure tt
send_offline-Valid conn a (p ∷ msgs) = Triple-bind _ _ (Keeps-lift _) λ r.
    Triple-bind _ _
      (Triple-if (p.qos == 2) _ _
        (λ _. Triple-bind _ _ (Triple-load a) λ c.
          store-Valid a c _ refl (with_status c p.packet_id pubrec (omega arith) (omega arith)))
        (λ _. Keeps-pure tt))
      λ _. Triple-bind _ _ (Keeps-emit _) λ _. send_offline-Valid conn a msgs

take_over-Valid : (info : ClusterClientInfo) (a : ℕ) → Keeps Valid (take_over info a)
unfolding take_over
take_over-Valid info a = Triple-bind _ _ (Keeps-load a) λ c.
    Triple-bind _ _ (send_offline-Valid c.conn a info.offline_msg) λ _.
      Triple-bind _ _ (Triple-load a) λ c. known λ old.
        store-Valid a c _ refl
          (with_topics c _ (copy_entries-Distinct info.subinfo c.sub_info old.topics))

login_info_loop-Valid :
    (info : ClusterClientInfo) (visit : List ℕ) → Keeps Valid (login_info_loop info visit)
unfolding login_info_loop
login_info_loop-Valid info [] = Keeps-pure tt
login_info_loop-Valid info (a ∷ visit) = Triple-bind _ _ (Keeps-load a) λ c.
    Triple-if (bytes_beq c.client_id info.client_id) _ _ (λ _. take_over-Valid info a)
      (λ _. login_info_loop-Valid info visit)

cluster_login_info-Valid :
    (visit : List ℕ) (body : Body) → Keeps Valid (cluster_login_info visit body)
unfolding cluster_login_info
cluster_login_info-Valid visit (client_info info) = login_info_loop-Valid info visit
cluster_login_info-Valid visit (client _) = Keeps-panic
cluster_login_info-Valid visit (text _) = Keeps-panic
cluster_login_info-Valid visit (subscribe_data _) = Keeps-panic
cluster_login_info-Valid visit (unsubscribe_data _) = Keeps-panic
cluster_login_info-Valid visit (publish_data _) = Keeps-panic
cluster_login_info-Valid visit (udp_addr _) = Keeps-panic

with_heart :
    (c : MqttClientInfo) (timeout : ℕ)
    → IsClient c
    → IsClient (record c { heart_timeout = timeout })
with_heart c timeout v = record {
  topics = v.topics;
  login = v.login;
  statuses = v.statuses;
  cached = v.cached;
  waiting = v.waiting;
}

pub tick-Valid : (visit : List ℕ) → Keeps Valid (tick visit)
unfolding tick tick_client
tick-Valid visit = Keeps-for_clients _ visit tt (λ a st. Triple-bind _ _ (Triple-load a) λ c.
    Triple-bind _ _ (store-Valid a c _ refl (with_heart c _)) λ _.
      Triple-if (ltb ((c.heart_timeout + (2 ^ 16 - 1)) % 2 ^ 16) 0) _ _ (λ _. Keeps-emit _)
        (λ _. Keeps-pure tt))

-- A case of the switch on the message's type
on_type :
    (msg : RoutingCommunicateMsg) (n : ℕ) (m k : M (Unit {0}))
    → Keeps Valid m
    → Keeps Valid k
    → Keeps Valid (if msg.msg_type == n then m else k)
on_type msg n m k hm hk = Triple-if (msg.msg_type == n) m k (λ _. hm) (λ _. hk)

module _ (rand : ℕ → ℕ) (fuel : ℕ) where
  cluster_publish-Valid :
      (visit : List ℕ) (body : Body) → Keeps Valid (cluster_publish rand fuel visit body)
  unfolding cluster_publish
  cluster_publish-Valid visit body = Triple-bind _ _ (Keeps-as_publish body) λ p.
      Triple-bind _ _ (Keeps-for_clients _ visit p (cluster_to_client-Valid rand fuel))
        λ _. Keeps-pure tt

  -- Every message keeps the invariant.
  pub process_msg-Valid :
      (visit : List ℕ) (msg : RoutingCommunicateMsg) → Keeps Valid (process_msg rand fuel visit msg)
  unfolding process_msg
  process_msg-Valid visit msg =
      let body = msg.msg_body in
      let from = msg.msg_from in
      on_type msg msg_client_add _ _ (client_add-Valid body) (
        on_type msg msg_client_del _ _ (client_del-Valid body) (
          on_type msg msg_client_sub _ _ (client_sub-Valid from body) (
            on_type msg msg_client_unsub _ _ (client_unsub-Valid from body) (
              on_type msg msg_client_publish _ _ (client_publish-Valid rand fuel visit from body) (
                on_type msg msg_client_puback _ _ (client_puback-Valid from body) (
                  on_type msg msg_client_pubrec _ _ (client_pubrec-Valid from body) (
                    on_type msg msg_client_pubrel _ _
                      (client_pubrel-Valid rand fuel visit from body)
                      (on_type msg msg_client_pubcomp _ _ (client_pubcomp-Valid from body) (
                        on_type msg cluster_msg_publish_dispatch _ _
                          (cluster_publish-Valid visit body)
                          (on_type msg cluster_msg_login_notify _ _
                            (cluster_login-Valid visit from body)
                            (on_type msg cluster_msg_login_info_notify _ _
                              (cluster_login_info-Valid visit body) (Keeps-pure tt))))))))))))
