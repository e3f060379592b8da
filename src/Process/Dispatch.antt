-- ===== src/Process/Dispatch.antt =====
-- `processMsg` and `ClientsMsgDispatch` of process/clients_MsgDispatch_Center.go, and the cases for
-- messages of other nodes.
pub mod Heartbeat
pub mod Relay
pub mod Departure
use mqtt_server_go.Prelude.{
  ℕ, ◌-◌, List, [], ◌∷◌, ◌+◌, ◌%◌, ◌^◌, Bytes, ok, panic, Map, insert, delete, nat_eq, bytes_eq,
  bytes_beq, ltb, ◌==◌, if◌then◌else◌,
}
use mqtt_server_go.ProtocolStack.PacketType.{pubrec}
use mqtt_server_go.ProtocolStack.Publish.{MqttPacketPublishData, mqtt_seserialize_publish}
use mqtt_server_go.Cluster.Message.{
  Body, text, client_info, ClusterClientInfo, RoutingCommunicateMsg, cluster_client_info_msg,
  cluster_msg_publish_dispatch, cluster_msg_login_notify, cluster_msg_login_info_notify,
  msg_client_add, msg_client_del, msg_client_sub, msg_client_unsub, msg_client_publish,
  msg_client_puback, msg_client_pubrec, msg_client_pubrel, msg_client_pubcomp,
}
use mqtt_server_go.Process.Server.{
  MqttClientInfo, M, ◌>>=◌, ◌>>◌, pure, lift, load, store, emit, write, close, to_cluster,
}
use mqtt_server_go.Process.Deliver.{for_clients, cluster_to_client}
use mqtt_server_go.Process.Handlers.{
  as_publish, client_add, client_del, client_sub, client_unsub, client_publish, client_puback,
  client_pubrec, client_pubrel, client_pubcomp,
}

-- `for topic, qos := range client.SubInfo { m[topic] = qos }`
unfoldable pub copy_entries : Map Bytes ℕ → Map Bytes ℕ → Map Bytes ℕ
copy_entries [] info = info
copy_entries ((t, q) ∷ entries) info = copy_entries entries (insert t q info)

-- MSG_CLUSTER_LOGIN: the client's record leaves the map and what it holds goes to the other node.
unfoldable pub hand_over : Bytes → Bytes → MqttClientInfo → M (Unit {0})
hand_over from login_id c = do
  (λ s. ok (tt, record s { clients = delete login_id s.clients }))
  emit (
      to_cluster (record {
        msg_type = cluster_client_info_msg;
        msg_from = from;
        msg_body = client_info (record {
          client_id = login_id;
          subinfo = copy_entries c.sub_info [];
          offline_msg = c.offline_msg;
        });
      }))

-- The loop ends at the first client with the id.
unfoldable pub login_loop : Bytes → Bytes → List ℕ → M (Unit {0})
login_loop from login_id [] = pure tt
login_loop from login_id (a ∷ visit) = do
  c ← load a
  let rest = login_loop from login_id visit
  if bytes_beq c.client_id login_id then hand_over from login_id c else rest

unfoldable pub cluster_login : List ℕ → Bytes → Body → M (Unit {0})
cluster_login visit from (text login_id) = login_loop from login_id visit
cluster_login visit from _ = λ s. panic

-- `for _, offlineMsg := range … { … }`: each message is written to the connection, and one of
-- quality 2 waits for its PUBREC.
unfoldable pub send_offline : ℕ → ℕ → List MqttPacketPublishData → M (Unit {0})
send_offline conn a [] = pure tt
send_offline conn a (p ∷ msgs) = do
  (n, write_buf) ← lift (mqtt_seserialize_publish p [])
  (if p.qos == 2
      then (do
        c ← load a
        store a (record c { pub_status = insert p.packet_id pubrec c.pub_status }))
      else pure tt)
  emit (write conn write_buf)
  send_offline conn a msgs

-- MSG_CLUSTER_LOGIN_INFO, for the client that it is about
unfoldable pub take_over : ClusterClientInfo → ℕ → M (Unit {0})
take_over info a = do
  c ← load a
  send_offline c.conn a info.offline_msg
  c ← load a
  store a (record c { sub_info = copy_entries info.subinfo c.sub_info })

unfoldable pub login_info_loop : ClusterClientInfo → List ℕ → M (Unit {0})
login_info_loop info [] = pure tt
login_info_loop info (a ∷ visit) = do
  c ← load a
  let rest = login_info_loop info visit
  if bytes_beq c.client_id info.client_id then take_over info a else rest

unfoldable pub cluster_login_info : List ℕ → Body → M (Unit {0})
cluster_login_info visit (client_info info) = login_info_loop info visit
cluster_login_info visit _ = λ s. panic

-- `client.heartTimeout--` on a uint16, and the test that follows it, for every client.
unfoldable pub tick_client : ℕ → Unit {0} → M (Unit {0})
tick_client a st = do
  c ← load a
  let timeout = (c.heart_timeout + (2 ^ 16 - 1)) % 2 ^ 16
  store a (record c { heart_timeout = timeout })
  if ltb timeout 0 then emit (close c.conn) else pure tt

-- The ticker's case.
unfoldable pub tick : List ℕ → M (Unit {0})
tick visit = for_clients tick_client visit tt

module _ (rand : ℕ → ℕ) (fuel : ℕ) where
  -- MSG_CLUSTER_PUBLISH
  unfoldable pub cluster_publish : List ℕ → Body → M (Unit {0})
  cluster_publish visit body = do
    p ← as_publish body
    p ← for_clients (cluster_to_client rand fuel) visit p
    pure tt

  -- The switch on the type. `visit` is the order in which this call ranges over the clients.
  unfoldable pub process_msg : List ℕ → RoutingCommunicateMsg → M (Unit {0})
  process_msg visit msg =
      if msg.msg_type == msg_client_add
      then client_add msg.msg_body
      else if msg.msg_type == msg_client_del
      then client_del msg.msg_body
      else if msg.msg_type == msg_client_sub
      then client_sub msg.msg_from msg.msg_body
      else if msg.msg_type == msg_client_unsub
      then client_unsub msg.msg_from msg.msg_body
      else if msg.msg_type == msg_client_publish
      then client_publish rand fuel visit msg.msg_from msg.msg_body
      else if msg.msg_type == msg_client_puback
      then client_puback msg.msg_from msg.msg_body
      else if msg.msg_type == msg_client_pubrec
      then client_pubrec msg.msg_from msg.msg_body
      else if msg.msg_type == msg_client_pubrel
      then client_pubrel rand fuel visit msg.msg_from msg.msg_body
      else if msg.msg_type == msg_client_pubcomp
      then client_pubcomp msg.msg_from msg.msg_body
      else if msg.msg_type == cluster_msg_publish_dispatch
      then cluster_publish visit msg.msg_body
      else if msg.msg_type == cluster_msg_login_notify
      then cluster_login visit msg.msg_from msg.msg_body
      else if msg.msg_type == cluster_msg_login_info_notify
      then cluster_login_info visit msg.msg_body
      else pure tt
