-- ===== src/Process/Handlers.antt =====
-- The cases of `processMsg` in process/clients_MsgDispatch_Center.go for the messages of the
-- connections' routines. A failed type assertion without `ok` panics.
pub mod Once
pub mod Handshake
pub mod Exchange
pub mod Publishes
pub mod Releasing
mod Tests
use mqtt_server_go.Prelude.{
  ℕ, List, [], Bytes, ok, panic, insert, delete, lookup, nat_eq, bytes_eq, ◌==◌, if◌then◌else◌,
  Option, none, some, Bool, false,
}
use mqtt_server_go.ProtocolStack.PacketType.{puback, pubrec, pubrel, pubcomp, none_type}
use mqtt_server_go.ProtocolStack.Publish.{
  MqttPacketPublishData, mqtt_seserialize_pubrel, mqtt_seserialize_pubcomp,
}
use mqtt_server_go.ProtocolStack.Subscribe.{MqttPacketSubscribeData, mqtt_get_sub_info}
use mqtt_server_go.ProtocolStack.Unsubscribe.{MqttPacketUnSubscribeData, mqtt_remove_un_sub_topic}
use mqtt_server_go.Cluster.Message.{
  Body, client, text, subscribe_data, unsubscribe_data, publish_data, RoutingCommunicateMsg,
  cluster_login_msg, cluster_public_msg,
}
use mqtt_server_go.Process.Server.{
  MqttClientInfo, M, ◌>>=◌, ◌>>◌, pure, lift, load, store, emit, write, to_cluster, find_client,
  if_found,
}
use mqtt_server_go.Process.Deliver.{for_clients, publish_to_client, release_to_client}

abbrev fail : {A : Type 0} → M A
fail s = panic

-- `msg.MsgBody.(protocol_stack.MQTTPacketPublishData)`
abbrev pub as_publish : Body → M MqttPacketPublishData
as_publish (publish_data p) = pure p
as_publish _ = fail

-- The messages to the cluster's routine have no sender.
abbrev pub cluster_msg : ℕ → Body → RoutingCommunicateMsg
cluster_msg msg_type body = record { msg_type = msg_type; msg_from = []; msg_body = body }

-- MSG_CLIENT_ADD
unfoldable pub client_add : Body → M (Unit {0})
client_add (client a) = do
  c ← load a
  (λ s. ok (tt, record s { clients = insert c.client_id a s.clients }))
  emit (to_cluster (cluster_msg cluster_login_msg (text c.client_id)))
client_add _ = pure tt

-- MSG_CLIENT_DEL
unfoldable pub client_del : Body → M (Unit {0})
client_del (text id) s = ok (tt, record s { clients = delete id s.clients })
client_del _ s = ok (tt, s)

-- MSG_CLIENT_SUB, for a client that is in the map
unfoldable pub sub_of : ℕ → MqttPacketSubscribeData → M (Unit {0})
sub_of a sub = do
  c ← load a
  info ← lift (mqtt_get_sub_info sub c.sub_info)
  store a (record c { sub_info = info })

unfoldable pub unsub_of : ℕ → MqttPacketUnSubscribeData → M (Unit {0})
unsub_of a unsub = do
  c ← load a
  store a (record c { sub_info = mqtt_remove_un_sub_topic unsub c.sub_info })

-- MSG_CLIENT_SUB
unfoldable pub client_sub : Bytes → Body → M (Unit {0})
client_sub from (subscribe_data sub) = do
  self ← find_client from
  if_found self (pure tt) (λ a. sub_of a sub)
client_sub from _ = fail

-- MSG_CLIENT_UNSUB
unfoldable pub client_unsub : Bytes → Body → M (Unit {0})
client_unsub from (unsubscribe_data unsub) = do
  self ← find_client from
  if_found self (pure tt) (λ a. unsub_of a unsub)
client_unsub from _ = fail

-- `status, ok := self.PubStatus[id]; ok && status == expected`
abbrev pub equals : Option ℕ → ℕ → Bool
equals none expected = false
equals (some st) expected = st == expected

unfoldable pub status_is : ℕ → ℕ → MqttClientInfo → Bool
status_is expected id c = equals (lookup id c.pub_status) expected

-- MSG_CLIENT_PUBACK, for a client that is in the map
unfoldable pub puback_of : ℕ → MqttPacketPublishData → M (Unit {0})
puback_of a p = do
  c ← load a
  if status_is puback p.packet_id c
      then store a (record c { pub_status = delete p.packet_id c.pub_status })
      else pure tt

unfoldable pub client_puback : Bytes → Body → M (Unit {0})
client_puback from body = do
  p ← as_publish body
  self ← find_client from
  if_found self (pure tt) (λ a. puback_of a p)

-- MSG_CLIENT_PUBREC, for a client that is in the map
unfoldable pub pubrec_of : ℕ → MqttPacketPublishData → M (Unit {0})
pubrec_of a p = do
  c ← load a
  if status_is pubrec p.packet_id c
      then (do
        (n, write_buf_ack) ← lift (mqtt_seserialize_pubrel p [])
        store a (record c { pub_status = insert p.packet_id pubcomp c.pub_status })
        emit (write c.conn write_buf_ack))
      else pure tt

unfoldable pub client_pubrec : Bytes → Body → M (Unit {0})
client_pubrec from body = do
  p ← as_publish body
  self ← find_client from
  if_found self (pure tt) (λ a. pubrec_of a p)

-- MSG_CLIENT_PUBCOMP, for a client that is in the map
unfoldable pub pubcomp_of : ℕ → MqttPacketPublishData → M (Unit {0})
pubcomp_of a p = do
  c ← load a
  if status_is pubcomp p.packet_id c
      then store a (record c {
        pub_status = delete p.packet_id (insert p.packet_id none_type c.pub_status);
        cache_msg = delete p.packet_id c.cache_msg;
      })
      else pure tt

-- MSG_CLIENT_PUBCOMP: a client that is not in the map is a nil pointer here.
unfoldable pub client_pubcomp : Bytes → Body → M (Unit {0})
client_pubcomp from body = do
  p ← as_publish body
  self ← find_client from
  if_found self fail (λ a. pubcomp_of a p)

module _ (rand : ℕ → ℕ) (fuel : ℕ) where
  -- MSG_CLIENT_PUBLISH: a message of quality 2 is kept until it is released.
  unfoldable pub keep_publish : ℕ → MqttPacketPublishData → M (Unit {0})
  keep_publish a p =
      if p.qos == 2
      then (do
        c ← load a
        store a (record c {
          pub_status = insert p.packet_id pubrel c.pub_status;
          cache_msg = insert p.packet_id p c.cache_msg;
        }))
      else pure tt

  unfoldable pub publish_of : List ℕ → ℕ → MqttPacketPublishData → M (Unit {0})
  publish_of visit a p = do
    keep_publish a p
    st ← for_clients (publish_to_client rand fuel) visit (p, [])
    pure tt

  unfoldable pub client_publish : List ℕ → Bytes → Body → M (Unit {0})
  client_publish visit from body = do
    p ← as_publish body
    self ← find_client from
    if_found self (pure tt) (λ a. publish_of visit a p)

  -- The kept message goes to the subscribers and to the other nodes.
  unfoldable pub release_kept : List ℕ → Option MqttPacketPublishData → M (Unit {0})
  release_kept visit none = pure tt
  release_kept visit (some kept) = do
    kept ← for_clients (release_to_client rand fuel) visit kept
    emit (to_cluster (cluster_msg cluster_public_msg (publish_data kept)))

  -- MSG_CLIENT_PUBREL, for a client that is in the map
  unfoldable pub pubrel_of : List ℕ → ℕ → MqttPacketPublishData → M (Unit {0})
  pubrel_of visit a p = do
    c ← load a
    if status_is pubrel p.packet_id c
        then (do
          (n, write_buf) ← lift (mqtt_seserialize_pubcomp p [])
          store a (record c { pub_status = delete p.packet_id c.pub_status })
          emit (write c.conn write_buf)
          release_kept visit (lookup p.packet_id c.cache_msg))
        else pure tt

  unfoldable pub client_pubrel : List ℕ → Bytes → Body → M (Unit {0})
  client_pubrel visit from body = do
    p ← as_publish body
    self ← find_client from
    if_found self (pure tt) (λ a. pubrel_of visit a p)
