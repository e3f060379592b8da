-- ===== src/Cluster/Message.antt =====
-- The message types and records at the top of cluster/cluster_server.go, and the message numbers of
-- process/clients_MsgDispatch_Center.go.
use mqtt_server_go.Prelude.{ℕ, List, Bytes, Map}
use mqtt_server_go.ProtocolStack.Publish.{MqttPacketPublishData}
use mqtt_server_go.ProtocolStack.Subscribe.{MqttPacketSubscribeData}
use mqtt_server_go.ProtocolStack.Unsubscribe.{MqttPacketUnSubscribeData}

abbrev pub max_udp_data_len : ℕ
max_udp_data_len = 1024

abbrev pub cluster_heart_msg : ℕ
cluster_heart_msg = 1

abbrev pub cluster_public_msg : ℕ
cluster_public_msg = 2

abbrev pub cluster_login_msg : ℕ
cluster_login_msg = 3

abbrev pub cluster_client_info_msg : ℕ
cluster_client_info_msg = 4

abbrev pub cluster_msg_publish_dispatch : ℕ
cluster_msg_publish_dispatch = 100

abbrev pub cluster_msg_login_notify : ℕ
cluster_msg_login_notify = 101

abbrev pub cluster_msg_login_info_notify : ℕ
cluster_msg_login_info_notify = 102

abbrev pub msg_client_add : ℕ
msg_client_add = 0

abbrev pub msg_client_del : ℕ
msg_client_del = 1

abbrev pub msg_client_sub : ℕ
msg_client_sub = 2

abbrev pub msg_client_unsub : ℕ
msg_client_unsub = 3

abbrev pub msg_client_publish : ℕ
msg_client_publish = 4

abbrev pub msg_client_puback : ℕ
msg_client_puback = 5

abbrev pub msg_client_pubrec : ℕ
msg_client_pubrec = 6

abbrev pub msg_client_pubrel : ℕ
msg_client_pubrel = 7

abbrev pub msg_client_pubcomp : ℕ
msg_client_pubcomp = 8

pub record ClusterClientInfo : Type 0 where
  pub client_id : Bytes
  pub subinfo : Map Bytes ℕ
  pub offline_msg : List MqttPacketPublishData

-- `net.UDPAddr`, as the code uses it: `IP.To4().String()`, `Port`, and `String()`.
pub record UdpAddr : Type 0 where
  pub ip : Bytes
  pub port : ℕ
  pub name : Bytes

-- `MsgBody interface{}`: the types that the program puts into it. `client` is a pointer to a
-- client's record, by its address.
pub data Body : Type 0 where
  client : ℕ → Body
  text : Bytes → Body
  subscribe_data : MqttPacketSubscribeData → Body
  unsubscribe_data : MqttPacketUnSubscribeData → Body
  publish_data : MqttPacketPublishData → Body
  client_info : ClusterClientInfo → Body
  udp_addr : UdpAddr → Body

pub record RoutingCommunicateMsg : Type 0 where
  pub msg_type : ℕ
  pub msg_from : Bytes
  pub msg_body : Body
