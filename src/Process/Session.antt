-- ===== src/Process/Session.antt =====
-- `ClientProcess` of process/client_process.go: the routine of one connection, and the methods that
-- it calls.
pub mod Crashes
pub mod Login
pub mod Takeover
pub mod Late
pub mod Moves
mod Tests
use mqtt_server_go.Prelude.{
  ℕ, ℤ, pos, negsuc, List, [], ◌∷◌, ◌++◌, Bytes, length, Outcome, ok, bytes_eq, ltb, ◌==◌,
  if◌then◌else◌, Option, none, some, or_panic,
}
use mqtt_server_go.ProtocolStack.PacketType.{
  connect, publish, puback, pubrec, pubrel, pubcomp, subscribe, unsubscribe, pingreq, disconnect,
}
use mqtt_server_go.ProtocolStack.Packet.{mqtt_packet_parse_fix_header}
use mqtt_server_go.ProtocolStack.Connect.{
  MqttPacketConnectData, zero_connect, mqtt_deserialize_connect, mqtt_seserialize_connack,
}
use mqtt_server_go.ProtocolStack.Ping.{mqtt_deserialize_ping, mqtt_seserialize_pong}
use mqtt_server_go.ProtocolStack.Publish.{
  MqttPacketPublishData, zero_publish, mqtt_deserialize_publish, mqtt_deserialize_puback,
  mqtt_deserialize_pubrec, mqtt_deserialize_pubrel, mqtt_deserialize_pubcomp,
  mqtt_seserialize_puback, mqtt_seserialize_pubrec,
}
use mqtt_server_go.ProtocolStack.Subscribe.{
  zero_subscribe, mqtt_deserialize_subscribe, mqtt_seserialize_suback,
}
use mqtt_server_go.ProtocolStack.Unsubscribe.{
  zero_unsubscribe, mqtt_deserialize_unsubscribe, mqtt_seserialize_unsuback,
}
use mqtt_server_go.Cluster.Message.{
  Body, client, text, subscribe_data, unsubscribe_data, publish_data, cluster_public_msg,
  msg_client_add, msg_client_del, msg_client_sub, msg_client_unsub, msg_client_publish,
  msg_client_puback, msg_client_pubrec, msg_client_pubrel, msg_client_pubcomp,
}
use mqtt_server_go.Process.Server.{
  MqttClientInfo, M, ◌>>=◌, ◌>>◌, pure, lift, load, store, emit, write, close, to_dispatch,
  to_cluster, find_client, if_found,
}
use mqtt_server_go.Process.Methods.{
  tell, process_subscribe, process_unsubscribe, publish_ack, process_publish, process_ack,
}
use mqtt_server_go.Process.Dispatch.{send_offline}

-- `new(MqttClientInfo)` with its four containers. The connection is set before it is used.
abbrev pub new_client : MqttClientInfo
new_client = record {
  client_id = [];
  username = [];
  password = [];
  pingperiod = 0;
  clear_session = 0;
  login_success = 0;
  conn = 0;
  heart_timeout = 0;
  sub_info = [];
  pub_status = [];
  offline_msg = [];
  cache_msg = [];
}

unfoldable pub allocate : M ℕ
allocate s = ok (length s.heap, record s { heap = s.heap ++ new_client ∷ [] })

-- The record of a client that logged in before, or a new one.
unfoldable pub session_of : Bytes → M ℕ
session_of id = do found ← find_client id; if_found found allocate pure

-- What a login writes into the record.
abbrev pub logged_in : ℕ → MqttPacketConnectData → MqttClientInfo → MqttClientInfo
logged_in conn d c = record c {
  client_id = d.client_id;
  username = d.username;
  password = d.password;
  pingperiod = d.keep_alive_interval;
  clear_session = d.cleansession;
  login_success = 1;
  conn = conn;
  heart_timeout = d.keep_alive_interval;
}

-- A login that is accepted; `write_buf` is its CONNACK.
unfoldable pub login : ℕ → MqttPacketConnectData → Bytes → M (Option ℕ)
login conn d write_buf = do
  a ← session_of d.client_id
  c ← load a
  store a (logged_in conn d c)
  emit (write conn write_buf)
  send_offline conn a c.offline_msg
  c ← load a
  store a (record c { offline_msg = [] })
  tell msg_client_add [] (client a)
  pure (some a)

-- The case for CONNECT.
unfoldable pub process_connect : ℕ → Option ℕ → Bytes → ℕ → M (Option ℕ)
process_connect conn self read_buf num = do
  (ret, d) ← lift (mqtt_deserialize_connect zero_connect read_buf num)
  (n, ret_code, write_buf) ← lift (mqtt_seserialize_connack d [])
  if ret_code == 0
      then login conn d write_buf
      else (do emit (write conn write_buf); emit (close conn); pure self)

-- The case for PINGREQ.
unfoldable pub process_ping : ℕ → Option ℕ → Bytes → M (Unit {0})
process_ping conn self read_buf = do
  a ← lift (or_panic self)
  c ← load a
  store a (record c { heart_timeout = c.pingperiod })
  ret ← lift (mqtt_deserialize_ping read_buf)
  (n, write_buf) ← lift (mqtt_seserialize_pong [])
  emit (write conn write_buf)

-- A method of the record, which panics on a nil pointer.
abbrev pub on_self : Option ℕ → (ℕ → M (Unit {0})) → M (Unit {0})
on_self self method = do a ← lift (or_panic self); method a

-- The switch behind CONNECT. `self` is `mqttClientData`, nil before a login.
unfoldable pub process_packet : ℕ → ℕ → Option ℕ → Bytes → ℕ → M (Unit {0})
process_packet msg_type conn self read_buf num =
    if msg_type == disconnect
    then on_self self (λ a. emit (close conn))
    else if msg_type == subscribe
    then on_self self (λ a. process_subscribe a read_buf num)
    else if msg_type == unsubscribe
    then on_self self (λ a. process_unsubscribe a read_buf num)
    else if msg_type == publish
    then on_self self (λ a. process_publish a read_buf num)
    else if msg_type == puback
    then process_ack mqtt_deserialize_puback msg_client_puback self read_buf num
    else if msg_type == pubrec
    then process_ack mqtt_deserialize_pubrec msg_client_pubrec self read_buf num
    else if msg_type == pubrel
    then process_ack mqtt_deserialize_pubrel msg_client_pubrel self read_buf num
    else if msg_type == pubcomp
    then process_ack mqtt_deserialize_pubcomp msg_client_pubcomp self read_buf num
    else if msg_type == pingreq
    then process_ping conn self read_buf
    else pure tt

unfoldable pub process_type : ℤ → ℕ → Option ℕ → Bytes → ℕ → M (Option ℕ)
process_type (negsuc n) conn self read_buf num = pure self
process_type (pos msg_type) conn self read_buf num =
    if msg_type == connect
    then process_connect conn self read_buf num
    else (do process_packet msg_type conn self read_buf num; pure self)

-- One round of the loop, for `num` bytes that were read into the buffer.
unfoldable pub process_read : ℕ → Option ℕ → Bytes → ℕ → M (Option ℕ)
process_read conn self read_buf num = do
  (msg_type, length) ← lift (mqtt_packet_parse_fix_header read_buf)
  process_type msg_type conn self read_buf num

-- The deferred function, which runs when a read fails.
unfoldable pub client_exit : ℕ → Option ℕ → M (Unit {0})
client_exit conn self = do
  a ← lift (or_panic self)
  c ← load a
  (if c.clear_session == 1
      then tell msg_client_del [] (text c.client_id)
      else store a (record c { login_success = 0 }))
  emit (close conn)

-- What a read of the connection gives: an error, or the buffer and the number of bytes in it.
pub data Read : Type 0 where
  failed : Read
  got : Bytes → ℕ → Read

-- The loop over the reads of a connection; it waits where they end.
unfoldable pub client_process : ℕ → Option ℕ → List Read → M (Unit {0})
client_process conn self [] = pure tt
client_process conn self (failed ∷ reads) = client_exit conn self
client_process conn self (got read_buf num ∷ reads) = do
  self ← process_read conn self read_buf num
  client_process conn self reads
