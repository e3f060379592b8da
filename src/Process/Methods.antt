-- ===== src/Process/Methods.antt =====
-- The methods of `MqttClientInfo` in process/client_process.go that handle a packet of a client.
pub mod Publishing
use mqtt_server_go.Prelude.{
  ℕ, ℤ, [], Bytes, length, Outcome, ok, bytes_eq, ltb, ◌==◌, if◌then◌else◌, Option, or_panic,
}
use mqtt_server_go.ProtocolStack.Publish.{
  MqttPacketPublishData, zero_publish, mqtt_deserialize_publish, mqtt_seserialize_puback,
  mqtt_seserialize_pubrec,
}
use mqtt_server_go.ProtocolStack.Subscribe.{
  zero_subscribe, mqtt_deserialize_subscribe, mqtt_seserialize_suback,
}
use mqtt_server_go.ProtocolStack.Unsubscribe.{
  zero_unsubscribe, mqtt_deserialize_unsubscribe, mqtt_seserialize_unsuback,
}
use mqtt_server_go.Cluster.Message.{
  Body, subscribe_data, unsubscribe_data, publish_data, cluster_public_msg, msg_client_sub,
  msg_client_unsub, msg_client_publish,
}
use mqtt_server_go.Process.Server.{
  M, ◌>>=◌, ◌>>◌, pure, lift, load, emit, write, to_dispatch, to_cluster,
}
use mqtt_server_go.Process.Handlers.{cluster_msg}

-- `dispatchCh <- msg`
abbrev pub tell : ℕ → Bytes → Body → M (Unit {0})
tell msg_type from body =
    emit (to_dispatch (record { msg_type = msg_type; msg_from = from; msg_body = body }))

unfoldable pub process_subscribe : ℕ → Bytes → ℕ → M (Unit {0})
process_subscribe a read_buf num = do
  c ← load a
  if c.login_success == 1
      then (do
        (topic_num, sub) ← lift (mqtt_deserialize_subscribe zero_subscribe read_buf num)
        tell msg_client_sub c.client_id (subscribe_data sub)
        (n, write_buf) ← lift (mqtt_seserialize_suback sub [] topic_num)
        emit (write c.conn write_buf))
      else pure tt

unfoldable pub process_unsubscribe : ℕ → Bytes → ℕ → M (Unit {0})
process_unsubscribe a read_buf num = do
  c ← load a
  if c.login_success == 1
      then (do
        (topic_num, unsub) ← lift (mqtt_deserialize_unsubscribe zero_unsubscribe read_buf num)
        tell msg_client_unsub c.client_id (unsubscribe_data unsub)
        (n, write_buf) ← lift (mqtt_seserialize_unsuback unsub [])
        emit (write c.conn write_buf))
      else pure tt

-- The acknowledgement that a publisher gets at once.
unfoldable pub publish_ack : MqttPacketPublishData → Outcome (ℕ × Bytes)
publish_ack p =
    if p.qos == 1
    then mqtt_seserialize_puback p []
    else if p.qos == 2
    then mqtt_seserialize_pubrec p []
    else ok (0, [])

unfoldable pub process_publish : ℕ → Bytes → ℕ → M (Unit {0})
process_publish a read_buf num = do
  c ← load a
  if c.login_success == 1
      then (do
        (ret, p) ← lift (mqtt_deserialize_publish zero_publish read_buf num)
        (n, write_buf_ack) ← lift (publish_ack p)
        tell msg_client_publish c.client_id (publish_data p)
        (if ltb 0 (length write_buf_ack) then emit (write c.conn write_buf_ack) else pure tt)
        if ltb p.qos 2
            then emit (to_cluster (cluster_msg cluster_public_msg (publish_data p)))
            else pure tt)
      else pure tt

-- `ProcessPublishAck` and its siblings differ in the reader and the message's type.
unfoldable pub process_ack :
    (MqttPacketPublishData → Bytes → ℕ → Outcome (ℤ × MqttPacketPublishData))
    → ℕ
    → Option ℕ
    → Bytes
    → ℕ
    → M (Unit {0})
process_ack read msg_type self read_buf num = do
  (ret, p) ← lift (read zero_publish read_buf num)
  a ← lift (or_panic self)
  c ← load a
  tell msg_type c.client_id (publish_data p)
