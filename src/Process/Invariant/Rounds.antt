-- ===== src/Process/Invariant/Rounds.antt =====
-- The packets that are handled on a client's record, and a whole round of a connection's routine,
-- keep the invariant.
use mqtt_server_go.Prelude.{
  ℕ, ℤ, pos, negsuc, [], Bytes, Option, Outcome, length, or_panic, ◌==◌, ltb, if◌then◌else◌,
}
use mqtt_server_go.ProtocolStack.PacketType.{
  connect, publish, puback, pubrec, pubrel, pubcomp, subscribe, unsubscribe, pingreq, disconnect,
}
use mqtt_server_go.ProtocolStack.Packet.{mqtt_packet_parse_fix_header}
use mqtt_server_go.ProtocolStack.Publish.{
  MqttPacketPublishData, zero_publish, mqtt_deserialize_publish, mqtt_deserialize_puback,
  mqtt_deserialize_pubrec, mqtt_deserialize_pubrel, mqtt_deserialize_pubcomp,
}
use mqtt_server_go.ProtocolStack.Subscribe.{
  zero_subscribe, mqtt_deserialize_subscribe, mqtt_seserialize_suback,
}
use mqtt_server_go.ProtocolStack.Unsubscribe.{
  zero_unsubscribe, mqtt_deserialize_unsubscribe, mqtt_seserialize_unsuback,
}
use mqtt_server_go.Cluster.Message.{
  publish_data, subscribe_data, unsubscribe_data, cluster_public_msg, msg_client_publish,
  msg_client_sub, msg_client_unsub, msg_client_puback, msg_client_pubrec, msg_client_pubrel,
  msg_client_pubcomp, Body,
}
use mqtt_server_go.Process.Server.{M, write, close, to_cluster}
use mqtt_server_go.Process.Handlers.{cluster_msg}
use mqtt_server_go.Process.Methods.{
  tell, process_subscribe, process_unsubscribe, publish_ack, process_publish, process_ack,
}
use mqtt_server_go.Process.Session.{on_self, process_packet, process_type, process_read}
use mqtt_server_go.Process.Heaps.{
  Pred, Keeps, Triple-bind, Triple-if, Keeps-pure, Keeps-lift, Keeps-emit, Keeps-load,
}
use mqtt_server_go.Process.Invariant.{Valid}
use mqtt_server_go.Process.Invariant.Session.{process_connect-Valid, process_ping-Valid}

module _ {P : Pred} where
  Keeps-tell : (n : ℕ) (from : Bytes) (body : Body) → Keeps P (tell n from body)
  Keeps-tell n from body = Keeps-emit _

  -- These methods write no record.
  Keeps-process_subscribe :
      (a : ℕ) (read_buf : Bytes) (num : ℕ) → Keeps P (process_subscribe a read_buf num)
  unfolding process_subscribe
  Keeps-process_subscribe a read_buf num = Triple-bind _ _ (Keeps-load a) λ c.
      Triple-if (c.login_success == 1) _ _
        (λ _.
          Triple-bind _ _ (Keeps-lift (mqtt_deserialize_subscribe zero_subscribe read_buf num)) λ r.
            Triple-bind _ _ (Keeps-tell msg_client_sub c.client_id (subscribe_data r.1)) λ _.
              Triple-bind _ _ (Keeps-lift (mqtt_seserialize_suback r.1 [] r.0))
                λ w. Keeps-emit (write c.conn w.1))
        (λ _. Keeps-pure tt)

  Keeps-process_unsubscribe :
      (a : ℕ) (read_buf : Bytes) (num : ℕ) → Keeps P (process_unsubscribe a read_buf num)
  unfolding process_unsubscribe
  Keeps-process_unsubscribe a read_buf num = Triple-bind _ _ (Keeps-load a) λ c.
      Triple-if (c.login_success == 1) _ _
        (λ _.
          Triple-bind _ _ (Keeps-lift (mqtt_deserialize_unsubscribe zero_unsubscribe read_buf num))
            λ r.
              Triple-bind _ _ (Keeps-tell msg_client_unsub c.client_id (unsubscribe_data r.1)) λ _.
                Triple-bind _ _ (Keeps-lift (mqtt_seserialize_unsuback r.1 []))
                  λ w. Keeps-emit (write c.conn w.1))
        (λ _. Keeps-pure tt)

  Keeps-process_publish :
      (a : ℕ) (read_buf : Bytes) (num : ℕ) → Keeps P (process_publish a read_buf num)
  unfolding process_publish
  Keeps-process_publish a read_buf num = Triple-bind _ _ (Keeps-load a) λ c.
      Triple-if (c.login_success == 1) _ _
        (λ _. Triple-bind _ _ (Keeps-lift (mqtt_deserialize_publish zero_publish read_buf num)) λ r.
          Triple-bind _ _ (Keeps-lift (publish_ack r.1)) λ w.
            Triple-bind _ _ (Keeps-tell msg_client_publish c.client_id (publish_data r.1)) λ _.
              Triple-bind _ _
                (Triple-if (ltb 0 (length w.1)) _ _ (λ _. Keeps-emit (write c.conn w.1))
                  (λ _. Keeps-pure tt))
                λ _.
                  Triple-if (ltb r.1.qos 2) _ _
                    (λ _.
                      Keeps-emit (to_cluster (cluster_msg cluster_public_msg (publish_data r.1))))
                    (λ _. Keeps-pure tt))
        (λ _. Keeps-pure tt)

  Keeps-process_ack :
      (read : MqttPacketPublishData → Bytes → ℕ → Outcome (ℤ × MqttPacketPublishData)) (n : ℕ)
      (self : Option ℕ) (read_buf : Bytes) (num : ℕ)
      → Keeps P (process_ack read n self read_buf num)
  unfolding process_ack
  Keeps-process_ack read n self read_buf num =
      Triple-bind _ _ (Keeps-lift (read zero_publish read_buf num)) λ r.
        Triple-bind _ _ (Keeps-lift (or_panic self))
          λ a. Triple-bind _ _ (Keeps-load a) λ c. Keeps-tell n c.client_id (publish_data r.1)

  Keeps-on_self :
      (self : Option ℕ) (method : ℕ → M (Unit {0}))
      → ((a : ℕ) → Keeps P (method a))
      → Keeps P (on_self self method)
  Keeps-on_self self method k = Triple-bind _ _ (Keeps-lift (or_panic self)) k

-- A case of the switch on the packet's type
on_packet :
    (n k : ℕ) (m rest : M (Unit {0}))
    → Keeps Valid m
    → Keeps Valid rest
    → Keeps Valid (if n == k then m else rest)
on_packet n k m rest hm hr = Triple-if (n == k) m rest (λ _. hm) (λ _. hr)

process_packet-Valid :
    (n conn : ℕ) (self : Option ℕ) (read_buf : Bytes) (num : ℕ)
    → Keeps Valid (process_packet n conn self read_buf num)
unfolding process_packet
process_packet-Valid n conn self read_buf num =
    on_packet n disconnect _ _ (Keeps-on_self self _ (λ a. Keeps-emit (close conn))) (
      on_packet n subscribe _ _ (Keeps-on_self self _ (λ a. Keeps-process_subscribe a read_buf num))
        (on_packet n unsubscribe _ _
          (Keeps-on_self self _ (λ a. Keeps-process_unsubscribe a read_buf num))
          (on_packet n publish _ _
            (Keeps-on_self self _ (λ a. Keeps-process_publish a read_buf num))
            (on_packet n puback _ _
              (Keeps-process_ack mqtt_deserialize_puback msg_client_puback self read_buf num)
              (on_packet n pubrec _ _
                (Keeps-process_ack mqtt_deserialize_pubrec msg_client_pubrec self read_buf num)
                (on_packet n pubrel _ _
                  (Keeps-process_ack mqtt_deserialize_pubrel msg_client_pubrel self read_buf num)
                  (on_packet n pubcomp _ _
                    (Keeps-process_ack mqtt_deserialize_pubcomp msg_client_pubcomp self read_buf
                      num)
                    (on_packet n pingreq _ _ (process_ping-Valid conn self read_buf)
                      (Keeps-pure tt)))))))))

process_type-Valid :
    (n : ℤ) (conn : ℕ) (self : Option ℕ) (read_buf : Bytes) (num : ℕ)
    → Keeps Valid (process_type n conn self read_buf num)
unfolding process_type
process_type-Valid (negsuc n) conn self read_buf num = Keeps-pure self
process_type-Valid (pos n) conn self read_buf num =
    Triple-if (n == connect) _ _ (λ _. process_connect-Valid conn self read_buf num)
      (λ _. Triple-bind _ _ (process_packet-Valid n conn self read_buf num) λ _. Keeps-pure self)

pub process_read-Valid :
    (conn : ℕ) (self : Option ℕ) (read_buf : Bytes) (num : ℕ)
    → Keeps Valid (process_read conn self read_buf num)
unfolding process_read
process_read-Valid conn self read_buf num =
    Triple-bind _ _ (Keeps-lift (mqtt_packet_parse_fix_header read_buf))
      λ r. process_type-Valid r.0 conn self read_buf num
