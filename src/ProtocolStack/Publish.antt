-- ===== src/ProtocolStack/Publish.antt =====
-- protocol_stack/mqtt_protocol_publish.go: PUBLISH and its acknowledgements.
pub mod Header
pub mod Acks
pub mod RoundTrip
pub mod Layout
use mqtt_server_go.Prelude.{
  ℕ, ℤ, pos, minus_one, ◌+◌, [], ◌∷◌, ◌++◌, bit_and, bit_or, Bytes, length, Outcome, ok, ◌>>=◌,
  index_at, slice, ltb, ◌==◌, if◌then◌else◌, shl8, shr,
}
use mqtt_server_go.ProtocolStack.PacketType.{publish, puback, pubrec, pubrel, pubcomp}
use mqtt_server_go.ProtocolStack.Packet.{
  mqtt_packet_decode, append_length, mqtt_packet_read_string, packet_type, read_word, word_bytes,
}

pub record MqttPacketPublishData : Type 0 where
  pub dup : ℕ
  pub packet_id : ℕ
  pub retained : ℕ
  pub topic : Bytes
  pub qos : ℕ
  pub payload : Bytes

-- `var publishData MQTTPacketPublishData`
abbrev pub zero_publish : MqttPacketPublishData
zero_publish = record { dup = 0; packet_id = 0; retained = 0; topic = []; qos = 0; payload = [] }

-- The packet id stands in the packet only if the quality of service is above 0.
unfoldable pub read_packet_id : ℕ → ℕ → Bytes → ℕ → Outcome (ℕ × ℕ)
read_packet_id qos old buf index =
    if ltb 0 qos then (do id ← read_word buf index; ok (index + 2, id)) else ok (index, old)

unfoldable pub deserialize_publish_fields :
    MqttPacketPublishData → ℕ → Bytes → ℕ → Outcome (ℤ × MqttPacketPublishData)
deserialize_publish_fields p header buf len = do
  let qos = shr (bit_and header 0x06) 1
  left ← slice buf 1 len
  (n, remain_len) ← mqtt_packet_decode left 0
  let index = 1 + n
  left ← slice buf index len
  (m, topic) ← mqtt_packet_read_string left
  (index, packet_id) ← read_packet_id qos p.packet_id buf (index + m)
  payload ← slice buf index len
  ok (
    pos 0,
    record {
      dup = shr (bit_and header 0x08) 3;
      packet_id = packet_id;
      retained = bit_and header 0x01;
      topic = topic;
      qos = qos;
      payload = payload;
    },
  )

unfoldable pub mqtt_deserialize_publish :
    MqttPacketPublishData → Bytes → ℕ → Outcome (ℤ × MqttPacketPublishData)
mqtt_deserialize_publish p buf len = do
  header ← index_at buf 0
  if packet_type header == publish
      then deserialize_publish_fields p header buf len
      else ok (minus_one, p)

-- `header |= Qos << 1`, `header |= Dup << 3`, `header |= Retained`
unfoldable pub publish_header : MqttPacketPublishData → ℕ
publish_header p =
    bit_or (bit_or (bit_or (shl8 publish 4) (shl8 p.qos 1)) (shl8 p.dup 3)) p.retained

-- `MQTTSeserialize_publish`: the number of bytes, and the bytes behind `out`.
unfoldable pub mqtt_seserialize_publish : MqttPacketPublishData → Bytes → Outcome (ℕ × Bytes)
mqtt_seserialize_publish p out = do
  let remain_len = 2 + length p.topic + length p.payload
  let remain_len = if ltb 0 p.qos then remain_len + 2 else remain_len
  (tmp, out) ← append_length (out ++ publish_header p ∷ []) remain_len
  let index = 1 + tmp + 2 + length p.topic
  let out = (out ++ word_bytes (length p.topic)) ++ p.topic
  let index = if ltb 0 p.qos then index + 2 else index
  let out = if ltb 0 p.qos then out ++ word_bytes p.packet_id else out
  ok (index + length p.payload, out ++ p.payload)

-- `MQTTDeserialize_ack`: the returned index or -1, and `*packetId`.
unfoldable pub mqtt_deserialize_ack : Bytes → ℕ → ℕ → ℕ → Outcome (ℤ × ℕ)
mqtt_deserialize_ack buf len msg_type packet_id = do
  header ← index_at buf 0
  let read = (do
    left ← slice buf 1 len
    (n, remain_len) ← mqtt_packet_decode left 0
    id ← read_word buf (1 + n)
    ok (pos (1 + n + 2), id))
  if packet_type header == msg_type then read else ok (minus_one, packet_id)

-- `MQTTDeserialize_puback` and its three siblings differ in the type that they pass on.
unfoldable pub deserialize_ack_as :
    ℕ → MqttPacketPublishData → Bytes → ℕ → Outcome (ℤ × MqttPacketPublishData)
deserialize_ack_as msg_type p buf len = do
  (ret, id) ← mqtt_deserialize_ack buf len msg_type p.packet_id
  ok (ret, record p { packet_id = id })

unfoldable pub mqtt_deserialize_puback :
    MqttPacketPublishData → Bytes → ℕ → Outcome (ℤ × MqttPacketPublishData)
mqtt_deserialize_puback = deserialize_ack_as puback

unfoldable pub mqtt_deserialize_pubrec :
    MqttPacketPublishData → Bytes → ℕ → Outcome (ℤ × MqttPacketPublishData)
mqtt_deserialize_pubrec = deserialize_ack_as pubrec

unfoldable pub mqtt_deserialize_pubrel :
    MqttPacketPublishData → Bytes → ℕ → Outcome (ℤ × MqttPacketPublishData)
mqtt_deserialize_pubrel = deserialize_ack_as pubrel

unfoldable pub mqtt_deserialize_pubcomp :
    MqttPacketPublishData → Bytes → ℕ → Outcome (ℤ × MqttPacketPublishData)
mqtt_deserialize_pubcomp = deserialize_ack_as pubcomp

-- The header of an acknowledgement; PUBREL sets bit 1.
unfoldable pub ack_header : ℕ → MqttPacketPublishData → ℕ
ack_header msg_type p =
    let header = bit_or (shl8 msg_type 4) (if msg_type == pubrel then shl8 1 1 else shl8 0 1) in
    bit_or (bit_or header (shl8 p.dup 3)) p.retained

unfoldable pub mqtt_seserialize_ack : Bytes → ℕ → MqttPacketPublishData → Outcome (ℕ × Bytes)
mqtt_seserialize_ack out msg_type p = do
  (tmp, out) ← append_length (out ++ ack_header msg_type p ∷ []) 2
  ok (1 + tmp + 2, out ++ word_bytes p.packet_id)

unfoldable pub mqtt_seserialize_puback : MqttPacketPublishData → Bytes → Outcome (ℕ × Bytes)
mqtt_seserialize_puback p out = mqtt_seserialize_ack out puback p

unfoldable pub mqtt_seserialize_pubrec : MqttPacketPublishData → Bytes → Outcome (ℕ × Bytes)
mqtt_seserialize_pubrec p out = mqtt_seserialize_ack out pubrec p

unfoldable pub mqtt_seserialize_pubrel : MqttPacketPublishData → Bytes → Outcome (ℕ × Bytes)
mqtt_seserialize_pubrel p out = mqtt_seserialize_ack out pubrel p

unfoldable pub mqtt_seserialize_pubcomp : MqttPacketPublishData → Bytes → Outcome (ℕ × Bytes)
mqtt_seserialize_pubcomp p out = mqtt_seserialize_ack out pubcomp p
