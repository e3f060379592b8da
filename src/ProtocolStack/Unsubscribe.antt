-- ===== src/ProtocolStack/Unsubscribe.antt =====
-- protocol_stack/mqtt_protocol_unsubscribe.go: UNSUBSCRIBE and UNSUBACK.
pub mod RoundTrip
pub mod Endings
use mqtt_server_go.Prelude.{
  ℕ, zero, suc, ℤ, pos, minus_one, ◌+◌, List, [], ◌∷◌, ◌++◌, bit_and, Bytes, Outcome, ok, stuck,
  ◌>>=◌, index_at, slice, leb, ◌==◌, if◌then◌else◌, shl8, Option, none, some, Map, bytes_eq, lookup,
  delete,
}
use mqtt_server_go.ProtocolStack.PacketType.{unsubscribe, unsuback}
use mqtt_server_go.ProtocolStack.Packet.{
  mqtt_packet_decode, append_length, mqtt_packet_read_string, packet_type, read_word, word_bytes,
}

pub record MqttPacketUnSubscribeData : Type 0 where
  pub topic : List Bytes
  pub packet_id : ℕ

-- `var unSubscribeData MQTTPacketUnSubscribeData`
abbrev pub zero_unsubscribe : MqttPacketUnSubscribeData
zero_unsubscribe = record { topic = []; packet_id = 0 }

unfoldable pub unsubscribe_loop :
    ℕ → Bytes → ℕ → ℕ → ℕ → MqttPacketUnSubscribeData → Outcome (ℤ × MqttPacketUnSubscribeData)
unsubscribe_loop zero buf len index topic_num u = stuck
unsubscribe_loop (suc fuel) buf len index topic_num u =
    let more = (do
      left ← slice buf index len
      (n, topic) ← mqtt_packet_read_string left
      unsubscribe_loop fuel buf len (index + n) (topic_num + 1)
          (record u { topic = u.topic ++ topic ∷ [] })) in
    if leb len index then ok (pos topic_num, u) else more

unfoldable pub mqtt_deserialize_unsubscribe :
    MqttPacketUnSubscribeData → Bytes → ℕ → Outcome (ℤ × MqttPacketUnSubscribeData)
mqtt_deserialize_unsubscribe u buf len = do
  header ← index_at buf 0
  let read = (do
    left ← slice buf 1 len
    (n, remain_len) ← mqtt_packet_decode left 0
    id ← read_word buf (1 + n)
    unsubscribe_loop (len + 1) buf len (1 + n + 2) 0 (record u { packet_id = id }))
  if packet_type header == unsubscribe
      then (if bit_and header 0x0f == 0x02 then read else ok (minus_one, u))
      else ok (minus_one, u)

unfoldable pub mqtt_seserialize_unsuback : MqttPacketUnSubscribeData → Bytes → Outcome (ℕ × Bytes)
mqtt_seserialize_unsuback u out = do
  (tmp, out) ← append_length (out ++ shl8 unsuback 4 ∷ []) 2
  ok (1 + tmp + 2, out ++ word_bytes u.packet_id)

-- A topic is deleted if it is there.
abbrev pub delete_found : Option ℕ → Bytes → Map Bytes ℕ → Map Bytes ℕ
delete_found none topic info = info
delete_found (some q) topic info = delete topic info

unfoldable pub remove_topics : List Bytes → Map Bytes ℕ → Map Bytes ℕ
remove_topics [] info = info
remove_topics (t ∷ topic) info = remove_topics topic (delete_found (lookup t info) t info)

unfoldable pub mqtt_remove_un_sub_topic : MqttPacketUnSubscribeData → Map Bytes ℕ → Map Bytes ℕ
mqtt_remove_un_sub_topic u info = remove_topics u.topic info
