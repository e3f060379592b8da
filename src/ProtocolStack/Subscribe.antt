-- ===== src/ProtocolStack/Subscribe.antt =====
-- protocol_stack/mqtt_protocol_subscribe.go: SUBSCRIBE and SUBACK.
pub mod RoundTrip
mod Tests
pub mod Endings
pub mod SubInfo
use mqtt_server_go.Prelude.{
  ℕ, zero, suc, ℤ, pos, negsuc, minus_one, ◌+◌, List, [], ◌∷◌, ◌++◌, bit_and, Bytes, Outcome, ok,
  stuck, ◌>>=◌, index_at, slice, leb, ◌==◌, if◌then◌else◌, shl8, shr, Map, bytes_eq, insert,
}
use mqtt_server_go.ProtocolStack.PacketType.{subscribe, suback}
use mqtt_server_go.ProtocolStack.Packet.{
  mqtt_packet_decode, append_length, mqtt_packet_read_string, packet_type, read_word, word_bytes,
}

pub record MqttPacketSubscribeData : Type 0 where
  pub dup : ℕ
  pub packet_id : ℕ
  pub topic : List Bytes
  pub qos : List ℕ

-- `var subscribeData MQTTPacketSubscribeData`
abbrev pub zero_subscribe : MqttPacketSubscribeData
zero_subscribe = record { dup = 0; packet_id = 0; topic = []; qos = [] }

-- One round: a topic and its quality of service, appended; and the index behind them.
unfoldable pub read_subscription :
    Bytes → ℕ → ℕ → MqttPacketSubscribeData → Outcome (ℕ × MqttPacketSubscribeData)
read_subscription buf len index s = do
  left ← slice buf index len
  (n, topic) ← mqtt_packet_read_string left
  qos ← index_at buf (index + n)
  ok (
    index + n + 1,
    record s { topic = s.topic ++ topic ∷ []; qos = s.qos ++ bit_and qos 0x03 ∷ [] },
  )

-- The loop over the topics, on fuel; `topic_num` counts them.
unfoldable pub subscribe_loop :
    ℕ → Bytes → ℕ → ℕ → ℕ → MqttPacketSubscribeData → Outcome (ℤ × MqttPacketSubscribeData)
subscribe_loop zero buf len index topic_num s = stuck
subscribe_loop (suc fuel) buf len index topic_num s =
    let more = (do
      (index, s) ← read_subscription buf len index s
      subscribe_loop fuel buf len index (topic_num + 1) s) in
    if leb len index then ok (pos topic_num, s) else more

-- `len` rounds and one to leave are enough.
unfoldable pub mqtt_deserialize_subscribe :
    MqttPacketSubscribeData → Bytes → ℕ → Outcome (ℤ × MqttPacketSubscribeData)
mqtt_deserialize_subscribe s buf len = do
  header ← index_at buf 0
  let read = (do
    left ← slice buf 1 len
    (n, remain_len) ← mqtt_packet_decode left 0
    id ← read_word buf (1 + n)
    let s = record s { dup = shr (bit_and header 0x08) 3; packet_id = id }
    subscribe_loop (len + 1) buf len (1 + n + 2) 0 s)
  if packet_type header == subscribe then read else ok (minus_one, s)

-- `for i := 0; i < num; i++`, with `left` rounds left: the index must lie within `Qos`.
unfoldable pub suback_loop : ℕ → ℕ → List ℕ → Bytes → Outcome Bytes
suback_loop zero i qos out = ok out
suback_loop (suc left) i qos out = do
  q ← index_at qos i
  suback_loop left (i + 1) qos (out ++ q ∷ [])

-- The number of topics; no round is made for a negative one.
abbrev pub rounds : ℤ → ℕ
rounds (pos n) = n
rounds (negsuc n) = 0

-- `2 + num`. The only negative number that a deserialiser returns is -1.
abbrev pub suback_length : ℤ → ℕ
suback_length (pos n) = 2 + n
suback_length (negsuc n) = 1

unfoldable pub mqtt_seserialize_suback : MqttPacketSubscribeData → Bytes → ℤ → Outcome (ℕ × Bytes)
mqtt_seserialize_suback s out num = do
  (tmp, out) ← append_length (out ++ shl8 suback 4 ∷ []) (suback_length num)
  out ← suback_loop (rounds num) 0 s.qos (out ++ word_bytes s.packet_id)
  ok (1 + tmp + 2 + rounds num, out)

-- `subInfo[Topic[i]] = Qos[i]` for every topic. The lists are `Topic[i:]`; `Qos[i]` must be there.
unfoldable pub get_sub_info_loop : List Bytes → ℕ → List ℕ → Map Bytes ℕ → Outcome (Map Bytes ℕ)
get_sub_info_loop [] i qos info = ok info
get_sub_info_loop (t ∷ topic) i qos info = do
  q ← index_at qos i
  get_sub_info_loop topic (i + 1) qos (insert t q info)

unfoldable pub mqtt_get_sub_info : MqttPacketSubscribeData → Map Bytes ℕ → Outcome (Map Bytes ℕ)
mqtt_get_sub_info s info = get_sub_info_loop s.topic 0 s.qos info
