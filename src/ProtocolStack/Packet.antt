-- ===== src/ProtocolStack/Packet.antt =====
-- protocol_stack/mqtt_packet.go: the remaining length, length-prefixed strings, the fixed header.
pub mod RemainingLength
pub mod Endings
pub mod Strings
pub mod Words
use mqtt_server_go.Prelude.{
  ℕ, ℤ, pos, minus_one, zero, suc, ◌+◌, ◌*◌, ◌/◌, ◌%◌, ◌^◌, [], ◌∷◌, ◌++◌, bit_and, bit_or, Bytes,
  length, set, take, drop, Outcome, ok, panic, ◌>>=◌, index_at, slice_from, ltb, ◌==◌,
  if◌then◌else◌, shl8, shr,
}
use mqtt_server_go.ProtocolStack.PacketType.{disconnect}

-- The loop of `mqttPacket_decode`. The list is `data[i:]`; `len` counts the bytes read before this
-- round. The pair is the returned length and the final `*value`.
unfoldable pub decode_loop : Bytes → ℕ → ℕ → ℕ → Outcome (ℕ × ℕ)
decode_loop [] multiplier value len = if ltb 4 (len + 1) then ok (0, value) else panic
decode_loop (c ∷ rest) multiplier value len =
    let value' = value + bit_and c 127 * multiplier in
    let more = decode_loop rest (multiplier * 128) value' (len + 1) in
    if ltb 4 (len + 1)
    then ok (0, value)
    else if bit_and c 128 == 0
    then ok (len + 1, value')
    else more

unfoldable pub mqtt_packet_decode : Bytes → ℕ → Outcome (ℕ × ℕ)
unfolding decode_loop
mqtt_packet_decode bytes value = decode_loop bytes 1 value 0

-- `var buf [4]byte`
abbrev pub empty_buf : Bytes
empty_buf = 0 ∷ 0 ∷ 0 ∷ 0 ∷ []

-- The loop of `mqttPacket_encode`. `room` is what is left of the array, 4 - index: the write at index
-- 4 is out of range.
unfoldable pub encode_loop : ℕ → ℕ → ℕ → Bytes → Outcome (ℕ × Bytes)
encode_loop zero length index buf = panic
encode_loop (suc room) length index buf =
    let tmp = length % 128 in
    let length' = length / 128 in
    let more = encode_loop room length' (index + 1) (set buf index (bit_or tmp 0x80)) in
    if ltb 0 length' then more else ok (index + 1, set buf index tmp)

unfoldable pub mqtt_packet_encode : ℕ → Outcome (ℕ × Bytes)
unfolding encode_loop
mqtt_packet_encode length = encode_loop 4 length 0 empty_buf

-- Every serialiser copies the bytes of the length it was given, `for i := 0; i < tmp; i++`, and adds
-- `tmp` to its index.
unfoldable pub append_length : Bytes → ℕ → Outcome (ℕ × Bytes)
unfolding mqtt_packet_encode
append_length out length = do
  (tmp, left_len) ← mqtt_packet_encode length
  ok (tmp, out ++ take tmp left_len)

-- `tmp = append(tmp, data[i+2])` for `len` bytes; the list is `data[i+2:]`.
unfoldable pub copy_loop : Bytes → ℕ → Bytes → Outcome Bytes
copy_loop bytes zero tmp = ok tmp
copy_loop [] (suc len) tmp = panic
copy_loop (c ∷ bytes) (suc len) tmp = copy_loop bytes len (tmp ++ c ∷ [])

-- `(int)(data[0] << 8 | data[1])`, where both operands are bytes: the shift leaves 0.
unfoldable pub prefix_length : ℕ → ℕ → ℕ
prefix_length hi lo = bit_or (shl8 hi 8) lo

-- The length returned and the string.
unfoldable pub mqtt_packet_read_string : Bytes → Outcome (ℕ × Bytes)
mqtt_packet_read_string bytes = do
  hi ← index_at bytes 0
  lo ← index_at bytes 1
  let len = prefix_length hi lo
  str ← copy_loop (drop 2 bytes) len []
  ok (len + 2, str)

-- The length returned and the version, the byte behind the protocol's name.
unfoldable pub mqtt_packet_read_protocol : Bytes → Outcome (ℕ × ℕ)
mqtt_packet_read_protocol bytes = do
  hi ← index_at bytes 0
  lo ← index_at bytes 1
  let len = prefix_length hi lo
  tmp ← copy_loop (drop 2 bytes) len []
  version ← index_at bytes (2 + len)
  ok (2 + len + 1, version)

-- `MqttPacket_ParseFixHeader`: the message type, -1 if there is none, and the remaining length.
unfoldable pub mqtt_packet_parse_fix_header : Bytes → Outcome (ℤ × ℕ)
mqtt_packet_parse_fix_header buf = do
  header ← index_at buf 0
  let msg_type = shr (bit_and header 0xf0) 4
  let parsed = (do
    left ← slice_from buf 1
    (len, length) ← mqtt_packet_decode left 0
    ok (pos msg_type, length))
  if ltb disconnect msg_type then ok (minus_one, 0) else parsed

-- `(header & 0xF0) >> 4`
unfoldable pub packet_type : ℕ → ℕ
packet_type header = shr (bit_and header 0xf0) 4

-- `uint16(buf[index]) << 8 | uint16(buf[index+1])`
unfoldable pub word16 : ℕ → ℕ → ℕ
word16 hi lo = bit_or (hi * 2 ^ 8 % 2 ^ 16) lo

unfoldable pub read_word : Bytes → ℕ → Outcome ℕ
read_word buf index = do hi ← index_at buf index; lo ← index_at buf (index + 1); ok (word16 hi lo)

-- `uint8(id/256)`, `uint8(id%256)`
unfoldable pub word_bytes : ℕ → Bytes
word_bytes id = id / 256 % 256 ∷ id % 256 % 256 ∷ []
