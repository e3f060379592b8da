-- ===== src/ProtocolStack/Packet/Endings.antt =====
-- The readers end on every input: with a value, or with a panic.
use mqtt_server_go.Prelude.{
  ℕ, zero, suc, ◌+◌, ◌*◌, ◌≤◌, ◌≡◌, ◌≢◌, arith, [], ◌∷◌, ◌++◌, bit_and, Bytes, ok, stuck, index_at,
  ok-ne-stuck, index_at-ne-stuck, >>=-ne-stuck, drop,
}
use mqtt_server_go.ProtocolStack.Packet.{
  decode_loop, mqtt_packet_decode, copy_loop, prefix_length, mqtt_packet_read_string, read_word,
  word16,
}

decode_loop-ne-stuck :
    (bytes : Bytes) (multiplier value len : ℕ) → decode_loop bytes multiplier value len ≢ stuck
unfolding decode_loop
decode_loop-ne-stuck [] multiplier value len e = ground arith
decode_loop-ne-stuck (c ∷ rest) multiplier value len e = ground (
  arith,
  decode_loop-ne-stuck rest (multiplier * 128) (value + bit_and c 127 * multiplier) (len + 1),
)

pub decode-ne-stuck : (bytes : Bytes) (value : ℕ) → mqtt_packet_decode bytes value ≢ stuck
unfolding mqtt_packet_decode
decode-ne-stuck bytes value = decode_loop-ne-stuck bytes 1 value 0

copy_loop-ne-stuck : (bytes : Bytes) (len : ℕ) (tmp : Bytes) → copy_loop bytes len tmp ≢ stuck
unfolding copy_loop
copy_loop-ne-stuck bytes zero tmp e = cc
copy_loop-ne-stuck [] (suc len) tmp e = cc
copy_loop-ne-stuck (c ∷ bytes) (suc len) tmp e = copy_loop-ne-stuck bytes len (tmp ++ c ∷ []) e

pub read_string-ne-stuck : (bytes : Bytes) → mqtt_packet_read_string bytes ≢ stuck
unfolding mqtt_packet_read_string
read_string-ne-stuck bytes = >>=-ne-stuck (index_at bytes 0) _ (index_at-ne-stuck bytes 0) λ hi _.
    >>=-ne-stuck (index_at bytes 1) _ (index_at-ne-stuck bytes 1) λ lo _.
      >>=-ne-stuck (copy_loop (drop 2 bytes) (prefix_length hi lo) []) _ (copy_loop-ne-stuck _ _ _)
        λ str _. ok-ne-stuck _

pub read_word-ne-stuck : (buf : Bytes) (index : ℕ) → read_word buf index ≢ stuck
unfolding read_word
read_word-ne-stuck buf index =
    >>=-ne-stuck (index_at buf index) _ (index_at-ne-stuck buf index) λ hi _.
      >>=-ne-stuck (index_at buf (index + 1)) _ (index_at-ne-stuck buf (index + 1))
        λ lo _. ok-ne-stuck (word16 hi lo)

-- A string takes two bytes at least.
pub read_string_takes :
    (bytes : Bytes) (n : ℕ) (str : Bytes) → mqtt_packet_read_string bytes ≡ ok (n, str) → 2 ≤ n
unfolding mqtt_packet_read_string
read_string_takes bytes n str e = ground arith
