-- ===== src/ProtocolStack/Packet/Strings.antt =====
-- The strings that `mqttPacket_readString` reads.
use mathlib.Core.List.{append_assoc}
use mqtt_server_go.Prelude.{
  index_at, zero-bit_or, ℕ, ◌^◌, zero, suc, ◌+◌, ◌*◌, ◌%◌, ◌<◌, ◌≡◌, refl, ap, ◌∙◌, arith, [], ◌∷◌,
  ◌++◌, Bytes, length, ok, panic, append-nil,
}
use mqtt_server_go.ProtocolStack.Packet.{copy_loop, prefix_length, mqtt_packet_read_string}

-- The high byte of the length is lost.
pub prefix_length_lem : (hi lo : ℕ) → prefix_length hi lo ≡ lo
unfolding prefix_length
prefix_length_lem hi lo = let z : hi * 2 ^ 8 % 256 ≡ 0 = omega arith in rw (z) (zero-bit_or lo)

pub copy_loop-append : (s rest tmp : Bytes) → copy_loop (s ++ rest) (length s) tmp ≡ ok (tmp ++ s)
unfolding copy_loop
copy_loop-append [] rest tmp = rw append-nil
copy_loop-append (c ∷ s) rest tmp =
    copy_loop-append s rest (tmp ++ c ∷ []) ∙ ap ok (append_assoc tmp (c ∷ []) s)

-- `copy_loop` panics exactly when the bytes end before the string.
pub copy_loop_short :
    (src : Bytes) (len : ℕ) (tmp : Bytes) → length src < len → copy_loop src len tmp ≡ panic
unfolding copy_loop
copy_loop_short src zero tmp h = absurd (omega arith)
copy_loop_short [] (suc len) tmp h = refl
copy_loop_short (c ∷ src) (suc len) tmp h = copy_loop_short src len (tmp ++ c ∷ []) (omega arith)

-- A string behind a length whose low byte is right.
pub read_string_lem :
    (hi lo : ℕ) (s rest : Bytes)
    → lo ≡ length s
    → mqtt_packet_read_string (hi ∷ lo ∷ (s ++ rest)) ≡ ok (length s + 2, s)
unfolding mqtt_packet_read_string index_at
read_string_lem hi lo s rest e = ground (arith, prefix_length_lem hi lo, copy_loop-append s rest [])
