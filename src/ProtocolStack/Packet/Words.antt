-- ===== src/ProtocolStack/Packet/Words.antt =====
-- Two-byte numbers, as the packets hold them.
use mqtt_server_go.Prelude.{
  ℕ, ◌+◌, ◌*◌, ◌/◌, ◌%◌, ◌^◌, ◌<◌, ◌≡◌, refl, ap, arith, [], ◌∷◌, ◌++◌, Bytes, ok, slice,
  bit_or_disjoint, slice_advance, index_at-slice,
}
use mqtt_server_go.ProtocolStack.Packet.{word16, read_word, word_bytes}

pub word16_lem : (hi lo : ℕ) → hi < 256 → lo < 256 → word16 hi lo ≡ hi * 256 + lo
unfolding word16
word16_lem hi lo p q =
    let fits : hi * 2 ^ 8 % 2 ^ 16 ≡ hi * 2 ^ 8 = omega arith in rw fits (bit_or_disjoint 8 hi lo q)

-- A word that stands at the front of the unread bytes.
pub read_word-slice :
    (buf : Bytes) (index len id : ℕ) (left : Bytes)
    → id < 65536
    → slice buf index len ≡ ok (word_bytes id ++ left)
    → read_word buf index ≡ ok id
unfolding read_word word_bytes
read_word-slice buf index len id left h e =
    rw
      (
        index_at-slice buf index len e,
        index_at-slice buf (index + 1) len (
            slice_advance buf index len (id / 256 % 256 ∷ []) (id % 256 % 256 ∷ left) (index + 1) e
              refl),
        word16_lem (id / 256 % 256) (id % 256 % 256) (omega arith) (omega arith),
      )
      (ap ok (omega arith))
