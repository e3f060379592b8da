-- ===== src/ProtocolStack/Packet/RemainingLength.antt =====
-- The remaining length that `mqttPacket_encode` writes and `mqttPacket_decode` reads.
use mqtt_server_go.Prelude.{
  ℕ, zero, suc, ◌+◌, ◌/◌, ◌%◌, ◌^◌, ◌≤◌, ◌<◌, ◌≡◌, arith, [], ◌∷◌, ◌++◌, Bytes, length, All, ok,
  panic, refl, ok_pair, ◌∙◌, ltb, if◌then◌else◌, low_bits, top_bit, set_top_bit,
}
use mqtt_server_go.ProtocolStack.Packet.{mqtt_packet_decode, mqtt_packet_encode, append_length}

-- The variable byte integer of the protocol: groups of seven bits, lowest first, the top bit set on
-- every byte but the last, in at most `more + 1` bytes.
unfoldable pub groups : ℕ → ℕ → Bytes
groups zero n = n ∷ []
groups (suc more) n =
    let rest = groups more (n / 128) in if ltb n 128 then n ∷ [] else (n % 128 + 128) ∷ rest

-- Four bytes at most.
unfoldable pub length_field : ℕ → Bytes
unfolding groups
length_field n = groups 3 n

abbrev pub max_length : ℕ
max_length = 2 ^ 28

pub append_length_lem :
    (out : Bytes) (n : ℕ)
    → n < max_length
    → append_length out n ≡ ok (length (length_field n), out ++ length_field n)
unfolding append_length length_field
append_length_lem out n h =
    ground
      (arith, set_top_bit (n % 128), set_top_bit (n / 128 % 128), set_top_bit (n / 128 / 128 % 128))

pub decode-length_field :
    (n value : ℕ) (rest : Bytes)
    → n < max_length
    → mqtt_packet_decode (length_field n ++ rest) value ≡ ok (length (length_field n), value + n)
unfolding mqtt_packet_decode length_field
decode-length_field n value rest h = ground (
  arith,
  low_bits (n % 128 + 128),
  low_bits (n / 128 % 128 + 128),
  low_bits (n / 128 / 128 % 128 + 128),
  low_bits n,
  low_bits (n / 128),
  low_bits (n / 128 / 128),
  low_bits (n / 128 / 128 / 128),
  top_bit (n % 128 + 128),
  top_bit (n / 128 % 128 + 128),
  top_bit (n / 128 / 128 % 128 + 128),
  top_bit n,
  top_bit (n / 128),
  top_bit (n / 128 / 128),
  top_bit (n / 128 / 128 / 128),
)

-- From 2 ^ 28 on, the encoder needs a fifth byte, and writes it behind its array of four.
pub encode_overflow : (n : ℕ) → max_length ≤ n → mqtt_packet_encode n ≡ panic
unfolding mqtt_packet_encode
encode_overflow n h = ground arith

-- Whatever the bytes, when a length is read from them, it took at most four of them, and it is below
-- 2 ^ 28.
pub decode_bounds :
    (bytes : Bytes) (len value : ℕ)
    → All (λ c. c < 256) bytes
    → mqtt_packet_decode bytes 0 ≡ ok (len, value)
    → (len ≤ 4) × (len ≤ length bytes) × (value < max_length)
unfolding mqtt_packet_decode
decode_bounds [] len value b e = cc
decode_bounds (c ∷ []) len value b e = ground (arith, low_bits c)
decode_bounds (c ∷ d ∷ []) len value b e = ground (arith, low_bits c, low_bits d)
decode_bounds (c ∷ d ∷ f ∷ []) len value b e = ground (arith, low_bits c, low_bits d, low_bits f)
decode_bounds (c ∷ d ∷ f ∷ g ∷ []) len value b e =
    ground (arith, low_bits c, low_bits d, low_bits f, low_bits g)
decode_bounds (c ∷ d ∷ f ∷ g ∷ k ∷ r) len value b e =
    ground (arith, low_bits c, low_bits d, low_bits f, low_bits g)

-- The field has one byte to four.
groups-length : (more n : ℕ) → (1 ≤ length (groups more n)) × (length (groups more n) ≤ more + 1)
unfolding groups
groups-length zero n = (omega arith, omega arith)
groups-length (suc more) n = ground (arith, groups-length more (n / 128))

-- For a length below 2 ^ 28: the encoder ends well and appends one byte to four to what it was given,
-- whose number it returns, and the decoder reads them, whatever follows them, as the same length and the
-- same number of bytes.
pub decode-append_length :
    (n : ℕ) (out rest : Bytes)
    → n < max_length
    → (field : Bytes) × (append_length out n ≡ ok (length field, out ++ field))
      × (1 ≤ length field)
      × (length field ≤ 4)
      × (mqtt_packet_decode (field ++ rest) 0 ≡ ok (length field, n))
unfolding length_field
decode-append_length n out rest h =
    let (lower, upper) = groups-length 3 n in
    (
      length_field n,
      append_length_lem out n h,
      lower,
      upper,
      decode-length_field n 0 rest h ∙ ok_pair refl (omega arith),
    )
