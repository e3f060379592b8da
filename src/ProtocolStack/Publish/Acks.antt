-- ===== src/ProtocolStack/Publish/Acks.antt =====
-- PUBACK, PUBREC, PUBREL and PUBCOMP: what is written, and what is read back.
use mqtt_server_go.Prelude.{
  ℕ, pos, minus_one, ◌+◌, ◌%◌, ◌/◌, ◌*◌, ◌<◌, ◌≡◌, refl, ap, sym, ◌∙◌, append-nil, arith, true, [],
  ◌∷◌, ◌++◌, append_assoc, Bytes, ok, ◌>>=◌, if◌then◌else◌, slice, slice_front, slice_advance,
  index_at-slice, ◌==◌, ◌&&◌, Bool, all_below, all_below_sound, ok_pair,
}
use mqtt_server_go.ProtocolStack.PacketType.{pubrel}
use mqtt_server_go.ProtocolStack.Packet.{packet_type, word_bytes, mqtt_packet_decode}
use mqtt_server_go.ProtocolStack.Packet.RemainingLength.{length_field, append_length_lem}
use mqtt_server_go.ProtocolStack.Packet.Words.{read_word-slice}
use mqtt_server_go.ProtocolStack.Publish.{
  MqttPacketPublishData, zero_publish, ack_header, mqtt_deserialize_ack, mqtt_seserialize_ack,
}

-- The type in the high nibble; bit 1 for PUBREL; the two flags of the message.
abbrev pub ack_byte : ℕ → ℕ → ℕ → ℕ
ack_byte msg_type dup retained =
    16 * msg_type + (if msg_type == pubrel then 2 else 0) + 8 * dup + retained

abbrev flags : ℕ → ℕ → MqttPacketPublishData
flags dup retained = record zero_publish { dup = dup; retained = retained }

agrees : ℕ → ℕ → ℕ → Bool
unfolding ack_header packet_type
agrees msg_type dup retained =
    ack_header msg_type (flags dup retained) == ack_byte msg_type dup retained
    && (packet_type (ack_byte msg_type dup retained) == msg_type)

table : all_below 64 (λ n. agrees (n / 4) (n / 2 % 2) (n % 2)) ≡ true
unfolding all_below agrees
table = refl

module _ (msg_type dup retained : ℕ) (t : msg_type < 16) (d : dup < 2) (r : retained < 2) where
  agrees_at : agrees msg_type dup retained ≡ true
  agrees_at =
      let n = 4 * msg_type + 2 * dup + retained in
      let type_part : n / 4 ≡ msg_type = omega arith in
      let dup_part : n / 2 % 2 ≡ dup = omega arith in
      let retained_part : n % 2 ≡ retained = omega arith in
      rw (type_part, dup_part, retained_part) at (all_below_sound 64 _ n table (omega arith))

  pub ack_header_lem :
      (ack_header msg_type (flags dup retained) ≡ ack_byte msg_type dup retained)
      × (packet_type (ack_byte msg_type dup retained) ≡ msg_type)
  unfolding agrees
  ack_header_lem = ground (arith, agrees_at)

pub record Fits (p : MqttPacketPublishData) : Type 0 where
  pub dup_fits : p.dup < 2
  pub retained_fits : p.retained < 2
  pub packet_id_fits : p.packet_id < 65536

abbrev pub ack_bytes : ℕ → MqttPacketPublishData → Bytes
ack_bytes msg_type p = ack_byte msg_type p.dup p.retained ∷ 2 ∷ word_bytes p.packet_id

two_field : length_field 2 ≡ 2 ∷ []
unfolding length_field
two_field = refl

-- An acknowledgement is four bytes.
pub seserialize_ack-bytes :
    (out : Bytes) (msg_type : ℕ) (p : MqttPacketPublishData)
    → msg_type < 16
    → Fits p
    → mqtt_seserialize_ack out msg_type p ≡ ok (4, out ++ ack_bytes msg_type p)
unfolding mqtt_seserialize_ack ack_header
seserialize_ack-bytes out msg_type p t f =
    rw
      (
        (ack_header_lem msg_type p.dup p.retained t f.dup_fits f.retained_fits).0,
        append_length_lem (out ++ ack_byte msg_type p.dup p.retained ∷ []) 2 (omega arith),
        two_field,
      )
      (ok_pair refl (simp append_assoc))

pub decode_two : (rest : Bytes) → mqtt_packet_decode (2 ∷ rest) 0 ≡ ok (1, 2)
unfolding mqtt_packet_decode
decode_two rest = refl

-- For a packet type of four bits and a message whose flags and packet id fit: the acknowledgement
-- that is written gives back its packet id when it is read as its own type, and -1, with the reader's
-- packet id left as it was, when it is read as any other, whatever follows it in the buffer.
pub deserialize-seserialize_ack :
    (msg_type expected old : ℕ) (p : MqttPacketPublishData) (junk : Bytes)
    → msg_type < 16
    → Fits p
    → (mqtt_seserialize_ack [] msg_type p >>= λ (n, out).
        mqtt_deserialize_ack (out ++ junk) n expected old)
      ≡ (if msg_type == expected then ok (pos 4, p.packet_id) else ok (minus_one, old))
unfolding mqtt_deserialize_ack
deserialize-seserialize_ack msg_type expected old p junk t f = rw (
  seserialize_ack-bytes [] msg_type p t f,
  index_at-slice buf 0 4 whole,
  (ack_header_lem msg_type p.dup p.retained t f.dup_fits f.retained_fits).1,
  behind_header,
  decode_two (word_bytes p.packet_id),
  read_word-slice buf 2 4 p.packet_id [] f.packet_id_fits behind_length,
)
  where
    buf : Bytes
    buf = ack_bytes msg_type p ++ junk

    whole : slice buf 0 4 ≡ ok (ack_bytes msg_type p)
    whole = unfold word_bytes in slice_front (ack_bytes msg_type p) junk

    behind_header : slice buf 1 4 ≡ ok (2 ∷ word_bytes p.packet_id)
    behind_header =
        slice_advance buf 0 4 (ack_byte msg_type p.dup p.retained ∷ []) (2 ∷ word_bytes p.packet_id)
          1 whole refl

    behind_length : slice buf 2 4 ≡ ok (word_bytes p.packet_id ++ [])
    behind_length =
        slice_advance buf 1 4 (2 ∷ []) (word_bytes p.packet_id ++ []) 2
          (behind_header ∙ ap ok (ap (◌∷◌ 2) (sym (append-nil (word_bytes p.packet_id))))) refl
