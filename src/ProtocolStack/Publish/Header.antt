-- ===== src/ProtocolStack/Publish/Header.antt =====
-- The first byte of PUBLISH.
use mqtt_server_go.Prelude.{
  ℕ, ◌+◌, ◌*◌, ◌/◌, ◌%◌, ◌<◌, ◌≡◌, refl, arith, true, ◌&&◌, bit_and, Bool, ◌==◌, shr, all_below,
  all_below_sound,
}
use mqtt_server_go.ProtocolStack.PacketType.{publish}
use mqtt_server_go.ProtocolStack.Packet.{packet_type}
use mqtt_server_go.ProtocolStack.Publish.{MqttPacketPublishData, zero_publish, publish_header}

-- The type in the high nibble, then one bit, two bits and one bit.
abbrev pub header_byte : ℕ → ℕ → ℕ → ℕ
header_byte dup qos retained = 48 + 8 * dup + 2 * qos + retained

abbrev flags : ℕ → ℕ → ℕ → MqttPacketPublishData
flags dup qos retained = record zero_publish { dup = dup; qos = qos; retained = retained }

agrees : ℕ → ℕ → ℕ → Bool
unfolding publish_header packet_type
agrees dup qos retained =
    let h = header_byte dup qos retained in
    publish_header (flags dup qos retained) == h
    && (packet_type h == publish)
    && (shr (bit_and h 0x08) 3 == dup)
    && (shr (bit_and h 0x06) 1 == qos)
    && (bit_and h 0x01 == retained)

table : all_below 16 (λ n. agrees (n / 4 % 2) (n % 4) (n / 8)) ≡ true
unfolding all_below agrees
table = refl

module _ (dup qos retained : ℕ) (d : dup < 2) (q : qos < 4) (r : retained < 2) where
  agrees_at : agrees dup qos retained ≡ true
  agrees_at =
      let n = qos + 4 * dup + 8 * retained in
      let dup_part : n / 4 % 2 ≡ dup = omega arith in
      let qos_part : n % 4 ≡ qos = omega arith in
      let retained_part : n / 8 ≡ retained = omega arith in
      rw (dup_part, qos_part, retained_part) at (all_below_sound 16 _ n table (omega arith))

  pub header_fields :
      (publish_header (flags dup qos retained) ≡ header_byte dup qos retained)
      × (packet_type (header_byte dup qos retained) ≡ publish)
      × (shr (bit_and (header_byte dup qos retained) 0x08) 3 ≡ dup)
      × (shr (bit_and (header_byte dup qos retained) 0x06) 1 ≡ qos)
      × (bit_and (header_byte dup qos retained) 0x01 ≡ retained)
  unfolding agrees
  header_fields = ground (arith, agrees_at)
