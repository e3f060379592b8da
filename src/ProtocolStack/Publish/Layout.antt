-- ===== src/ProtocolStack/Publish/Layout.antt =====
-- The bytes of PUBLISH, as the protocol lays them out, and the serialiser that writes them.
use mqtt_server_go.Prelude.{
  ℕ, true, false, ◌+◌, ◌<◌, ◌≡◌, arith, inl, inr, [], ◌∷◌, ◌++◌, append_assoc, Bytes, length,
  length-append, ok, ok_pair, ltb, if◌then◌else◌, Bool-cases,
}
use mqtt_server_go.ProtocolStack.Packet.{word_bytes}
use mqtt_server_go.ProtocolStack.Packet.RemainingLength.{
  length_field, append_length_lem, max_length,
}
use mqtt_server_go.ProtocolStack.Publish.{
  MqttPacketPublishData, publish_header, mqtt_seserialize_publish,
}
use mqtt_server_go.ProtocolStack.Publish.Header.{header_byte, header_fields}

-- The bytes behind the remaining length.
unfoldable pub remaining : MqttPacketPublishData → ℕ
remaining p = let n = 2 + length p.topic + length p.payload in if ltb 0 p.qos then n + 2 else n

-- Each field fits the bits that the packet has for it.
pub record Fits (p : MqttPacketPublishData) : Type 0 where
  pub dup_fits : p.dup < 2
  pub qos_fits : p.qos < 4
  pub retained_fits : p.retained < 2
  pub packet_id_fits : p.packet_id < 65536
  pub remaining_fits : remaining p < max_length

unfoldable pub id_field : MqttPacketPublishData → Bytes
id_field p = if ltb 0 p.qos then word_bytes p.packet_id else []

pub id_field_sent :
    (p : MqttPacketPublishData) → ltb 0 p.qos ≡ true → id_field p ≡ word_bytes p.packet_id
unfolding id_field
id_field_sent p e = rw e

pub id_field_absent : (p : MqttPacketPublishData) → ltb 0 p.qos ≡ false → id_field p ≡ []
unfolding id_field
id_field_absent p e = rw e

unfoldable pub publish_body : MqttPacketPublishData → Bytes
publish_body p = word_bytes (length p.topic) ++ (p.topic ++ (id_field p ++ p.payload))

unfoldable pub publish_bytes : MqttPacketPublishData → Bytes
publish_bytes p =
    header_byte p.dup p.qos p.retained ∷ (length_field (remaining p) ++ publish_body p)

pub length-publish_body : (p : MqttPacketPublishData) → length (publish_body p) ≡ remaining p
unfolding publish_body word_bytes remaining id_field
length-publish_body p = elim (Bool-cases (ltb 0 p.qos)) [
  | inl e ↦ rw e (
      omega (
        arith,
        length-append p.topic (word_bytes p.packet_id ++ p.payload),
        length-append (word_bytes p.packet_id) p.payload,
      ))
  | inr e ↦ rw e (omega (arith, length-append p.topic p.payload))
]

header_lem :
    (p : MqttPacketPublishData) → Fits p → publish_header p ≡ header_byte p.dup p.qos p.retained
unfolding publish_header
header_lem p f = (header_fields p.dup p.qos p.retained f.dup_fits f.qos_fits f.retained_fits).0

-- For a message whose fields fit their packet: the serialiser appends exactly the bytes of the
-- protocol to the buffer it was given, whatever that holds, and returns their number alone.
pub seserialize_publish-bytes :
    (p : MqttPacketPublishData) (out : Bytes)
    → Fits p
    → mqtt_seserialize_publish p out ≡ ok (length (publish_bytes p), out ++ publish_bytes p)
unfolding mqtt_seserialize_publish publish_bytes publish_body remaining id_field
seserialize_publish-bytes p out f =
    rw
      (
        header_lem p f,
        append_length_lem (out ++ header_byte p.dup p.qos p.retained ∷ []) (remaining p)
            f.remaining_fits,
      )
      (ok_pair
        (ground (
          arith,
          length-append (length_field (remaining p)) (publish_body p),
          length-publish_body p,
        ))
        bytes)
  where
    bytes :
        (if ltb 0 p.qos
            then (((out ++ header_byte p.dup p.qos p.retained ∷ []) ++ length_field (remaining p))
                ++ word_bytes (length p.topic))
              ++ p.topic
              ++ word_bytes p.packet_id
            else (((out ++ header_byte p.dup p.qos p.retained ∷ []) ++ length_field (remaining p))
                ++ word_bytes (length p.topic))
              ++ p.topic)
          ++ p.payload
        ≡ out ++ publish_bytes p
    bytes = elim (Bool-cases (ltb 0 p.qos)) [
      | inl e ↦ rw e (simp append_assoc)
      | inr e ↦ rw e (simp append_assoc)
    ]
