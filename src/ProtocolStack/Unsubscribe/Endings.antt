-- ===== src/ProtocolStack/Unsubscribe/Endings.antt =====
-- UNSUBSCRIBE is read to an end on every buffer, and its topics leave the client's table.
use mqtt_server_go.Prelude.{
  ℕ, zero, suc, ◌+◌, ◌-◌, ◌<◌, ◌≡◌, ◌≢◌, refl, arith, false, inl, inr, Bool-cases, List, [], ◌∷◌,
  bit_and, Bytes, stuck, if◌then◌else◌, slice, index_at, ◌==◌, leb, ok-ne-stuck, slice-ne-stuck,
  index_at-ne-stuck, >>=-ne-stuck, Option-cases, none, Map, lookup, bytes_eq, bytes_beq,
  bytes_beq_iff, lookup-delete, ◌||◌, Bool,
}
use mqtt_server_go.ProtocolStack.PacketType.{unsubscribe}
use mqtt_server_go.ProtocolStack.Packet.{
  packet_type, mqtt_packet_read_string, mqtt_packet_decode, read_word,
}
use mqtt_server_go.ProtocolStack.Packet.Endings.{
  decode-ne-stuck, read_string-ne-stuck, read_word-ne-stuck, read_string_takes,
}
use mqtt_server_go.ProtocolStack.Unsubscribe.{
  MqttPacketUnSubscribeData, unsubscribe_loop, mqtt_deserialize_unsubscribe, delete_found,
  remove_topics, mqtt_remove_un_sub_topic,
}

unsubscribe_loop-ne-stuck :
    (fuel : ℕ) (buf : Bytes) (len index n : ℕ) (u : MqttPacketUnSubscribeData)
    → len - index < fuel
    → unsubscribe_loop fuel buf len index n u ≢ stuck
unfolding unsubscribe_loop
unsubscribe_loop-ne-stuck zero buf len index n u enough = absurd (omega arith)
unsubscribe_loop-ne-stuck (suc fuel) buf len index n u enough = elim (Bool-cases (leb len index)) [
  | inl done ↦ rw done (ok-ne-stuck _)
  | inr more ↦ rw more (
      >>=-ne-stuck (slice buf index len) _ (slice-ne-stuck buf index len) λ left _.
        >>=-ne-stuck (mqtt_packet_read_string left) _ (read_string-ne-stuck left) λ r e.
          unsubscribe_loop-ne-stuck fuel buf len (index + r.0) (n + 1) _
            (ground (arith, read_string_takes left r.0 r.1 e)))
]

-- An UNSUBSCRIBE is read to its end, refused, or the reader panics, whatever the buffer holds.
pub deserialize_unsubscribe-ne-stuck :
    (u : MqttPacketUnSubscribeData) (buf : Bytes) (len : ℕ)
    → mqtt_deserialize_unsubscribe u buf len ≢ stuck
unfolding mqtt_deserialize_unsubscribe
deserialize_unsubscribe-ne-stuck u buf len =
    >>=-ne-stuck (index_at buf 0) _ (index_at-ne-stuck buf 0) λ header _.
      elim (Bool-cases (packet_type header == unsubscribe)) [
        | inl is ↦ rw is (elim (Bool-cases (bit_and header 0x0f == 0x02)) [
          | inl two ↦ rw two (
              >>=-ne-stuck (slice buf 1 len) _ (slice-ne-stuck buf 1 len) λ left _.
                >>=-ne-stuck (mqtt_packet_decode left 0) _ (decode-ne-stuck left 0) λ r _.
                  >>=-ne-stuck (read_word buf (1 + r.0)) _ (read_word-ne-stuck buf (1 + r.0))
                    λ id _.
                      unsubscribe_loop-ne-stuck (len + 1) buf len (1 + r.0 + 2) 0 _ (omega arith))
          | inr other ↦ rw other (ok-ne-stuck _)
        ])
        | inr other ↦ rw other (ok-ne-stuck _)
      ]

unfoldable pub names : Bytes → List Bytes → Bool
names t [] = false
names t (x ∷ topics) = bytes_beq x t || names t topics

lookup-delete_found :
    (t x : Bytes) (info : Map Bytes ℕ)
    → lookup t (delete_found (lookup x info) x info)
      ≡ (if bytes_beq x t then none else lookup t info)
lookup-delete_found t x info = elim (Option-cases (lookup x info)) [
  | inl e ↦ rw (e, delete_found) (ground (arith, bytes_beq_iff x t))
  | inr (q, e) ↦ rw (e, delete_found) (lookup-delete x t info)
]

lookup-remove_topics :
    (t : Bytes) (topics : List Bytes) (info : Map Bytes ℕ)
    → lookup t (remove_topics topics info) ≡ (if names t topics then none else lookup t info)
unfolding remove_topics names
lookup-remove_topics t [] info = refl
lookup-remove_topics t (x ∷ topics) info = ground (
  arith,
  lookup-remove_topics t topics (delete_found (lookup x info) x info),
  lookup-delete_found t x info,
)

-- The topics that the packet names are gone from the client's table, and the others keep what they
-- had.
pub lookup-remove_un_sub_topic :
    (t : Bytes) (u : MqttPacketUnSubscribeData) (info : Map Bytes ℕ)
    → lookup t (mqtt_remove_un_sub_topic u info) ≡ (if names t u.topic then none else lookup t info)
unfolding mqtt_remove_un_sub_topic
lookup-remove_un_sub_topic t u info = lookup-remove_topics t u.topic info
