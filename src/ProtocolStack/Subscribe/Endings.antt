-- ===== src/ProtocolStack/Subscribe/Endings.antt =====
-- Reading SUBSCRIBE ends on every buffer.
use mqtt_server_go.Prelude.{
  ℕ, zero, suc, ◌+◌, ◌<◌, ◌≡◌, ◌≢◌, arith, inl, inr, Bool-cases, Bytes, ok, stuck, index_at, slice,
  ok-ne-stuck, slice-ne-stuck, index_at-ne-stuck, >>=-ne-stuck, leb, ◌==◌, ◌-◌,
}
use mqtt_server_go.ProtocolStack.PacketType.{subscribe}
use mqtt_server_go.ProtocolStack.Packet.{
  mqtt_packet_decode, mqtt_packet_read_string, read_word, packet_type,
}
use mqtt_server_go.ProtocolStack.Packet.Endings.{
  decode-ne-stuck, read_string-ne-stuck, read_word-ne-stuck,
}
use mqtt_server_go.ProtocolStack.Subscribe.{
  MqttPacketSubscribeData, read_subscription, subscribe_loop, mqtt_deserialize_subscribe,
}

-- Every round moves the index.
read_subscription_moves :
    (buf : Bytes) (len index index' : ℕ) (s s' : MqttPacketSubscribeData)
    → read_subscription buf len index s ≡ ok (index', s')
    → index < index'
unfolding read_subscription
read_subscription_moves buf len index index' s s' e = ground arith

read_subscription-ne-stuck :
    (buf : Bytes) (len index : ℕ) (s : MqttPacketSubscribeData)
    → read_subscription buf len index s ≢ stuck
unfolding read_subscription
read_subscription-ne-stuck buf len index s =
    >>=-ne-stuck (slice buf index len) _ (slice-ne-stuck buf index len) λ left _.
      >>=-ne-stuck (mqtt_packet_read_string left) _ (read_string-ne-stuck left) λ r _.
        >>=-ne-stuck (index_at buf (index + r.0)) _ (index_at-ne-stuck buf (index + r.0))
          λ q _. ok-ne-stuck _

subscribe_loop-ne-stuck :
    (fuel : ℕ) (buf : Bytes) (len index n : ℕ) (s : MqttPacketSubscribeData)
    → len - index < fuel
    → subscribe_loop fuel buf len index n s ≢ stuck
unfolding subscribe_loop
subscribe_loop-ne-stuck zero buf len index n s enough = absurd (omega arith)
subscribe_loop-ne-stuck (suc fuel) buf len index n s enough = elim (Bool-cases (leb len index)) [
  | inl done ↦ rw done (ok-ne-stuck _)
  | inr more ↦ rw more (
      >>=-ne-stuck (read_subscription buf len index s) _
        (read_subscription-ne-stuck buf len index s)
        λ r e.
          subscribe_loop-ne-stuck fuel buf len r.0 (n + 1) r.1
            (ground (arith, read_subscription_moves buf len index r.0 s r.1 e)))
]

-- A SUBSCRIBE is read to its end or the reader panics, whatever the buffer holds.
pub deserialize_subscribe-ne-stuck :
    (s : MqttPacketSubscribeData) (buf : Bytes) (len : ℕ)
    → mqtt_deserialize_subscribe s buf len ≢ stuck
unfolding mqtt_deserialize_subscribe
deserialize_subscribe-ne-stuck s buf len =
    >>=-ne-stuck (index_at buf 0) _ (index_at-ne-stuck buf 0) λ header _.
      elim (Bool-cases (packet_type header == subscribe)) [
        | inl is ↦ rw is (
            >>=-ne-stuck (slice buf 1 len) _ (slice-ne-stuck buf 1 len) λ left _.
              >>=-ne-stuck (mqtt_packet_decode left 0) _ (decode-ne-stuck left 0) λ r _.
                >>=-ne-stuck (read_word buf (1 + r.0)) _ (read_word-ne-stuck buf (1 + r.0))
                  λ id _. subscribe_loop-ne-stuck (len + 1) buf len (1 + r.0 + 2) 0 _ (omega arith))
        | inr other ↦ rw other (ok-ne-stuck _)
      ]
