-- ===== src/ProtocolStack/Subscribe/RoundTrip.antt =====
-- Reading SUBSCRIBE: the topics come back in order, whatever follows the packet in the buffer.
use mqtt_server_go.Prelude.{
  ℕ, zero, suc, pos, ◌+◌, ◌<◌, ◌≤◌, ◌≡◌, refl, ap, sym, ◌∙◌, arith, true, List, [], ◌∷◌, ◌++◌,
  append-nil, append_assoc, map, bit_and, Bytes, length, All, length-append, ok, slice, slice_front,
  slice_advance, length-slice, index_at-slice, ◌==◌, ==_iff, all_below, all_below_sound, le→leb,
  lt→leb, ok_pair,
}
use mqtt_server_go.ProtocolStack.Packet.{packet_type, word_bytes, mqtt_packet_read_string}
use mqtt_server_go.ProtocolStack.Packet.RemainingLength.{
  length_field, decode-length_field, max_length,
}
use mqtt_server_go.ProtocolStack.Packet.Strings.{read_string_lem}
use mqtt_server_go.ProtocolStack.Packet.Words.{read_word-slice}
use mqtt_server_go.ProtocolStack.Subscribe.{
  MqttPacketSubscribeData, read_subscription, subscribe_loop, mqtt_deserialize_subscribe,
}

-- A topic and the quality of service asked for it.
abbrev pub Subscription : Type 0
Subscription = Bytes × ℕ

unfoldable pub subscription_bytes : List Subscription → Bytes
subscription_bytes [] = []
subscription_bytes ((topic, qos) ∷ subs) =
    word_bytes (length topic) ++ (topic ++ (qos ∷ subscription_bytes subs))

unfoldable pub subscribe_bytes : ℕ → List Subscription → Bytes
subscribe_bytes id subs =
    0x82
    ∷ (length_field (2 + length (subscription_bytes subs))
        ++ (word_bytes id ++ subscription_bytes subs))

abbrev pub IsShort : Subscription → Type 0
IsShort (topic, qos) = (length topic < 256) × (qos < 4)

-- What the loop adds to the lists.
abbrev pub with_subs : MqttPacketSubscribeData → List Subscription → MqttPacketSubscribeData
with_subs s subs = record s {
  topic = s.topic ++ map (λ x. x.0) subs;
  qos = s.qos ++ map (λ x. x.1) subs;
}

qos_table : all_below 4 (λ q. bit_and q 0x03 == q) ≡ true
unfolding all_below
qos_table = refl

qos_mask : (q : ℕ) → q < 4 → bit_and q 0x03 ≡ q
qos_mask q h = (==_iff _ _).0 (all_below_sound 4 _ q qos_table h)

module _ (buf : Bytes) (len : ℕ) (topic : Bytes) (qos : ℕ) (subs : List Subscription) where
  abbrev stop : ℕ → ℕ
  stop index = index + (length topic + 2) + 1

  behind_topic :
      (index : ℕ)
      → slice buf index len ≡ ok (subscription_bytes ((topic, qos) ∷ subs))
      → slice buf (index + (length topic + 2)) len ≡ ok (qos ∷ subscription_bytes subs)
  unfolding subscription_bytes
  behind_topic index e =
      slice_advance buf index len (word_bytes (length topic) ++ topic)
        (qos ∷ subscription_bytes subs) (index + (length topic + 2))
        (e ∙ ap ok (sym (append_assoc _ topic _))) (unfold word_bytes in omega arith)

  behind_qos :
      (index : ℕ)
      → slice buf index len ≡ ok (subscription_bytes ((topic, qos) ∷ subs))
      → slice buf (stop index) len ≡ ok (subscription_bytes subs)
  behind_qos index e =
      slice_advance buf (index + (length topic + 2)) len (qos ∷ []) (subscription_bytes subs)
        (stop index) (behind_topic index e) refl

  read_subscription_lem :
      (index : ℕ) (s : MqttPacketSubscribeData)
      → IsShort (topic, qos)
      → slice buf index len ≡ ok (subscription_bytes ((topic, qos) ∷ subs))
      → read_subscription buf len index s ≡ ok (stop index, with_subs s ((topic, qos) ∷ []))
  unfolding read_subscription
  read_subscription_lem index s (short, two_bits) e = rw (
    e,
    topic_lem,
    index_at-slice buf (index + (length topic + 2)) len (behind_topic index e),
    qos_mask qos two_bits,
  )
    where
      topic_lem :
          mqtt_packet_read_string (subscription_bytes ((topic, qos) ∷ subs))
          ≡ ok (length topic + 2, topic)
      topic_lem =
          unfold subscription_bytes word_bytes in
          read_string_lem _ _ topic (qos ∷ subscription_bytes subs) (omega arith)

with_subs-nil : (s : MqttPacketSubscribeData) → with_subs s [] ≡ s
with_subs-nil s = rw (append-nil s.topic, append-nil s.qos)

with_subs-append :
    (s : MqttPacketSubscribeData) (x : Subscription) (subs : List Subscription)
    → with_subs (with_subs s (x ∷ [])) subs ≡ with_subs s (x ∷ subs)
with_subs-append s x subs = simp append_assoc

subscribe_loop_lem :
    (subs : List Subscription) (fuel : ℕ) (buf : Bytes) (len index n : ℕ)
    (s : MqttPacketSubscribeData)
    → All IsShort subs
    → length subs < fuel
    → slice buf index len ≡ ok (subscription_bytes subs)
    → subscribe_loop fuel buf len index n s ≡ ok (pos (n + length subs), with_subs s subs)
unfolding subscribe_loop
subscribe_loop_lem subs zero buf len index n s short enough e = absurd (omega arith)
subscribe_loop_lem [] (suc fuel) buf len index n s short enough e =
    rw (le→leb len index (unfold subscription_bytes in omega (arith, length-slice buf index len e)))
      (ok_pair (ap pos (omega arith)) (sym (with_subs-nil s)))
subscribe_loop_lem ((topic, qos) ∷ subs) (suc fuel) buf len index n s short enough e =
    rw
      (
        lt→leb len index
            (unfold subscription_bytes word_bytes in omega (arith, length-slice buf index len e)),
        read_subscription_lem buf len topic qos subs index s short.0 e,
      )
      (subscribe_loop_lem subs fuel buf len (stop buf len topic qos subs index) (n + 1) _ short.1
          (omega arith) (behind_qos buf len topic qos subs index e)
        ∙ ok_pair (ap pos (omega arith)) (with_subs-append s (topic, qos) subs))

length-subs-le : (subs : List Subscription) → length subs ≤ length (subscription_bytes subs)
unfolding subscription_bytes word_bytes
length-subs-le [] = omega arith
length-subs-le ((topic, qos) ∷ subs) =
    omega (arith, length-subs-le subs, length-append topic (qos ∷ subscription_bytes subs))

-- For a SUBSCRIBE packet with topics below 256 bytes and qualities of two bits: the reader returns the
-- number of topics, the packet id, and the topics with their qualities in order, behind those that
-- its lists held, whatever follows the packet in the buffer.
pub deserialize_subscribe-bytes :
    (id : ℕ) (subs : List Subscription) (s : MqttPacketSubscribeData) (junk : Bytes)
    → id < 65536
    → 2 + length (subscription_bytes subs) < max_length
    → All IsShort subs
    → mqtt_deserialize_subscribe s
        (subscribe_bytes id subs ++ junk)
        (length (subscribe_bytes id subs))
      ≡ ok (pos (length subs), with_subs (record s { dup = 0; packet_id = id }) subs)
unfolding mqtt_deserialize_subscribe packet_type
deserialize_subscribe-bytes id subs s junk fits small short =
    rw
      (
        index_at-slice buf 0 len whole,
        behind_header,
        decode-length_field (2 + length (subscription_bytes subs)) 0 _ small,
        read_word-slice buf index len id (subscription_bytes subs) fits behind_length,
      )
      (subscribe_loop_lem subs (len + 1) buf len (index + 2) 0 _ short enough behind_id
        ∙ ok_pair (ap pos (omega arith)) refl)
  where
    buf : Bytes
    buf = subscribe_bytes id subs ++ junk

    len : ℕ
    len = length (subscribe_bytes id subs)

    index : ℕ
    index = 1 + length (length_field (2 + length (subscription_bytes subs)))

    rest : Bytes
    rest = word_bytes id ++ subscription_bytes subs

    whole :
        slice buf 0 len ≡ ok (0x82 ∷ (length_field (2 + length (subscription_bytes subs)) ++ rest))
    whole = unfold subscribe_bytes in slice_front (subscribe_bytes id subs) junk

    behind_header :
        slice buf 1 len ≡ ok (length_field (2 + length (subscription_bytes subs)) ++ rest)
    behind_header = slice_advance buf 0 len (0x82 ∷ []) _ 1 whole refl

    behind_length : slice buf index len ≡ ok rest
    behind_length =
        slice_advance buf 1 len (length_field (2 + length (subscription_bytes subs))) rest index
          behind_header refl

    behind_id : slice buf (index + 2) len ≡ ok (subscription_bytes subs)
    behind_id =
        slice_advance buf index len (word_bytes id) (subscription_bytes subs) (index + 2)
          behind_length (unfold word_bytes in refl)

    enough : length subs < len + 1
    enough = omega (arith, length-subs-le subs, length-slice buf (index + 2) len behind_id)
