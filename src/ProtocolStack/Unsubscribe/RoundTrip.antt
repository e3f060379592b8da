-- ===== src/ProtocolStack/Unsubscribe/RoundTrip.antt =====
-- Reading UNSUBSCRIBE, and taking its topics out of the client's table.
use mqtt_server_go.Prelude.{
  ℕ, zero, suc, pos, ◌+◌, ◌<◌, ◌≤◌, ◌≡◌, refl, ap, sym, ◌∙◌, arith, List, [], ◌∷◌, ◌++◌, append-nil,
  append_assoc, Bytes, length, All, length-append, ok, slice, slice_front, slice_advance,
  length-slice, index_at-slice, le→leb, lt→leb, ok_pair, bytes_eq,
}
use mqtt_server_go.ProtocolStack.Packet.{packet_type, word_bytes, mqtt_packet_read_string}
use mqtt_server_go.ProtocolStack.Packet.RemainingLength.{
  length_field, decode-length_field, max_length,
}
use mqtt_server_go.ProtocolStack.Packet.Strings.{read_string_lem}
use mqtt_server_go.ProtocolStack.Packet.Words.{read_word-slice}
use mqtt_server_go.ProtocolStack.Unsubscribe.{
  MqttPacketUnSubscribeData, unsubscribe_loop, mqtt_deserialize_unsubscribe,
}

unfoldable pub topics_bytes : List Bytes → Bytes
topics_bytes [] = []
topics_bytes (topic ∷ topics) = word_bytes (length topic) ++ (topic ++ topics_bytes topics)

unfoldable pub unsubscribe_bytes : ℕ → List Bytes → Bytes
unsubscribe_bytes id topics =
    0xa2
    ∷ (length_field (2 + length (topics_bytes topics)) ++ (word_bytes id ++ topics_bytes topics))

abbrev pub IsShort : Bytes → Type 0
IsShort topic = length topic < 256

abbrev pub with_topics : MqttPacketUnSubscribeData → List Bytes → MqttPacketUnSubscribeData
with_topics u topics = record u { topic = u.topic ++ topics }

topic_lem :
    (topic : Bytes) (topics : List Bytes)
    → length topic < 256
    → mqtt_packet_read_string (topics_bytes (topic ∷ topics)) ≡ ok (length topic + 2, topic)
unfolding topics_bytes word_bytes
topic_lem topic topics short = read_string_lem _ _ topic (topics_bytes topics) (omega arith)

behind_topic :
    (buf : Bytes) (len index : ℕ) (topic : Bytes) (topics : List Bytes)
    → slice buf index len ≡ ok (topics_bytes (topic ∷ topics))
    → slice buf (index + (length topic + 2)) len ≡ ok (topics_bytes topics)
unfolding topics_bytes
behind_topic buf len index topic topics e =
    slice_advance buf index len (word_bytes (length topic) ++ topic) (topics_bytes topics) _
      (e ∙ ap ok (sym (append_assoc _ topic _))) (unfold word_bytes in omega arith)

with_topics-nil : (u : MqttPacketUnSubscribeData) → with_topics u [] ≡ u
with_topics-nil u = rw (append-nil u.topic)

with_topics-append :
    (u : MqttPacketUnSubscribeData) (x : Bytes) (topics : List Bytes)
    → with_topics (with_topics u (x ∷ [])) topics ≡ with_topics u (x ∷ topics)
with_topics-append u x topics = simp append_assoc

unsubscribe_loop_lem :
    (topics : List Bytes) (fuel : ℕ) (buf : Bytes) (len index n : ℕ) (u : MqttPacketUnSubscribeData)
    → All IsShort topics
    → length topics < fuel
    → slice buf index len ≡ ok (topics_bytes topics)
    → unsubscribe_loop fuel buf len index n u ≡ ok (pos (n + length topics), with_topics u topics)
unfolding unsubscribe_loop
unsubscribe_loop_lem topics zero buf len index n u short enough e = absurd (omega arith)
unsubscribe_loop_lem [] (suc fuel) buf len index n u short enough e =
    rw (le→leb len index (unfold topics_bytes in omega (arith, length-slice buf index len e)))
      (ok_pair (ap pos (omega arith)) (sym (with_topics-nil u)))
unsubscribe_loop_lem (topic ∷ topics) (suc fuel) buf len index n u short enough e =
    rw
      (
        lt→leb len index
            (unfold topics_bytes word_bytes in omega (arith, length-slice buf index len e)),
        e,
        topic_lem topic topics short.0,
      )
      (unsubscribe_loop_lem topics fuel buf len (index + (length topic + 2)) (n + 1) _ short.1
          (omega arith) (behind_topic buf len index topic topics e)
        ∙ ok_pair (ap pos (omega arith)) (with_topics-append u topic topics))

length-topics-le : (topics : List Bytes) → length topics ≤ length (topics_bytes topics)
unfolding topics_bytes word_bytes
length-topics-le [] = omega arith
length-topics-le (topic ∷ topics) =
    omega (arith, length-topics-le topics, length-append topic (topics_bytes topics))

module _ (id : ℕ) (topics : List Bytes) (junk : Bytes) where
  abbrev buf : Bytes
  buf = unsubscribe_bytes id topics ++ junk

  abbrev len : ℕ
  len = length (unsubscribe_bytes id topics)

  abbrev remaining : ℕ
  remaining = 2 + length (topics_bytes topics)

  abbrev index : ℕ
  index = 1 + length (length_field remaining)

  abbrev rest : Bytes
  rest = word_bytes id ++ topics_bytes topics

  whole : slice buf 0 len ≡ ok (0xa2 ∷ (length_field remaining ++ rest))
  unfolding unsubscribe_bytes
  whole = slice_front (unsubscribe_bytes id topics) junk

  behind_header : slice buf 1 len ≡ ok (length_field remaining ++ rest)
  behind_header = slice_advance buf 0 len (0xa2 ∷ []) _ 1 whole refl

  behind_length : slice buf index len ≡ ok rest
  behind_length = slice_advance buf 1 len (length_field remaining) rest index behind_header refl

  behind_id : slice buf (index + 2) len ≡ ok (topics_bytes topics)
  behind_id =
      slice_advance buf index len (word_bytes id) (topics_bytes topics) (index + 2) behind_length
        (unfold word_bytes in refl)

  enough : length topics < len + 1
  enough = omega (arith, length-topics-le topics, length-slice buf (index + 2) len behind_id)

  -- For an UNSUBSCRIBE packet with topics below 256 bytes: the reader returns the number of topics,
  -- the packet id, and the topics in order, behind those that its list held, whatever follows the
  -- packet in the buffer.
  pub deserialize_unsubscribe-bytes :
      (u : MqttPacketUnSubscribeData)
      → id < 65536
      → 2 + length (topics_bytes topics) < max_length
      → All IsShort topics
      → mqtt_deserialize_unsubscribe u
          (unsubscribe_bytes id topics ++ junk)
          (length (unsubscribe_bytes id topics))
        ≡ ok (pos (length topics), with_topics (record u { packet_id = id }) topics)
  unfolding mqtt_deserialize_unsubscribe packet_type
  deserialize_unsubscribe-bytes u fits small short =
      rw
        (
          index_at-slice buf 0 len whole,
          behind_header,
          decode-length_field remaining 0 _ small,
          read_word-slice buf index len id (topics_bytes topics) fits behind_length,
        )
        (unsubscribe_loop_lem topics (len + 1) buf len (index + 2) 0 _ short enough behind_id
          ∙ ok_pair (ap pos (omega arith)) refl)
