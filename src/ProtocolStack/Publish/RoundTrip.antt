-- ===== src/ProtocolStack/Publish/RoundTrip.antt =====
-- Reading PUBLISH: what the deserialiser makes of the protocol's bytes, followed by anything.
use mqtt_server_go.Prelude.{
  ℕ, pos, ◌+◌, ◌%◌, ◌/◌, ◌<◌, ◌≡◌, refl, ap, ◌∙◌, sym, arith, false, inl, inr, [], ◌∷◌, ◌++◌,
  append_assoc, Bytes, length, ok, ◌>>=◌, ltb, le→ltb, if◌then◌else◌, Bool-cases, take, drop, slice,
  slice_front, slice_advance, index_at-slice, append-nil, take-append-drop, length-take,
}
use mqtt_server_go.ProtocolStack.Packet.{word_bytes, mqtt_packet_read_string}
use mqtt_server_go.ProtocolStack.Packet.RemainingLength.{length_field, decode-length_field}
use mqtt_server_go.ProtocolStack.Packet.Strings.{read_string_lem}
use mqtt_server_go.ProtocolStack.Packet.Words.{read_word-slice}
use mqtt_server_go.ProtocolStack.Publish.{
  MqttPacketPublishData, read_packet_id, deserialize_publish_fields, mqtt_deserialize_publish,
  mqtt_seserialize_publish,
}
use mqtt_server_go.ProtocolStack.Publish.Header.{header_byte, header_fields}
use mqtt_server_go.ProtocolStack.Publish.Layout.{
  Fits, id_field, id_field_sent, id_field_absent, remaining, publish_body, publish_bytes,
  seserialize_publish-bytes,
}

module _ (p : MqttPacketPublishData) (junk : Bytes) (f : Fits p) where
  abbrev buf : Bytes
  buf = publish_bytes p ++ junk

  abbrev len : ℕ
  len = length (publish_bytes p)

  abbrev field_end : ℕ
  field_end = 1 + length (length_field (remaining p))

  whole :
      slice buf 0 len
      ≡ ok (header_byte p.dup p.qos p.retained ∷ (length_field (remaining p) ++ publish_body p))
  unfolding publish_bytes
  whole = slice_front (publish_bytes p) junk

  behind_header : slice buf 1 len ≡ ok (length_field (remaining p) ++ publish_body p)
  behind_header = slice_advance buf 0 len (header_byte p.dup p.qos p.retained ∷ []) _ 1 whole refl

  behind_length : slice buf field_end len ≡ ok (publish_body p)
  behind_length =
      slice_advance buf 1 len (length_field (remaining p)) (publish_body p) field_end behind_header
        refl

  abbrev behind_topic : Bytes
  behind_topic = id_field p ++ p.payload

  -- The topic's bytes up to the length that is read, and those that are not.
  topic_lem :
      (read left : Bytes)
      → p.topic ≡ read ++ left
      → length p.topic % 256 ≡ length read
      → mqtt_packet_read_string (publish_body p) ≡ ok (length read + 2, read)
  unfolding publish_body word_bytes
  topic_lem read left e short =
      let n = length p.topic in
      ap (λ (t : Bytes). mqtt_packet_read_string (n / 256 % 256 ∷ n % 256 % 256 ∷ t))
        (ap (λ (t : Bytes). t ++ behind_topic) e ∙ append_assoc read left behind_topic)
      ∙ read_string_lem (n / 256 % 256) (n % 256 % 256) read (left ++ behind_topic) (omega arith)

  behind_read :
      (read left : Bytes) (stop : ℕ)
      → p.topic ≡ read ++ left
      → stop ≡ field_end + (length read + 2)
      → slice buf stop len ≡ ok (left ++ behind_topic)
  unfolding publish_body
  behind_read read left stop e n =
      slice_advance buf field_end len (word_bytes (length p.topic) ++ read) (left ++ behind_topic)
        stop
        (behind_length
          ∙ ap ok (
              ap (λ (t : Bytes). word_bytes (length p.topic) ++ (t ++ behind_topic)) e
              ∙ simp append_assoc))
        (unfold word_bytes in omega arith)

  fields_lem :
      (old : MqttPacketPublishData) (read left payload : Bytes) (id stop : ℕ)
      → p.topic ≡ read ++ left
      → length p.topic % 256 ≡ length read
      → read_packet_id p.qos old.packet_id buf (field_end + (length read + 2)) ≡ ok (stop, id)
      → slice buf stop len ≡ ok payload
      → mqtt_deserialize_publish old buf len
        ≡ ok (pos 0, record p { packet_id = id; topic = read; payload = payload })
  unfolding mqtt_deserialize_publish deserialize_publish_fields
  fields_lem old read left payload id stop e short ids rest =
      let (_, type, dup, qos, retained) =
        header_fields p.dup p.qos p.retained f.dup_fits f.qos_fits f.retained_fits in
      rw (
        index_at-slice buf 0 len whole,
        type,
        behind_header,
        decode-length_field (remaining p) 0 (publish_body p) f.remaining_fits,
        behind_length,
        topic_lem read left e short,
        qos,
        ids,
        rest,
        dup,
        retained,
      )

-- The packet id that a reader ends with: it keeps its own where the packet has none.
abbrev pub read_id : MqttPacketPublishData → MqttPacketPublishData → ℕ
read_id p old = if ltb 0 p.qos then p.packet_id else old.packet_id

-- With a topic below 256 bytes, the fields come back, whatever follows the packet in the buffer.
pub deserialize_publish-bytes :
    (p old : MqttPacketPublishData) (junk : Bytes)
    → Fits p
    → length p.topic < 256
    → mqtt_deserialize_publish old (publish_bytes p ++ junk) (length (publish_bytes p))
      ≡ ok (pos 0, record p { packet_id = read_id p old })
unfolding read_packet_id
deserialize_publish-bytes p old junk f short = elim (Bool-cases (ltb 0 p.qos)) [
  | inl e ↦
      let here : slice (publish_bytes p ++ junk) start (length (publish_bytes p))
          ≡ ok (word_bytes p.packet_id ++ p.payload) =
        at_ids ∙ ap (λ (t : Bytes). ok (t ++ p.payload)) (id_field_sent p e) in
      rw e (
        fields_lem p junk f old p.topic [] p.payload p.packet_id (start + 2) all low
          (rw (e, read_word-slice _ start _ p.packet_id p.payload f.packet_id_fits here))
          (slice_advance _ start _ (word_bytes p.packet_id) p.payload (start + 2) here
            (unfold word_bytes in refl)))
  | inr e ↦ rw e (
      fields_lem p junk f old p.topic [] p.payload old.packet_id start all low (rw e)
        (at_ids ∙ ap (λ (t : Bytes). ok (t ++ p.payload)) (id_field_absent p e)))
]
  where
    start : ℕ
    start = 1 + length (length_field (remaining p)) + (length p.topic + 2)

    all : p.topic ≡ p.topic ++ []
    all = sym (append-nil p.topic)

    low : length p.topic % 256 ≡ length p.topic
    low = omega arith

    at_ids :
        slice (publish_bytes p ++ junk) start (length (publish_bytes p))
        ≡ ok (id_field p ++ p.payload)
    at_ids = behind_read p junk f p.topic [] start all refl

-- For a message of quality 0 whose fields fit their packet, a topic of any length is read up to its
-- length modulo 256, as the high byte of the length is shifted out of a byte; the rest of the topic
-- becomes the front of the payload.
pub deserialize_publish_cut :
    (p old : MqttPacketPublishData) (junk : Bytes)
    → Fits p
    → p.qos ≡ 0
    → mqtt_deserialize_publish old (publish_bytes p ++ junk) (length (publish_bytes p))
      ≡ ok (
        pos 0,
        record p {
          packet_id = old.packet_id;
          topic = take (length p.topic % 256) p.topic;
          payload = drop (length p.topic % 256) p.topic ++ p.payload;
        },
      )
unfolding read_packet_id
deserialize_publish_cut p old junk f q =
    fields_lem p junk f old read left (left ++ p.payload) old.packet_id start all low (rw none_sent)
      (behind_read p junk f read left start all refl
        ∙ ap (λ (t : Bytes). ok (left ++ (t ++ p.payload))) (id_field_absent p none_sent))
  where
    read : Bytes
    read = take (length p.topic % 256) p.topic

    left : Bytes
    left = drop (length p.topic % 256) p.topic

    start : ℕ
    start = 1 + length (length_field (remaining p)) + (length read + 2)

    all : p.topic ≡ read ++ left
    all = sym (take-append-drop (length p.topic % 256) p.topic)

    low : length p.topic % 256 ≡ length read
    low = omega (arith, length-take (length p.topic % 256) p.topic)

    none_sent : ltb 0 p.qos ≡ false
    none_sent = le→ltb 0 p.qos (omega arith)

-- For a message whose fields fit their packet and whose topic is below 256 bytes: the packet that is
-- written is read back to the same message, whatever follows it in the buffer; a message of quality 0
-- has no packet id in its packet, and the reader keeps the id that it had.
pub deserialize-seserialize_publish :
    (p old : MqttPacketPublishData) (junk : Bytes)
    → Fits p
    → length p.topic < 256
    → (mqtt_seserialize_publish p [] >>= λ (n, out). mqtt_deserialize_publish old (out ++ junk) n)
      ≡ ok (pos 0, record p { packet_id = read_id p old })
deserialize-seserialize_publish p old junk f short =
    rw (seserialize_publish-bytes p [] f) (deserialize_publish-bytes p old junk f short)
