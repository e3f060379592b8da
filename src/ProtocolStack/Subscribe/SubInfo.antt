-- ===== src/ProtocolStack/Subscribe/SubInfo.antt =====
-- SUBACK and the client's table of topics.
use mqtt_server_go.Prelude.{
  ℕ, pos, ◌+◌, ◌<◌, ◌≡◌, refl, ap, sym, ◌∙◌, arith, List, [], ◌∷◌, ◌++◌, append-nil, append_assoc,
  Bytes, length, length-append, ok, Option, some, Map, lookup, insert, bytes_eq, bytes_beq,
  lookup-insert, if◌then◌else◌, ok_pair, index_at-append,
}
use mqtt_server_go.ProtocolStack.Packet.{word_bytes}
use mqtt_server_go.ProtocolStack.Packet.RemainingLength.{
  length_field, append_length_lem, max_length,
}
use mqtt_server_go.ProtocolStack.Subscribe.{
  MqttPacketSubscribeData, suback_loop, mqtt_seserialize_suback, get_sub_info_loop,
  mqtt_get_sub_info,
}

-- The loop copies the rest of the list.
suback_loop_lem :
    (done left : List ℕ) (out : Bytes) (i : ℕ)
    → i ≡ length done
    → suback_loop (length left) i (done ++ left) out ≡ ok (out ++ left)
unfolding suback_loop
suback_loop_lem done [] out i e = ap ok (sym (append-nil out))
suback_loop_lem done (q ∷ left) out i e = rw (index_at-append done left q i e) (
    ap (λ (qs : List ℕ). suback_loop (length left) (i + 1) qs (out ++ q ∷ []))
      (sym (append_assoc done (q ∷ []) left))
    ∙ suback_loop_lem (done ++ q ∷ []) left (out ++ q ∷ []) (i + 1)
        (omega (arith, length-append done (q ∷ [])))
    ∙ ap ok (append_assoc out (q ∷ []) left))

-- For as many topics as a packet can have: a SUBACK has one return code for each quality that was
-- asked for, in their order, behind the packet id.
pub seserialize_suback-bytes :
    (s : MqttPacketSubscribeData) (out : Bytes)
    → 2 + length s.qos < max_length
    → mqtt_seserialize_suback s out (pos (length s.qos))
      ≡ ok (
        1 + length (length_field (2 + length s.qos)) + 2 + length s.qos,
        out ++ (0x90 ∷ (length_field (2 + length s.qos) ++ (word_bytes s.packet_id ++ s.qos))),
      )
unfolding mqtt_seserialize_suback
seserialize_suback-bytes s out small =
    rw
      (
        append_length_lem (out ++ 0x90 ∷ []) (2 + length s.qos) small,
        suback_loop_lem [] s.qos _ 0 refl,
      )
      (ok_pair refl (simp append_assoc))

-- The value of a topic after a list of assignments: the last one for it, or what was there.
unfoldable pub last_value : Bytes → List Bytes → List ℕ → Option ℕ → Option ℕ
last_value t [] qos old = old
last_value t (x ∷ topic) [] old = old
last_value t (x ∷ topic) (q ∷ qos) old =
    last_value t topic qos (if bytes_beq x t then some q else old)

-- The table after a list of assignments.
unfoldable pub assign : List Bytes → List ℕ → Map Bytes ℕ → Map Bytes ℕ
assign [] qos info = info
assign (x ∷ topic) [] info = info
assign (x ∷ topic) (q ∷ qos) info = assign topic qos (insert x q info)

lookup-assign :
    (t : Bytes) (topic : List Bytes) (qos : List ℕ) (info : Map Bytes ℕ)
    → lookup t (assign topic qos info) ≡ last_value t topic qos (lookup t info)
unfolding assign last_value
lookup-assign t [] qos info = refl
lookup-assign t (x ∷ topic) [] info = refl
lookup-assign t (x ∷ topic) (q ∷ qos) info =
    lookup-assign t topic qos (insert x q info)
    ∙ ap (last_value t topic qos) (lookup-insert x t q info)

get_sub_info_loop_lem :
    (topic : List Bytes) (done left : List ℕ) (i : ℕ) (info : Map Bytes ℕ)
    → i ≡ length done
    → length topic ≡ length left
    → get_sub_info_loop topic i (done ++ left) info ≡ ok (assign topic left info)
unfolding get_sub_info_loop assign
get_sub_info_loop_lem [] done left i info e h = refl
get_sub_info_loop_lem (x ∷ topic) done [] i info e h = absurd (omega arith)
get_sub_info_loop_lem (x ∷ topic) done (q ∷ left) i info e h =
    rw (index_at-append done left q i e) (
      ap (λ (qs : List ℕ). get_sub_info_loop topic (i + 1) qs (insert x q info))
        (sym (append_assoc done (q ∷ []) left))
      ∙ get_sub_info_loop_lem topic (done ++ q ∷ []) left (i + 1) (insert x q info)
          (omega (arith, length-append done (q ∷ []))) (omega arith))

-- For a packet with as many qualities as topics: the client's table is updated without a panic, each
-- topic of the packet has in it the quality that the packet names last for it, and every other topic
-- keeps what it had.
pub lookup-get_sub_info :
    (s : MqttPacketSubscribeData) (info : Map Bytes ℕ)
    → length s.topic ≡ length s.qos
    → (after : Map Bytes ℕ) × (mqtt_get_sub_info s info ≡ ok after)
      × ((t : Bytes) → lookup t after ≡ last_value t s.topic s.qos (lookup t info))
unfolding mqtt_get_sub_info
lookup-get_sub_info s info h = (
  assign s.topic s.qos info,
  get_sub_info_loop_lem s.topic [] s.qos 0 info refl h,
  λ t. lookup-assign t s.topic s.qos info,
)
