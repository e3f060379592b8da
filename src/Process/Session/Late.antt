-- ===== src/Process/Session/Late.antt =====
-- Acknowledgements on a connection whose client was deleted by the end of another connection.
use mqtt_server_go.Prelude.{
  ℕ, pos, ◌<◌, ◌≡◌, refl, ap, arith, true, [], ◌∷◌, ◌++◌, List, Bytes, lookup, delete,
  lookup-delete, beq_self, bytes_eq, get_elem?, none, some, ok, panic, slice_from, index_at, ◌==◌,
  if◌then◌else◌, length, append_assoc, ==_self, shr, bit_and, le→leb, le→ltb,
}
use mqtt_server_go.ProtocolStack.PacketType.{puback, pubrec, pubrel, pubcomp, disconnect}
use mqtt_server_go.ProtocolStack.Packet.{mqtt_packet_parse_fix_header, packet_type, word_bytes}
use mqtt_server_go.ProtocolStack.Publish.{
  MqttPacketPublishData, zero_publish, deserialize_ack_as, mqtt_deserialize_ack,
  mqtt_deserialize_puback, mqtt_deserialize_pubrec, mqtt_deserialize_pubrel,
  mqtt_deserialize_pubcomp,
}
use mqtt_server_go.ProtocolStack.Publish.Acks.{
  Fits, ack_byte, ack_bytes, ack_header_lem, seserialize_ack-bytes, decode_two,
  deserialize-seserialize_ack,
}
use mqtt_server_go.Cluster.Message.{
  RoutingCommunicateMsg, text, publish_data, msg_client_del, msg_client_puback, msg_client_pubrec,
  msg_client_pubrel, msg_client_pubcomp,
}
use mqtt_server_go.Process.Server.{
  MqttClientInfo, Server, Effect, load, emit, find_client, to_dispatch, close,
}
use mqtt_server_go.Process.Methods.{process_ack}
use mqtt_server_go.Process.Handlers.{
  client_del, client_puback, client_pubrec, client_pubrel, client_pubcomp,
}
use mqtt_server_go.Process.Dispatch.{process_msg}
use mqtt_server_go.Process.Session.{process_read, process_type, process_packet, client_exit}

module _ (t : ℕ) (p : MqttPacketPublishData) (junk : Bytes) (small : t < 15) (f : Fits p) where
  abbrev packet : Bytes
  packet = ack_bytes t p ++ junk

  header_of : packet_type (ack_byte t p.dup p.retained) ≡ t
  header_of = (ack_header_lem t p.dup p.retained (omega arith) f.dup_fits f.retained_fits).1

  behind_header : slice_from packet 1 ≡ ok (2 ∷ (word_bytes p.packet_id ++ junk))
  unfolding slice_from
  behind_header = rw (le→leb 1 (length packet) (omega arith)) refl

  parsed : mqtt_packet_parse_fix_header packet ≡ ok (pos t, 2)
  unfolding mqtt_packet_parse_fix_header index_at
  parsed =
      let type : shr (bit_and (ack_byte t p.dup p.retained) 0xf0) 4 ≡ t =
        unfold packet_type in header_of in
      rw
        (
          type,
          le→ltb disconnect t (omega arith),
          behind_header,
          decode_two (word_bytes p.packet_id ++ junk),
        )
        refl

  abbrev read_id : MqttPacketPublishData
  read_id = record zero_publish { packet_id = p.packet_id }

  read_back : deserialize_ack_as t zero_publish packet 4 ≡ ok (pos 4, read_id)
  unfolding deserialize_ack_as
  read_back =
      let id : mqtt_deserialize_ack packet 4 t 0 ≡ ok (pos 4, p.packet_id) =
        rw (seserialize_ack-bytes [] t p (omega arith) f, ==_self t) at
          (deserialize-seserialize_ack t t 0 p junk (omega arith) f) in
      rw id refl

  -- What the routine of the connection makes of the packet
  process_ack_lem :
      (msg_type a : ℕ) (s : Server) {c : MqttClientInfo}
      → get_elem? s.heap a ≡ some c
      → process_ack (deserialize_ack_as t) msg_type (some a) packet 4 s
        ≡ ok (
          tt,
          record s {
            trace =
                s.trace
                ++ to_dispatch (record {
                  msg_type = msg_type;
                  msg_from = c.client_id;
                  msg_body = publish_data read_id;
                })
                  ∷ [];
          },
        )
  unfolding process_ack load emit
  process_ack_lem msg_type a s there = rw (read_back, there) refl

-- The four acknowledgements, with the types of the messages that they become
pub data IsAck : ℕ → ℕ → Type 0 where
  a_puback : IsAck puback msg_client_puback
  a_pubrec : IsAck pubrec msg_client_pubrec
  a_pubrel : IsAck pubrel msg_client_pubrel
  a_pubcomp : IsAck pubcomp msg_client_pubcomp

-- The messages to the dispatcher: for the deletion, and for an acknowledgement with a packet id
abbrev pub deletion : MqttClientInfo → RoutingCommunicateMsg
deletion c = record { msg_type = msg_client_del; msg_from = []; msg_body = text c.client_id }

abbrev pub told : MqttPacketPublishData → ℕ → MqttClientInfo → RoutingCommunicateMsg
told p msg_type c = record {
  msg_type = msg_type;
  msg_from = c.client_id;
  msg_body = publish_data (record zero_publish { packet_id = p.packet_id });
}

module _ (conn a : ℕ) (p : MqttPacketPublishData) (junk : Bytes) (f : Fits p) where
  read_lem :
      (s : Server) {c : MqttClientInfo} {t msg_type : ℕ}
      → IsAck t msg_type
      → get_elem? s.heap a ≡ some c
      → process_read conn (some a) (ack_bytes t p ++ junk) 4 s
        ≡ ok (some a, record s { trace = s.trace ++ to_dispatch (told p msg_type c) ∷ [] })
  unfolding process_read process_type process_packet mqtt_deserialize_puback mqtt_deserialize_pubrec
      mqtt_deserialize_pubrel mqtt_deserialize_pubcomp
  read_lem s a_puback there =
      rw
        (
          parsed puback p junk (omega arith) f,
          process_ack_lem puback p junk (omega arith) f msg_client_puback a s there,
        )
        refl
  read_lem s a_pubrec there =
      rw
        (
          parsed pubrec p junk (omega arith) f,
          process_ack_lem pubrec p junk (omega arith) f msg_client_pubrec a s there,
        )
        refl
  read_lem s a_pubrel there =
      rw
        (
          parsed pubrel p junk (omega arith) f,
          process_ack_lem pubrel p junk (omega arith) f msg_client_pubrel a s there,
        )
        refl
  read_lem s a_pubcomp there =
      rw
        (
          parsed pubcomp p junk (omega arith) f,
          process_ack_lem pubcomp p junk (omega arith) f msg_client_pubcomp a s there,
        )
        refl

  -- What the dispatcher makes of it when the client is gone
  dispatch_lem :
      (rand : ℕ → ℕ) (fuel : ℕ) (visit : List ℕ) (s : Server) (c : MqttClientInfo) {t msg_type : ℕ}
      → IsAck t msg_type
      → lookup c.client_id s.clients ≡ none
      → process_msg rand fuel visit (told p msg_type c) s
        ≡ (if t == pubcomp then panic else ok (tt, s))
  unfolding process_msg client_puback client_pubrec client_pubrel client_pubcomp find_client
  dispatch_lem rand fuel visit s c a_puback gone = rw gone refl
  dispatch_lem rand fuel visit s c a_pubrec gone = rw gone refl
  dispatch_lem rand fuel visit s c a_pubrel gone = rw gone refl
  dispatch_lem rand fuel visit s c a_pubcomp gone = rw gone refl

  -- For two connections that share the record of a client, as after a login on the second, where the record
  -- asks for a clear session: when the routine of the one ends, it has the dispatcher delete the client;
  -- and when the other then gets an acknowledgement whose flags and packet id fit, whatever follows it in
  -- the buffer, its routine still hands its packet id to the dispatcher. A PUBACK, a PUBREC and a PUBREL have no
  -- effect there, but a PUBCOMP makes the dispatcher panic, which ends the process.
  pub late_ack :
      (old : ℕ) (rand : ℕ → ℕ) (fuel : ℕ) (visit : List ℕ) (s : Server) {c : MqttClientInfo}
      {t msg_type : ℕ}
      → IsAck t msg_type
      → get_elem? s.heap a ≡ some c
      → c.clear_session ≡ 1
      → (s0 s1 s2 : Server) × (client_exit old (some a) s ≡ ok (tt, s0))
        × (s0.trace ≡ s.trace ++ to_dispatch (deletion c) ∷ close old ∷ [])
        × (process_msg rand fuel visit (deletion c) s0 ≡ ok (tt, s1))
        × (process_read conn (some a) (ack_bytes t p ++ junk) 4 s1 ≡ ok (some a, s2))
        × (s2.trace ≡ s1.trace ++ to_dispatch (told p msg_type c) ∷ [])
        × (process_msg rand fuel visit (told p msg_type c) s2
            ≡ (if t == pubcomp then panic else ok (tt, s2)))
  unfolding client_exit load emit process_msg client_del
  late_ack old rand fuel visit s {c} {t} {msg_type} ack there clear =
      let wishes : (c.clear_session == 1) ≡ true = rw clear refl in
      let s0 = record s { trace = s.trace ++ to_dispatch (deletion c) ∷ close old ∷ [] } in
      let s1 = record s0 { clients = delete c.client_id s.clients } in
      let s2 = record s1 { trace = s1.trace ++ to_dispatch (told p msg_type c) ∷ [] } in
      let gone : lookup c.client_id s2.clients ≡ none =
        rw (lookup-delete c.client_id c.client_id s.clients, beq_self c.client_id) refl in
      (
        s0,
        s1,
        s2,
        rw (there, wishes)
            (ap (λ (e : List Effect). ok (tt, record s { trace = e }))
              (append_assoc s.trace (to_dispatch (deletion c) ∷ []) (close old ∷ []))),
        refl,
        refl,
        read_lem s1 ack there,
        refl,
        dispatch_lem rand fuel visit s2 c ack gone,
      )
