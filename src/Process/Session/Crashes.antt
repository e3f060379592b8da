-- ===== src/Process/Session/Crashes.antt =====
-- A connection without a login: `mqttClientData` is nil, and the routine panics, which ends the
-- process with every other connection.
use mqtt_server_go.Prelude.{
  ℕ, ℤ, pos, ◌+◌, ◌≡◌, ◌≢◌, refl, ap, inl, inr, true, false, Bool, ◌||◌, Bool-cases, arith, List,
  [], ◌∷◌, ◌++◌, append_assoc, Bytes, bytes_beq, none, Outcome, ok, panic, stuck, ◌==◌,
  >>=-ne-stuck, index_at, slice, index_at-ne-stuck, slice-ne-stuck, ok-ne-stuck,
}
use mqtt_server_go.ProtocolStack.PacketType.{
  connect, publish, puback, pubrec, pubrel, pubcomp, subscribe, unsubscribe, pingreq, disconnect,
}
use mqtt_server_go.ProtocolStack.Packet.{
  mqtt_packet_decode, mqtt_packet_parse_fix_header, packet_type, read_word,
}
use mqtt_server_go.ProtocolStack.Packet.Endings.{decode-ne-stuck, read_word-ne-stuck}
use mqtt_server_go.ProtocolStack.Connect.{
  MqttPacketConnectData, zero_connect, mqtt_deserialize_connect,
}
use mqtt_server_go.ProtocolStack.Connect.Connack.{seserialize_connack-bytes}
use mqtt_server_go.ProtocolStack.Publish.{
  MqttPacketPublishData, zero_publish, mqtt_deserialize_ack, deserialize_ack_as,
  mqtt_deserialize_puback, mqtt_deserialize_pubrec, mqtt_deserialize_pubrel,
  mqtt_deserialize_pubcomp,
}
use mqtt_server_go.Cluster.Message.{
  msg_client_puback, msg_client_pubrec, msg_client_pubrel, msg_client_pubcomp,
}
use mqtt_server_go.Process.Server.{M, lift, ◌>>=◌, Server, Effect, close, write, emit}
use mqtt_server_go.Process.Methods.{process_ack}
use mqtt_server_go.Process.Session.{
  process_connect, process_ping, process_packet, process_type, process_read, client_exit,
  client_process, Read, failed, got,
}

-- Return code 4.
abbrev pub refused_connack : Bytes
refused_connack = 0x20 ∷ 2 ∷ 1 ∷ 4 ∷ []

-- The packet types that the switch handles behind CONNECT.
abbrev pub is_handled : ℕ → Bool
is_handled t =
    t == disconnect
    || t == subscribe
    || t == unsubscribe
    || t == publish
    || t == puback
    || t == pubrec
    || t == pubrel
    || t == pubcomp
    || t == pingreq

deserialize_ack-ne-stuck :
    (t : ℕ) (p : MqttPacketPublishData) (buf : Bytes) (len : ℕ)
    → deserialize_ack_as t p buf len ≢ stuck
unfolding deserialize_ack_as mqtt_deserialize_ack
deserialize_ack-ne-stuck t p buf len =
    >>=-ne-stuck (mqtt_deserialize_ack buf len t p.packet_id) _
      (>>=-ne-stuck (index_at buf 0) _ (index_at-ne-stuck buf 0) λ header _.
        elim (Bool-cases (packet_type header == t)) [
          | inl is ↦ rw is (
              >>=-ne-stuck (slice buf 1 len) _ (slice-ne-stuck buf 1 len) λ left _.
                >>=-ne-stuck (mqtt_packet_decode left 0) _ (decode-ne-stuck left 0) λ r _.
                  >>=-ne-stuck (read_word buf (1 + r.0)) _ (read_word-ne-stuck buf (1 + r.0))
                    λ id _. ok-ne-stuck _)
          | inr other ↦ rw other (ok-ne-stuck _)
        ])
      λ r _. ok-ne-stuck _

lift_panic :
    {A B : Type 0} (o : Outcome A) (k : A → M B) (s : Server)
    → o ≢ stuck
    → ((a : A) → k a s ≡ panic)
    → (lift o >>= k) s ≡ panic
lift_panic (ok a) k s h e = e a
lift_panic panic k s h e = refl
lift_panic stuck k s h e = absurd (h refl)

-- An acknowledgement is parsed first; either step panics.
process_ack-nil :
    (t msg_type : ℕ) (buf : Bytes) (num : ℕ) (s : Server)
    → process_ack (deserialize_ack_as t) msg_type none buf num s ≡ panic
unfolding process_ack
process_ack-nil t msg_type buf num s =
    lift_panic (deserialize_ack_as t zero_publish buf num) _ s
      (deserialize_ack-ne-stuck t zero_publish buf num) λ r. refl

-- Every packet that the switch handles, but CONNECT, panics before a login.
pub process_packet-nil :
    (t conn : ℕ) (buf : Bytes) (num : ℕ) (s : Server)
    → is_handled t ≡ true
    → process_packet t conn none buf num s ≡ panic
unfolding process_packet process_ping mqtt_deserialize_puback mqtt_deserialize_pubrec
    mqtt_deserialize_pubrel mqtt_deserialize_pubcomp
process_packet-nil t conn buf num s h = ground (
  arith,
  process_ack-nil puback msg_client_puback buf num s,
  process_ack-nil pubrec msg_client_pubrec buf num s,
  process_ack-nil pubrel msg_client_pubrel buf num s,
  process_ack-nil pubcomp msg_client_pubcomp buf num s,
)

process_type-nil :
    (t conn : ℕ) (buf : Bytes) (num : ℕ) (s : Server)
    → is_handled t ≡ true
    → process_type (pos t) conn none buf num s ≡ panic
unfolding process_type
process_type-nil t conn buf num s h =
    let other : (t == connect) ≡ false = ground arith in
    rw (other, process_packet-nil t conn buf num s h)

-- A packet of any type that the switch handles, but CONNECT, makes the routine panic when the
-- connection has had no login, which ends the process with all its connections.
pub process_read-nil :
    (t conn len : ℕ) (buf : Bytes) (num : ℕ) (s : Server)
    → mqtt_packet_parse_fix_header buf ≡ ok (pos t, len)
    → is_handled t ≡ true
    → process_read conn none buf num s ≡ panic
unfolding process_read
process_read-nil t conn len buf num s e h = rw (e, process_type-nil t conn buf num s h)

-- A connection that ends before a login.
pub client_exit-nil : (conn : ℕ) (s : Server) → client_exit conn none s ≡ panic
unfolding client_exit
client_exit-nil conn s = refl

-- A first login that is refused, because the name and the password differ, is answered with return
-- code 4 and the connection is closed, and when the next read of the connection fails, the routine
-- panics, which ends the process.
pub refused_login :
    (conn num len : ℕ) (buf : Bytes) (ret : ℤ) (d : MqttPacketConnectData) (reads : List Read)
    (s : Server)
    → mqtt_packet_parse_fix_header buf ≡ ok (pos connect, len)
    → mqtt_deserialize_connect zero_connect buf num ≡ ok (ret, d)
    → bytes_beq d.username d.password ≡ false
    → (process_read conn none buf num s
        ≡ ok (none, record s { trace = s.trace ++ write conn refused_connack ∷ close conn ∷ [] }))
      × (client_process conn none (got buf num ∷ failed ∷ reads) s ≡ panic)
unfolding client_process
refused_login conn num len buf ret d reads s e parsed differ =
    (answer, rw (answer, client_exit-nil))
  where
    answer :
        process_read conn none buf num s
        ≡ ok (none, record s { trace = s.trace ++ write conn refused_connack ∷ close conn ∷ [] })
    answer =
        unfold process_read process_type process_connect emit in
        rw (e, parsed, seserialize_connack-bytes d [], differ)
          (ap (λ (t : List Effect). ok (none, record s { trace = t })) (append_assoc s.trace _ _))
