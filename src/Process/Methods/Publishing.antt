-- ===== src/Process/Methods/Publishing.antt =====
-- A PUBLISH packet of a client that is logged in: what is acknowledged and to whom it goes.
use mqtt_server_go.Prelude.{
  ℕ, ◌<◌, ◌≡◌, refl, ap, arith, inl, inr, true, false, Bool-cases, List, [], ◌∷◌, ◌++◌,
  append_assoc, Bytes, length, get_elem?, some, Outcome, ok, ltb, ◌==◌, if◌then◌else◌,
}
use mqtt_server_go.ProtocolStack.PacketType.{puback, pubrec}
use mqtt_server_go.ProtocolStack.Packet.{word_bytes}
use mqtt_server_go.ProtocolStack.Publish.{
  MqttPacketPublishData, zero_publish, mqtt_seserialize_puback, mqtt_seserialize_pubrec,
}
use mqtt_server_go.ProtocolStack.Publish.Layout.{Fits, publish_bytes}
use mqtt_server_go.ProtocolStack.Publish.RoundTrip.{read_id, deserialize_publish-bytes}
use mqtt_server_go.ProtocolStack.Publish.Acks.{Fits as AckFits, ack_bytes, seserialize_ack-bytes}
use mqtt_server_go.Cluster.Message.{publish_data, cluster_public_msg, msg_client_publish}
use mqtt_server_go.Process.Server.{
  MqttClientInfo, Server, Effect, write, to_dispatch, to_cluster, load, emit,
}
use mqtt_server_go.Process.Handlers.{cluster_msg}
use mqtt_server_go.Process.Methods.{publish_ack, process_publish}

-- The message as it was read: one of quality 0 has packet id 0.
abbrev pub read_back : MqttPacketPublishData → MqttPacketPublishData
read_back p = record p { packet_id = read_id p zero_publish }

-- The acknowledgement by the quality
abbrev pub acknowledged : ℕ → MqttPacketPublishData → Bytes
acknowledged qos p =
    if qos == 1 then ack_bytes puback p else if qos == 2 then ack_bytes pubrec p else []

publish_ack_lem :
    (p : MqttPacketPublishData)
    → AckFits p
    → (n : ℕ) × (publish_ack p ≡ ok (n, acknowledged p.qos p))
unfolding publish_ack mqtt_seserialize_puback mqtt_seserialize_pubrec
publish_ack_lem p f = elim (Bool-cases (p.qos == 1)) [
  | inl one ↦ (4, rw (one, seserialize_ack-bytes [] puback p (omega arith) f) refl)
  | inr more ↦ elim (Bool-cases (p.qos == 2)) [
    | inl two ↦ (4, rw (more, two, seserialize_ack-bytes [] pubrec p (omega arith) f) refl)
    | inr other ↦ (0, rw (more, other) refl)
  ]
]

-- What the packet sends, in order
abbrev pub forwarded : MqttClientInfo → MqttPacketPublishData → List Effect
forwarded c p =
    to_dispatch
      (record { msg_type = msg_client_publish; msg_from = c.client_id; msg_body = publish_data p })
    ∷ ((if p.qos == 1
          then write c.conn (ack_bytes puback p) ∷ []
          else if p.qos == 2
          then write c.conn (ack_bytes pubrec p) ∷ []
          else [])
        ++ (if ltb p.qos 2
            then to_cluster (cluster_msg cluster_public_msg (publish_data p)) ∷ []
            else []))

leaves :
    (s : Server) {trace trace' : List Effect}
    → trace ≡ trace'
    → ◌≡◌ {A = Outcome (Unit {0} × Server)}
        (ok (tt, record s { trace = trace }))
        (ok (tt, record s { trace = trace' }))
leaves s e = ap (λ (t : List Effect). ok (tt, record s { trace = t })) e

-- For a client that is logged in and the packet of a message whose fields fit and whose topic is below
-- 256 bytes, whatever follows it in the buffer: the message goes to the dispatcher once; the client gets
-- a PUBACK with the packet id for quality 1, a PUBREC for quality 2, and nothing else; the message goes
-- to the other nodes at once only below quality 2; and no record changes.
pub process_publish_lem :
    (a : ℕ) (p : MqttPacketPublishData) (junk : Bytes) (s : Server) {c : MqttClientInfo}
    → get_elem? s.heap a ≡ some c
    → (c.login_success == 1) ≡ true
    → Fits p
    → length p.topic < 256
    → process_publish a (publish_bytes p ++ junk) (length (publish_bytes p)) s
      ≡ ok (tt, record s { trace = s.trace ++ forwarded c (read_back p) })
unfolding process_publish load emit word_bytes
process_publish_lem a p junk s {c} there online f short =
    let (n, ack) = publish_ack_lem (read_back p) ack_fits in
    rw (there, online, deserialize_publish-bytes p zero_publish junk f short, ack)
      (elim (Bool-cases (p.qos == 1)) [
        | inl one ↦
            let below : ltb p.qos 2 ≡ true = ground (arith, one) in
            rw (one, below) (leaves s (simp append_assoc))
        | inr more ↦ elim (Bool-cases (p.qos == 2)) [
          | inl two ↦
              let below : ltb p.qos 2 ≡ false = ground (arith, two) in
              rw (more, two, below) (leaves s (simp append_assoc))
          | inr other ↦ elim (Bool-cases (ltb p.qos 2)) [
            | inl below ↦ rw (more, other, below) (leaves s (simp append_assoc))
            | inr above ↦ rw (more, other, above) refl
          ]
        ]
      ])
  where
    ack_fits : AckFits (read_back p)
    ack_fits = record {
      dup_fits = f.dup_fits;
      retained_fits = f.retained_fits;
      packet_id_fits = ground (arith, f.packet_id_fits);
    }
