-- ===== src/Process/Handlers/Exchange.antt =====
-- The end of the exchange with a subscriber for a message of quality 2.
use mqtt_server_go.Prelude.{
  ℕ, ◌≡◌, refl, ap, arith, true, false, List, [], ◌∷◌, ◌++◌, Bytes, Map, lookup, insert, delete,
  lookup-insert, lookup-delete, nat_eq, bytes_eq, none, some, ok, get_elem?, set, set-set,
  get_elem?-set_self, ◌==◌, ==_self,
}
use mqtt_server_go.ProtocolStack.PacketType.{pubrec, pubrel, pubcomp, none_type}
use mqtt_server_go.ProtocolStack.Publish.{MqttPacketPublishData, mqtt_seserialize_pubrel}
use mqtt_server_go.ProtocolStack.Publish.Acks.{Fits, ack_bytes, seserialize_ack-bytes}
use mqtt_server_go.Cluster.Message.{publish_data}
use mqtt_server_go.Process.Server.{
  MqttClientInfo, Server, Effect, ◌>>◌, find_client, load, store, emit, write,
}
use mqtt_server_go.Process.Handlers.{
  client_pubrec, pubrec_of, client_pubcomp, pubcomp_of, status_is,
}

module _ (from : Bytes) (p : MqttPacketPublishData) (s : Server) {a : ℕ} {c : MqttClientInfo}
    (found : lookup from s.clients ≡ some a) (there : get_elem? s.heap a ≡ some c) where
  abbrev id : ℕ
  id = p.packet_id

  -- The subscriber's record behind the PUBREC and behind the PUBCOMP
  abbrev waiting : MqttClientInfo
  waiting = record c { pub_status = insert id pubcomp c.pub_status }

  abbrev status : Map ℕ ℕ
  status = insert id none_type waiting.pub_status

  abbrev done : MqttClientInfo
  done = record waiting { pub_status = delete id status; cache_msg = delete id c.cache_msg }

  abbrev pubrel_written : List Effect
  pubrel_written = write c.conn (ack_bytes pubrel p) ∷ []

  first :
      Fits p
      → status_is pubrec p.packet_id c ≡ true
      → client_pubrec from (publish_data p) s
        ≡ ok (tt, record s { heap = set s.heap a waiting; trace = s.trace ++ pubrel_written })
  unfolding client_pubrec find_client pubrec_of load store emit mqtt_seserialize_pubrel
  first fits due = rw (found, there, due, seserialize_ack-bytes [] pubrel p (omega arith) fits) refl

  waits : status_is pubcomp id waiting ≡ true
  unfolding status_is
  waits = rw (lookup-insert id id pubcomp c.pub_status, ==_self id) refl

  -- A known subscriber that a message of quality 2 was sent to, and that answers with a PUBREC and then
  -- a PUBCOMP for it, gets its PUBREL, and the exchange is over: the packet id is free again, no message
  -- is kept under it, the other ids have their status, and the other clients' records are as before.
  pub exchange_ends :
      Fits p
      → status_is pubrec p.packet_id c ≡ true
      → (c'' : MqttClientInfo) × ((client_pubrec from (publish_data p)
              >> client_pubcomp from (publish_data p))
            s
          ≡ ok (
            tt,
            record s {
              heap = set s.heap a c'';
              trace = s.trace ++ write c.conn (ack_bytes pubrel p) ∷ [];
            },
          ))
        × (lookup p.packet_id c''.pub_status ≡ none)
        × (lookup p.packet_id c''.cache_msg ≡ none)
        × ((k : ℕ) → (p.packet_id == k) ≡ false → lookup k c''.pub_status ≡ lookup k c.pub_status)
  unfolding client_pubcomp find_client pubcomp_of load store
  exchange_ends fits due = (
    done,
    rw (first fits due, found, get_elem?-set_self s.heap a c waiting there, waits)
        (ap
          (λ (h : List MqttClientInfo).
            ok (tt, record s { heap = h; trace = s.trace ++ pubrel_written }))
          (set-set s.heap a waiting done)),
    rw (lookup-delete id id status, ==_self id) refl,
    rw (lookup-delete id id c.cache_msg, ==_self id) refl,
    λ k other.
        rw
          (
            lookup-delete id k status,
            other,
            lookup-insert id k none_type waiting.pub_status,
            other,
            lookup-insert id k pubcomp c.pub_status,
            other,
          )
          refl,
  )
