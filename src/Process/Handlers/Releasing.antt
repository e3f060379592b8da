-- ===== src/Process/Handlers/Releasing.antt =====
-- A PUBREL for a kept message: its answer, the subscribers, and the other nodes.
use mqtt_server_go.Prelude.{
  ℕ, ◌≡◌, refl, arith, true, Bytes, lookup, delete, nat_eq, bytes_eq, some, List, [], ◌∷◌, ◌++◌,
  get_elem?, set, ok,
}
use mqtt_server_go.ProtocolStack.PacketType.{pubrel, pubcomp}
use mqtt_server_go.ProtocolStack.Publish.{MqttPacketPublishData, mqtt_seserialize_pubcomp}
use mqtt_server_go.ProtocolStack.Publish.Layout.{Fits}
use mqtt_server_go.ProtocolStack.Publish.Acks.{Fits as AckFits, ack_bytes, seserialize_ack-bytes}
use mqtt_server_go.Cluster.Message.{publish_data, cluster_public_msg}
use mqtt_server_go.Process.Server.{
  MqttClientInfo, Server, write, to_cluster, find_client, load, store, emit,
}
use mqtt_server_go.Process.Deliver.Ready.{Visitable, with_id}
use mqtt_server_go.Process.Deliver.Releasing.{Releases, Once, releases}
use mqtt_server_go.Process.Handlers.{cluster_msg, status_is, release_kept, pubrel_of, client_pubrel}

-- The state once the PUBREL was answered
abbrev pub answered : ℕ → MqttPacketPublishData → MqttClientInfo → Server → Server
answered a p c s = record s {
  heap = set s.heap a (record c { pub_status = delete p.packet_id c.pub_status });
  trace = s.trace ++ write c.conn (ack_bytes pubcomp p) ∷ [];
}

-- For a PUBREL with flags and packet id that fit, from a client that is known, waits for it, and has a
-- message kept under its id that fits its packet, and for clients of which none is visited twice, that
-- have distinct topics and get a free packet id: the handler ends; it answers with a PUBCOMP and frees
-- the id; then each client that has the topic gets the message once, in the order of the visit, written
-- under an id that it did not use if it is logged in, and kept for it if it is not; and at last the
-- message goes to the other nodes.
pub pubrel_releases :
    (rand : ℕ → ℕ) (fuel : ℕ) (visit : List ℕ) (from : Bytes) (p m : MqttPacketPublishData)
    (s : Server) {a : ℕ} {c : MqttClientInfo}
    → AckFits p
    → lookup from s.clients ≡ some a
    → get_elem? s.heap a ≡ some c
    → status_is pubrel p.packet_id c ≡ true
    → lookup p.packet_id c.cache_msg ≡ some m
    → Fits m
    → Once visit
    → Visitable rand fuel ((answered a p c s).heap) visit
    → (s' : Server) × (id : ℕ) × (client_pubrel rand fuel visit from (publish_data p) s
        ≡ ok (
          tt,
          record s' {
            trace =
                s'.trace
                ++ to_cluster (cluster_msg cluster_public_msg (publish_data (with_id m id))) ∷ [];
          },
        ))
      × Releases m visit (answered a p c s) s'
unfolding client_pubrel pubrel_of release_kept find_client load store emit mqtt_seserialize_pubcomp
pubrel_releases rand fuel visit from p m s {a} {c} ack found there waits cached f once v =
    let (s', id, run, steps) = releases rand fuel m visit m.packet_id (answered a p c s) f once v in
    (
      s',
      id,
      rw (found, there, waits, seserialize_ack-bytes [] pubcomp p (omega arith) ack, cached, run)
          refl,
      steps,
    )
