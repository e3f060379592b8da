-- ===== src/Process/Handlers/Publishes.antt =====
-- A message that a client publishes, by its quality.
use mqtt_server_go.Prelude.{
  ℕ, ◌≡◌, refl, Bytes, lookup, bytes_eq, some, List, [], ◌++◌, get_elem?, set, insert, nat_eq, ok,
  ◌==◌, false, true,
}
use mqtt_server_go.ProtocolStack.PacketType.{pubrel}
use mqtt_server_go.ProtocolStack.Publish.{MqttPacketPublishData}
use mqtt_server_go.ProtocolStack.Publish.Layout.{Fits}
use mqtt_server_go.Cluster.Message.{publish_data}
use mqtt_server_go.Process.Server.{MqttClientInfo, Server, find_client, load, store}
use mqtt_server_go.Process.Deliver.Copies.{sends, deliveries}
use mqtt_server_go.Process.Deliver.Ready.{Visitable}
use mqtt_server_go.Process.Deliver.Releasing.{Once}
use mqtt_server_go.Process.Deliver.Acking.{Acks, acks}
use mqtt_server_go.Process.Deliver.Waiting.{waits}
use mqtt_server_go.Process.Handlers.{keep_publish, publish_of, client_publish}

-- For a message of quality 0 that fits its packet, from a client that is known, and for clients that
-- have distinct topics and get a free packet id: the handler ends, changes no record, and writes to
-- each client that is logged in and has the topic, in the order of the visit. But the first gets the
-- message once, the second gets it twice in one write, and the n-th gets n copies.
pub publish_copies :
    (rand : ℕ → ℕ) (fuel : ℕ) (visit : List ℕ) (from : Bytes) (p : MqttPacketPublishData)
    (s : Server) {a : ℕ}
    → p.qos ≡ 0
    → Fits p
    → lookup from s.clients ≡ some a
    → Visitable rand fuel s.heap visit
    → (drawn : ℕ) × (client_publish rand fuel visit from (publish_data p) s
        ≡ ok (tt, record s { drawn = drawn; trace = s.trace ++ sends p s.heap 0 visit }))
unfolding client_publish publish_of keep_publish find_client
publish_copies rand fuel visit from p s {a} e f found v =
    let kept : (p.qos == 2) ≡ false = rw e refl in
    let (st, drawn, run) = deliveries rand fuel p e f visit s v in
    (drawn, rw (found, kept, run) refl)

-- The publisher's record once the message waits for its PUBREL.
abbrev pub kept : MqttPacketPublishData → MqttClientInfo → MqttClientInfo
kept p c = record c {
  pub_status = insert p.packet_id pubrel c.pub_status;
  cache_msg = insert p.packet_id p c.cache_msg;
}

-- For a message of quality 2, from a client that is known, and for clients that have distinct topics
-- and get a free packet id: the handler ends, sends nothing to anyone, and the one record that it
-- changes is the publisher's, which keeps the message and waits for the PUBREL of its packet id.
pub publish_waits :
    (rand : ℕ → ℕ) (fuel : ℕ) (visit : List ℕ) (from : Bytes) (p : MqttPacketPublishData)
    (s : Server) {a : ℕ} {c : MqttClientInfo}
    → p.qos ≡ 2
    → lookup from s.clients ≡ some a
    → get_elem? s.heap a ≡ some c
    → Visitable rand fuel (set s.heap a (kept p c)) visit
    → (drawn : ℕ) × (client_publish rand fuel visit from (publish_data p) s
        ≡ ok (tt, record s { heap = set s.heap a (kept p c); drawn = drawn }))
unfolding client_publish publish_of keep_publish find_client load store
publish_waits rand fuel visit from p s {a} {c} e found there v =
    let two : (p.qos == 2) ≡ true = rw e refl in
    let (id, drawn, run) =
      waits rand fuel p e visit p.packet_id (record s { heap = set s.heap a (kept p c) }) v in
    (drawn, rw (found, two, there, run) refl)

-- For a message of quality 1 that fits its packet, from a client that is known, and for clients of which
-- none is visited twice, that have distinct topics and get a free packet id: the handler ends, having
-- passed each client without the topic. It keeps the message for each other that is not logged in, and
-- writes it to each that is, under an id that the client does not use and that then waits for its
-- PUBACK; but the same write starts with the copies, ids included, of all the clients written to before.
pub publish_acked :
    (rand : ℕ → ℕ) (fuel : ℕ) (visit : List ℕ) (from : Bytes) (p : MqttPacketPublishData)
    (s : Server) {a : ℕ}
    → p.qos ≡ 1
    → Fits p
    → lookup from s.clients ≡ some a
    → Once visit
    → Visitable rand fuel s.heap visit
    → (s' : Server) × (client_publish rand fuel visit from (publish_data p) s ≡ ok (tt, s'))
      × Acks p [] visit s s'
unfolding client_publish publish_of keep_publish find_client
publish_acked rand fuel visit from p s {a} e f found once v =
    let kept : (p.qos == 2) ≡ false = rw e refl in
    let (s', st, run, steps) = acks rand fuel p e f visit p.packet_id [] s once v in
    (s', rw (found, kept, run) refl, steps)
