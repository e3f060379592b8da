-- ===== src/Process/Session/Login.antt =====
-- A login: the CONNACK, then the messages that were kept for the client, then the dispatcher is told.
use mqtt_server_go.Prelude.{
  ℕ, ◌≡◌, refl, ap, ◌∙◌, inl, inr, Bool-cases, Bytes, lookup, insert, nat_eq, bytes_eq, List, [],
  ◌∷◌, ◌++◌, append_assoc, append-nil, map, All, get_elem?, set, set-set, set-get_elem?,
  get_elem?-set_self, some, ok, ◌==◌, if◌then◌else◌,
}
use mqtt_server_go.ProtocolStack.PacketType.{pubrec}
use mqtt_server_go.ProtocolStack.Connect.{MqttPacketConnectData}
use mqtt_server_go.ProtocolStack.Publish.{MqttPacketPublishData}
use mqtt_server_go.ProtocolStack.Publish.Layout.{Fits, publish_bytes, seserialize_publish-bytes}
use mqtt_server_go.Cluster.Message.{client, msg_client_add}
use mqtt_server_go.Process.Server.{
  MqttClientInfo, Server, Effect, write, to_dispatch, load, store, emit, find_client,
}
use mqtt_server_go.Process.Dispatch.{send_offline}
use mqtt_server_go.Process.Session.{session_of, logged_in, login}

-- The record behind the messages: those of quality 2 wait for their PUBREC.
abbrev awaits : MqttPacketPublishData → MqttClientInfo → MqttClientInfo
awaits p c =
    if p.qos == 2 then record c { pub_status = insert p.packet_id pubrec c.pub_status } else c

unfoldable pub awaiting : List MqttPacketPublishData → MqttClientInfo → MqttClientInfo
awaiting [] c = c
awaiting (p ∷ msgs) c = awaiting msgs (awaits p c)

abbrev pub written : ℕ → List MqttPacketPublishData → List Effect
written conn = map (λ p. write conn (publish_bytes p))

pub send_offline_lem :
    (conn a : ℕ) (msgs : List MqttPacketPublishData) (s : Server) {c : MqttClientInfo}
    → get_elem? s.heap a ≡ some c
    → All Fits msgs
    → send_offline conn a msgs s
      ≡ ok (
        tt,
        record s { heap = set s.heap a (awaiting msgs c); trace = s.trace ++ written conn msgs },
      )
unfolding send_offline awaiting load store emit
send_offline_lem conn a [] s {c} there fits =
    rw (set-get_elem? s.heap a c there, append-nil s.trace) refl
send_offline_lem conn a (p ∷ msgs) s {c} there (f, fits) = elim (Bool-cases (p.qos == 2)) [
  | inl two ↦
      let c' = record c { pub_status = insert p.packet_id pubrec c.pub_status } in
      let s' = record s {
        heap = set s.heap a c';
        trace = s.trace ++ write conn (publish_bytes p) ∷ [];
      } in
      rw (seserialize_publish-bytes p [] f, two, there)
        (rw
          (
            set-set s.heap a c' (awaiting msgs c'),
            append_assoc s.trace (write conn (publish_bytes p) ∷ []) (written conn msgs),
          )
          at (send_offline_lem conn a msgs s' (get_elem?-set_self s.heap a c c' there) fits))
  | inr other ↦
      let s' = record s { trace = s.trace ++ write conn (publish_bytes p) ∷ [] } in
      rw (seserialize_publish-bytes p [] f, other)
        (rw (append_assoc s.trace (write conn (publish_bytes p) ∷ []) (written conn msgs)) at
          (send_offline_lem conn a msgs s' there fits))
]

-- The client's record when its login is over
abbrev pub resumed : ℕ → MqttPacketConnectData → MqttClientInfo → MqttClientInfo
resumed conn d c = record (awaiting c.offline_msg (logged_in conn d c)) { offline_msg = [] }

pub awaiting_lem :
    (msgs : List MqttPacketPublishData) (c : MqttClientInfo)
    → ((awaiting msgs c).conn ≡ c.conn)
      × ((awaiting msgs c).clear_session ≡ c.clear_session)
      × ((awaiting msgs c).sub_info ≡ c.sub_info)
unfolding awaiting
awaiting_lem [] c = (refl, refl, refl)
awaiting_lem (p ∷ msgs) c = elim (Bool-cases (p.qos == 2)) [
  | inl two ↦ rw (awaiting, two) (awaiting_lem msgs _)
  | inr other ↦ rw (awaiting, other) (awaiting_lem msgs c)
]

-- A login's connection and its wish for a clear session are in the record.
pub resumed_lem :
    (conn : ℕ) (d : MqttPacketConnectData) (c : MqttClientInfo)
    → ((resumed conn d c).conn ≡ conn) × ((resumed conn d c).clear_session ≡ d.cleansession)
resumed_lem conn d c =
    let (same_conn, same_wish, topics) = awaiting_lem c.offline_msg (logged_in conn d c) in
    (same_conn, same_wish)

-- What a login sends
abbrev pub answers : ℕ → Bytes → ℕ → List MqttPacketPublishData → List Effect
answers conn connack a msgs =
    write conn connack
    ∷ (written conn msgs
        ++ to_dispatch (record { msg_type = msg_client_add; msg_from = []; msg_body = client a })
          ∷ [])

pub login_delivers :
    (conn : ℕ) (d : MqttPacketConnectData) (connack : Bytes) (s : Server) {a : ℕ}
    {c : MqttClientInfo}
    → lookup d.client_id s.clients ≡ some a
    → get_elem? s.heap a ≡ some c
    → All Fits c.offline_msg
    → login conn d connack s
      ≡ ok (
        some a,
        record s {
          heap = set s.heap a (resumed conn d c);
          trace = s.trace ++ answers conn connack a c.offline_msg;
        },
      )
unfolding login session_of find_client load store emit
login_delivers conn d connack s {a} {c} found there fits =
    let c1 = logged_in conn d c in
    let s1 = record s { heap = set s.heap a c1; trace = s.trace ++ write conn connack ∷ [] } in
    let there1 : get_elem? s1.heap a ≡ some c1 = get_elem?-set_self s.heap a c c1 there in
    let c2 = awaiting c.offline_msg c1 in
    rw
      (
        found,
        there,
        send_offline_lem conn a c.offline_msg s1 there1 fits,
        set-set s.heap a c1 c2,
        get_elem?-set_self s.heap a c c2 there,
        set-set s.heap a c2 (record c2 { offline_msg = [] }),
      )
      (ap
        (λ (t : List Effect).
          ok (some a, record s { heap = set s.heap a (resumed conn d c); trace = t }))
        (append_assoc (s.trace ++ write conn connack ∷ []) (written conn c.offline_msg) _
          ∙ append_assoc s.trace (write conn connack ∷ []) _))
