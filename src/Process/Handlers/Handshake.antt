-- ===== src/Process/Handlers/Handshake.antt =====
-- What the acknowledgements of a receiving client do to the status of a packet id.
use mqtt_server_go.Prelude.{
  ℕ, ◌≡◌, ap, sym, inl, inr, true, false, Bool-cases, Bytes, Map, lookup, insert, delete,
  lookup-insert, lookup-delete, nat_eq, bytes_eq, Option, none, some, ok, get_elem?, set,
  set-get_elem?, ◌==◌, ==_iff, ==_self, List, [], ◌∷◌, if◌then◌else◌,
}
use mqtt_server_go.ProtocolStack.PacketType.{puback, pubrec, pubrel, pubcomp, none_type}
use mqtt_server_go.ProtocolStack.Publish.{MqttPacketPublishData}
use mqtt_server_go.ProtocolStack.Publish.Acks.{ack_bytes}
use mqtt_server_go.Cluster.Message.{publish_data}
use mqtt_server_go.Process.Server.{find_client, MqttClientInfo, Server, Effect, write, load, store}
use mqtt_server_go.Process.Handlers.{
  status_is, equals, puback_of, client_puback, pubcomp_of, client_pubcomp,
}

-- The status of a packet id behind a packet of a type: `none` where no packet is due.
abbrev pub after : ℕ → Option ℕ → Option ℕ
after msg_type st =
    if equals st msg_type then (if msg_type == pubrec then some pubcomp else none) else st

-- The record behind the packet: `p`'s id has its new status, the other ids have the old ones.
abbrev pub Moves : ℕ → ℕ → MqttClientInfo → MqttClientInfo → Type 0
Moves msg_type id c c' =
    (k : ℕ)
    → lookup k c'.pub_status
      ≡ (if id == k then after msg_type (lookup k c.pub_status) else lookup k c.pub_status)

delete_inserted :
    (id k v : ℕ) (m : Map ℕ ℕ)
    → lookup k (delete id (insert id v m)) ≡ (if id == k then none else lookup k m)
delete_inserted id k v m = elim (Bool-cases (id == k)) [
  | inl same ↦ rw (lookup-delete id k (insert id v m), same)
  | inr other ↦ rw (lookup-delete id k (insert id v m), other, lookup-insert id k v m, other)
]

module _ (from : Bytes) (p : MqttPacketPublishData) (s : Server) {a : ℕ} {c : MqttClientInfo}
    (found : lookup from s.clients ≡ some a) (there : get_elem? s.heap a ≡ some c) where
  -- A packet of a type that is not due leaves all as it is.
  stays :
      (msg_type : ℕ)
      → status_is msg_type p.packet_id c ≡ false
      → (s ≡ record s { heap = set s.heap a c }) × Moves msg_type p.packet_id c c
  unfolding status_is
  stays msg_type e = (
    ap (λ (h : List MqttClientInfo). record s { heap = h }) (sym (set-get_elem? s.heap a c there)),
    λ k. elim (Bool-cases (p.packet_id == k)) [
      | inl same ↦
          let at_k : equals (lookup k c.pub_status) msg_type ≡ false =
            rw ((==_iff p.packet_id k).0 same) at e in
          rw (same, at_k)
      | inr other ↦ rw other
    ],
  )

  -- A packet that is due moves its id.
  moved :
      (msg_type : ℕ) (c' : MqttClientInfo)
      → status_is msg_type p.packet_id c ≡ true
      → ((k : ℕ)
          → lookup k c'.pub_status ≡ (
              if p.packet_id == k
              then (if msg_type == pubrec then some pubcomp else none)
              else lookup k c.pub_status))
      → Moves msg_type p.packet_id c c'
  unfolding status_is
  moved msg_type c' due e k = elim (Bool-cases (p.packet_id == k)) [
    | inl same ↦
        let at_k : equals (lookup k c.pub_status) msg_type ≡ true =
          rw ((==_iff p.packet_id k).0 same) at due in
        rw (e k, same, at_k)
    | inr other ↦ rw (e k, other)
  ]

  -- For a client that is known: a PUBACK frees its packet id if a PUBACK was due for the id, and
  -- changes nothing else, in this record or any other; nothing is sent.
  pub client_puback-Moves :
      (c' : MqttClientInfo) × (client_puback from (publish_data p) s
        ≡ ok (tt, record s { heap = set s.heap a c' }))
      × Moves puback p.packet_id c c'
  unfolding client_puback find_client puback_of load store
  client_puback-Moves = elim (Bool-cases (status_is puback p.packet_id c)) [
    | inl due ↦
        let c' = record c { pub_status = delete p.packet_id c.pub_status } in
        (
          c',
          rw (found, there, due),
          moved puback c' due (λ k. lookup-delete p.packet_id k c.pub_status),
        )
    | inr e ↦
        let (same, moves) = stays puback e in
        (c, rw (found, there, e) (ap (λ (t : Server). ok (tt, t)) same), moves)
  ]

  abbrev pub released : List Effect
  released = if status_is pubrec p.packet_id c then write c.conn (ack_bytes pubrel p) ∷ [] else []

  -- For a client that is known: a PUBCOMP frees its packet id if a PUBCOMP was due for the id, and
  -- then the message kept under the id is gone too; nothing is sent.
  pub client_pubcomp-Moves :
      (c' : MqttClientInfo) × (client_pubcomp from (publish_data p) s
        ≡ ok (tt, record s { heap = set s.heap a c' }))
      × Moves pubcomp p.packet_id c c'
      × (status_is pubcomp p.packet_id c ≡ true → lookup p.packet_id c'.cache_msg ≡ none)
  unfolding client_pubcomp find_client pubcomp_of load store
  client_pubcomp-Moves = elim (Bool-cases (status_is pubcomp p.packet_id c)) [
    | inl due ↦
        let status = insert p.packet_id none_type c.pub_status in
        let c' = record c {
          pub_status = delete p.packet_id status;
          cache_msg = delete p.packet_id c.cache_msg;
        } in
        (
          c',
          rw (found, there, due),
          moved pubcomp c' due (λ k. delete_inserted p.packet_id k none_type c.pub_status),
          λ _. rw (lookup-delete p.packet_id p.packet_id c.cache_msg, ==_self p.packet_id),
        )
    | inr e ↦
        let (same, moves) = stays pubcomp e in
        (c, rw (found, there, e) (ap (λ (t : Server). ok (tt, t)) same), moves, λ due. cc)
  ]
