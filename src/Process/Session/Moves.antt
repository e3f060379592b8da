-- ===== src/Process/Session/Moves.antt =====
-- A client that logs in at another node: the first client of its id in a visit, and what the dispatcher
-- does with a client's information (MSG_CLUSTER_LOGIN_INFO of process/clients_MsgDispatch_Center.go).
use mqtt_server_go.Prelude.{
  ℕ, ◌≡◌, refl, ap, ◌∙◌, inl, inr, true, false, Bool-cases, Bytes, Map, lookup, insert,
  lookup-insert, nat_eq, bytes_eq, bytes_beq, bytes_beq_iff, List, [], ◌∷◌, ◌++◌, All, get_elem?,
  set, set-set, get_elem?-set_self, Option, none, some, ok,
}
use mqtt_server_go.ProtocolStack.Publish.Layout.{Fits}
use mqtt_server_go.Cluster.Message.{client_info, ClusterClientInfo}
use mqtt_server_go.Process.Server.{MqttClientInfo, Server, load, store}
use mqtt_server_go.Process.Deliver.Topics.{Distinct}
use mqtt_server_go.Process.Dispatch.{
  copy_entries, hand_over, login_loop, take_over, login_info_loop, cluster_login_info,
}
use mqtt_server_go.Process.Session.Login.{awaiting, awaiting_lem, written, send_offline_lem}

-- The first value that is there
abbrev pub or_else : Option ℕ → Option ℕ → Option ℕ
or_else none o = o
or_else (some q) o = some q

pub or_else-none : (o : Option ℕ) → or_else o none ≡ o
or_else-none none = refl
or_else-none (some q) = refl

pub lookup-copy_entries :
    (t : Bytes) (entries info : Map Bytes ℕ)
    → Distinct entries
    → lookup t (copy_entries entries info) ≡ or_else (lookup t entries) (lookup t info)
unfolding copy_entries lookup Distinct
lookup-copy_entries t [] info d = refl
lookup-copy_entries t ((u, q) ∷ entries) info (fresh, d) = elim (Bool-cases (bytes_beq u t)) [
  | inl same ↦
      let absent : lookup t entries ≡ none = rw ((bytes_beq_iff u t).0 same) at fresh in
      rw (lookup-copy_entries t entries (insert u q info) d, absent, lookup-insert u t q info, same)
        refl
  | inr other ↦
      rw (lookup-copy_entries t entries (insert u q info) d, lookup-insert u t q info, other) refl
]

-- The first client of a visit that has the id
pub data FirstOf (s : Server) (id : Bytes) : List ℕ → ℕ → MqttClientInfo → Type 0 where
  at_head :
      (a : ℕ) (c : MqttClientInfo) (visit : List ℕ)
      → get_elem? s.heap a ≡ some c
      → bytes_beq c.client_id id ≡ true
      → FirstOf s id (a ∷ visit) a c
  behind :
      (b : ℕ) (d : MqttClientInfo) (visit : List ℕ) (a : ℕ) (c : MqttClientInfo)
      → get_elem? s.heap b ≡ some d
      → bytes_beq d.client_id id ≡ false
      → FirstOf s id visit a c
      → FirstOf s id (b ∷ visit) a c

pub login_loop_first :
    (from id : Bytes) (s : Server) {visit : List ℕ} {a : ℕ} {c : MqttClientInfo}
    → FirstOf s id visit a c
    → login_loop from id visit s ≡ hand_over from id c s
unfolding login_loop load
login_loop_first from id s (at_head a c visit there same) = rw (there, same) refl
login_loop_first from id s (behind b d visit a c there other f) =
    rw (there, other) (login_loop_first from id s f)

login_info_loop_first :
    (info : ClusterClientInfo) (s : Server) {visit : List ℕ} {a : ℕ} {c : MqttClientInfo}
    → FirstOf s info.client_id visit a c
    → (get_elem? s.heap a ≡ some c) × (login_info_loop info visit s ≡ take_over info a s)
unfolding login_info_loop load
login_info_loop_first info s (at_head a c visit there same) = (there, rw (there, same) refl)
login_info_loop_first info s (behind b d visit a c there other f) =
    let (found, e) = login_info_loop_first info s f in (found, rw (there, other) e)

-- The record at the second node: the messages of quality 2 wait for a PUBREC, the topics are added.
abbrev joined_by : ClusterClientInfo → MqttClientInfo → MqttClientInfo
joined_by info d =
    let w = awaiting info.offline_msg d in
    record w { sub_info = copy_entries info.subinfo w.sub_info }

take_over_lem :
    (info : ClusterClientInfo) (b : ℕ) (t : Server) {d : MqttClientInfo}
    → get_elem? t.heap b ≡ some d
    → All Fits info.offline_msg
    → take_over info b t
      ≡ ok (
        tt,
        record t {
          heap = set t.heap b (joined_by info d);
          trace = t.trace ++ written d.conn info.offline_msg;
        },
      )
unfolding take_over load store
take_over_lem info b t {d} there fits =
    let w = awaiting info.offline_msg d in
    rw
      (
        there,
        send_offline_lem d.conn b info.offline_msg t there fits,
        get_elem?-set_self t.heap b d w there,
      )
      (ap
        (λ (h : List MqttClientInfo).
          ok (tt, record t { heap = h; trace = t.trace ++ written d.conn info.offline_msg }))
        (set-set t.heap b w (joined_by info d)))

-- For a client's information with distinct topics and messages that fit their packets, and the first client
-- of that id in the visit: the dispatcher writes the messages to the client's connection, each once and in
-- their order, and changes no other record, and each topic of the client has the quality that the
-- information names for it, or where it names none its own.
pub cluster_login_info_lem :
    (info : ClusterClientInfo) (t : Server) (visit : List ℕ) (b : ℕ) (d : MqttClientInfo)
    → FirstOf t info.client_id visit b d
    → Distinct info.subinfo
    → All Fits info.offline_msg
    → (d' : MqttClientInfo) × (cluster_login_info visit (client_info info) t
        ≡ ok (
          tt,
          record t { heap = set t.heap b d'; trace = t.trace ++ written d.conn info.offline_msg },
        ))
      × ((topic : Bytes)
          → lookup topic d'.sub_info
            ≡ or_else (lookup topic info.subinfo) (lookup topic d.sub_info))
unfolding cluster_login_info
cluster_login_info_lem info t visit b d first distinct fits =
    let (there, found) = login_info_loop_first info t first in
    (
      joined_by info d,
      found ∙ take_over_lem info b t there fits,
      λ topic.
          lookup-copy_entries topic info.subinfo (awaiting info.offline_msg d).sub_info distinct
          ∙ ap (λ (m : Map Bytes ℕ). or_else (lookup topic info.subinfo) (lookup topic m))
              ((awaiting_lem info.offline_msg d).2),
    )
