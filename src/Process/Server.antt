-- ===== src/Process/Server.antt =====
-- The state that the routines of process/ share: the clients' records, `GloablClientsMap`, what was
-- sent so far, and how many random numbers were drawn.
use mqtt_server_go.Prelude.{
  ℕ, List, [], ◌∷◌, ◌++◌, Bytes, get_elem?, set, Outcome, ok, ◌>>=◌ as and_then, or_panic, Map,
  Option, none, some, lookup, bytes_eq,
}
use mqtt_server_go.ProtocolStack.Publish.{MqttPacketPublishData}
use mqtt_server_go.Cluster.Message.{RoutingCommunicateMsg}

-- `MqttClientInfo` of client_process.go. A `net.Conn` is a number.
pub record MqttClientInfo : Type 0 where
  pub client_id : Bytes
  pub username : Bytes
  pub password : Bytes
  pub pingperiod : ℕ
  pub clear_session : ℕ
  pub login_success : ℕ
  pub conn : ℕ
  pub heart_timeout : ℕ
  pub sub_info : Map Bytes ℕ
  pub pub_status : Map ℕ ℕ
  pub offline_msg : List MqttPacketPublishData
  pub cache_msg : Map ℕ MqttPacketPublishData

-- What a routine does to the outside: a write to a connection or its close, and a message to the
-- dispatcher or to the cluster's routine.
pub data Effect : Type 0 where
  write : ℕ → Bytes → Effect
  close : ℕ → Effect
  to_dispatch : RoutingCommunicateMsg → Effect
  to_cluster : RoutingCommunicateMsg → Effect

-- A pointer to a client's record is its place in `heap`; `clients` is `GloablClientsMap`; `trace`
-- has the effects, oldest first.
pub record Server : Type 0 where
  pub heap : List MqttClientInfo
  pub clients : Map Bytes ℕ
  pub drawn : ℕ
  pub trace : List Effect

-- Code that works on the shared state.
abbrev pub M : Type 0 → Type 0
M A = Server → Outcome (A × Server)

infixl 5 ◌>>=◌ ◌>>◌
abbrev pub ◌>>=◌ : {A B : Type 0} → M A → (A → M B) → M B
◌>>=◌ m f s = and_then (m s) (λ r. f r.0 r.1)

abbrev pub ◌>>◌ : {B : Type 0} → M (Unit {0}) → M B → M B
◌>>◌ m k s = and_then (m s) (λ r. k r.1)

abbrev pub pure : {A : Type 0} → A → M A
pure a s = ok (a, s)

-- A computation that does not touch the shared state.
abbrev pub lift : {A : Type 0} → Outcome A → M A
lift m s = and_then m (λ a. ok (a, s))

unfoldable pub load : ℕ → M MqttClientInfo
load a s = and_then (or_panic (get_elem? s.heap a)) (λ c. ok (c, s))

unfoldable pub store : ℕ → MqttClientInfo → M (Unit {0})
store a c s = ok (tt, record s { heap = set s.heap a c })

unfoldable pub emit : Effect → M (Unit {0})
emit e s = ok (tt, record s { trace = s.trace ++ e ∷ [] })

-- `GloablClientsMap[id]`
unfoldable pub find_client : Bytes → M (Option ℕ)
find_client id s = ok (lookup id s.clients, s)

-- `self, ok := GloablClientsMap[from]`, and the code for either case.
abbrev pub if_found : {A : Type 0} → Option ℕ → M A → (ℕ → M A) → M A
if_found none missing found = missing
if_found (some a) missing found = found a
