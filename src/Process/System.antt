-- ===== src/Process/System.antt =====
-- The routines of process/ together: `ClientsMsgDispatch` of process/clients_MsgDispatch_Center.go, the
-- routine `ClientProcess` of each connection, and the channel between them. A step is one round of one
-- routine; a message that was sent waits until the dispatcher takes it.
pub mod Reachable
pub mod Samples
mod Tests
use mqtt_server_go.Prelude.{
  ℕ, zero, suc, List, [], ◌∷◌, ◌++◌, Bytes, length, drop, get_elem?, Map, lookup, insert, delete,
  nat_eq, Option, none, some, Outcome, ok, ◌>>=◌ as and_then,
}
use mqtt_server_go.Cluster.Message.{RoutingCommunicateMsg}
use mqtt_server_go.Process.Server.{
  Server, Effect, write, close, to_dispatch, to_cluster, M, ◌>>◌, pure,
}
use mqtt_server_go.Process.Dispatch.{process_msg, tick}
use mqtt_server_go.Process.Session.{process_read, client_exit}

-- What the dispatcher's `select` takes: the ticker, or a message. `visit` is the order in which this
-- round ranges over the clients.
pub data Case : Type 0 where
  ticked : List ℕ → Case
  received : List ℕ → RoutingCommunicateMsg → Case

module _ (rand : ℕ → ℕ) (fuel : ℕ) where
  unfoldable pub dispatch_case : Case → M (Unit {0})
  dispatch_case (ticked visit) = tick visit
  dispatch_case (received visit msg) = process_msg rand fuel visit msg

  -- The loop, over what it takes
  unfoldable pub clients_msg_dispatch : List Case → M (Unit {0})
  clients_msg_dispatch [] = pure tt
  clients_msg_dispatch (c ∷ cases) = do dispatch_case c; clients_msg_dispatch cases

-- The shared state, the connections with `mqttClientData` of their routines, and what waits in the
-- channel to the dispatcher.
pub record System : Type 0 where
  pub server : Server
  pub conns : Map ℕ (Option ℕ)
  pub inbox : List RoutingCommunicateMsg

-- A connection is accepted; a read of a connection; a read that fails; the dispatcher takes the
-- message at a place of the channel; a message from the cluster's routine; a tick.
pub data Event : Type 0 where
  accept : ℕ → Event
  read : ℕ → Bytes → ℕ → Event
  lose : ℕ → Event
  take_msg : List ℕ → ℕ → Event
  from_cluster : RoutingCommunicateMsg → Event
  tick_over : List ℕ → Event

-- The messages to the dispatcher among the effects
unfoldable pub sent_to_dispatch : List Effect → List RoutingCommunicateMsg
sent_to_dispatch [] = []
sent_to_dispatch (to_dispatch msg ∷ effects) = msg ∷ sent_to_dispatch effects
sent_to_dispatch (write _ _ ∷ effects) = sent_to_dispatch effects
sent_to_dispatch (close _ ∷ effects) = sent_to_dispatch effects
sent_to_dispatch (to_cluster _ ∷ effects) = sent_to_dispatch effects

-- What a routine that went from `s` to `s'` has sent waits behind the rest.
unfoldable pub with_sent : Server → Server → List RoutingCommunicateMsg → List RoutingCommunicateMsg
with_sent s s' inbox = inbox ++ sent_to_dispatch (drop (length s.trace) s'.trace)

unfoldable pub remove_at {ℓ} : {A : Type ℓ} → ℕ → List A → List A
remove_at i [] = []
remove_at zero (x ∷ xs) = xs
remove_at (suc i) (x ∷ xs) = x ∷ remove_at i xs

module _ (rand : ℕ → ℕ) (fuel : ℕ) where
  -- A routine that is gone and an empty place do nothing.
  unfoldable pub read_step : ℕ → Option (Option ℕ) → Bytes → ℕ → System → Outcome System
  read_step conn none read_buf num y = ok y
  read_step conn (some self) read_buf num y =
      and_then (process_read conn self read_buf num y.server) λ r. ok (record {
        server = r.1;
        conns = insert conn r.0 y.conns;
        inbox = with_sent y.server r.1 y.inbox;
      })

  unfoldable pub lose_step : ℕ → Option (Option ℕ) → System → Outcome System
  lose_step conn none y = ok y
  lose_step conn (some self) y = and_then (client_exit conn self y.server) λ r.
      ok (record {
        server = r.1;
        conns = delete conn y.conns;
        inbox = with_sent y.server r.1 y.inbox;
      })

  unfoldable pub take_step : List ℕ → ℕ → Option RoutingCommunicateMsg → System → Outcome System
  take_step visit i none y = ok y
  take_step visit i (some msg) y =
      and_then (dispatch_case rand fuel (received visit msg) y.server)
        λ r. ok (record y { server = r.1; inbox = remove_at i y.inbox })

  unfoldable pub step : Event → System → Outcome System
  step (accept conn) y = ok (record y { conns = insert conn none y.conns })
  step (read conn read_buf num) y = read_step conn (lookup conn y.conns) read_buf num y
  step (lose conn) y = lose_step conn (lookup conn y.conns) y
  step (take_msg visit i) y = take_step visit i (get_elem? y.inbox i) y
  step (from_cluster msg) y = ok (record y { inbox = y.inbox ++ msg ∷ [] })
  step (tick_over visit) y =
      and_then (dispatch_case rand fuel (ticked visit) y.server) λ r. ok (record y { server = r.1 })

  unfoldable pub steps : List Event → System → Outcome System
  steps [] y = ok y
  steps (e ∷ events) y = and_then (step e y) (steps events)

-- Nothing has happened.
abbrev pub booted : System
booted = record {
  server = record { heap = []; clients = []; drawn = 0; trace = [] };
  conns = [];
  inbox = [];
}
