-- ===== src/Process/System/Reachable.antt =====
-- What holds in every state that the routines reach.
use mqtt_server_go.Prelude.{
  ℕ, ◌≡◌, subst, List, [], ◌∷◌, Bytes, lookup, nat_eq, bytes_eq, Option, none, some, Outcome, ok,
  panic, stuck, ◌>>=◌, >>=-inv, get_elem?,
}
use mqtt_server_go.Cluster.Message.{RoutingCommunicateMsg}
use mqtt_server_go.Process.Server.{MqttClientInfo, Server}
use mqtt_server_go.Process.Deliver.Topics.{Distinct}
use mqtt_server_go.Process.Heaps.{Keeps, Leaves}
use mqtt_server_go.Process.Invariant.{IsClient, Valid}
use mqtt_server_go.Process.Invariant.Dispatch.{process_msg-Valid, tick-Valid}
use mqtt_server_go.Process.Invariant.Session.{client_exit-Valid}
use mqtt_server_go.Process.Invariant.Rounds.{process_read-Valid}
use mqtt_server_go.Process.Session.{process_read, client_exit}
use mqtt_server_go.Process.System.{
  Case, ticked, received, dispatch_case, System, Event, accept, read, lose, take_msg, from_cluster,
  tick_over, read_step, lose_step, take_step, step, steps, booted,
}

abbrev pub IsValid : System → Type 0
IsValid y = Valid y.server.heap y.server.clients

-- A step that ends well ends where the invariant holds.
abbrev Ends : Outcome System → Type 0
Ends (ok y) = IsValid y
Ends panic = Unit {0}
Ends stuck = Unit {0}

then_Ends :
    {A : Type 0} (o : Outcome (A × Server)) (f : A × Server → System)
    → Leaves (λ (a : A). Valid) o
    → ((a : A) (s : Server) → Valid s.heap s.clients → IsValid (f (a, s)))
    → Ends (o >>= λ r. ok (f r))
then_Ends (ok (a, s)) f h k = k a s h
then_Ends panic f h k = tt
then_Ends stuck f h k = tt

module _ (rand : ℕ → ℕ) (fuel : ℕ) where
  dispatch_case-Valid : (c : Case) → Keeps Valid (dispatch_case rand fuel c)
  unfolding dispatch_case
  dispatch_case-Valid (ticked visit) = tick-Valid visit
  dispatch_case-Valid (received visit msg) = process_msg-Valid rand fuel visit msg

  read_step-Ends :
      (conn : ℕ) (o : Option (Option ℕ)) (read_buf : Bytes) (num : ℕ) (y : System)
      → IsValid y
      → Ends (read_step rand fuel conn o read_buf num y)
  unfolding read_step
  read_step-Ends conn none read_buf num y v = v
  read_step-Ends conn (some self) read_buf num y v =
      then_Ends (process_read conn self read_buf num y.server) _
        ((process_read-Valid conn self read_buf num).at y.server v) (λ self' s v'. v')

  lose_step-Ends :
      (conn : ℕ) (o : Option (Option ℕ)) (y : System)
      → IsValid y
      → Ends (lose_step rand fuel conn o y)
  unfolding lose_step
  lose_step-Ends conn none y v = v
  lose_step-Ends conn (some self) y v =
      then_Ends (client_exit conn self y.server) _ ((client_exit-Valid conn self).at y.server v)
        (λ r s v'. v')

  take_step-Ends :
      (visit : List ℕ) (i : ℕ) (o : Option RoutingCommunicateMsg) (y : System)
      → IsValid y
      → Ends (take_step rand fuel visit i o y)
  unfolding take_step
  take_step-Ends visit i none y v = v
  take_step-Ends visit i (some msg) y v =
      then_Ends (dispatch_case rand fuel (received visit msg) y.server) _
        ((dispatch_case-Valid (received visit msg)).at y.server v) (λ r s v'. v')

  step-Ends : (e : Event) (y : System) → IsValid y → Ends (step rand fuel e y)
  unfolding step
  step-Ends (accept conn) y v = v
  step-Ends (read conn read_buf num) y v =
      read_step-Ends conn (lookup conn y.conns) read_buf num y v
  step-Ends (lose conn) y v = lose_step-Ends conn (lookup conn y.conns) y v
  step-Ends (take_msg visit i) y v = take_step-Ends visit i (get_elem? y.inbox i) y v
  step-Ends (from_cluster msg) y v = v
  step-Ends (tick_over visit) y v =
      then_Ends (dispatch_case rand fuel (ticked visit) y.server) _
        ((dispatch_case-Valid (ticked visit)).at y.server v) (λ r s v'. v')

  -- The states that the routines reach
  pub data Reach : System → Type 0 where
    boot : Reach booted
    next : (y y' : System) (e : Event) → Reach y → step rand fuel e y ≡ ok y' → Reach y'

  booted-IsValid : IsValid booted
  unfolding lookup Distinct
  booted-IsValid = record {
    keys = tt;
    entries = λ k a found. absurd (cc);
    records = λ a c there. absurd (cc);
  }

  Reach-IsValid : {y : System} → Reach y → IsValid y
  Reach-IsValid boot = booted-IsValid
  Reach-IsValid (next y y' e r s) = rw s at (step-Ends e y (Reach-IsValid r))

  -- In every state that the routines reach from the start, in whatever order they take their turns and
  -- whatever the clients and the other nodes send: no client id stands twice in the map, each leads to
  -- a record of that client, and every record is that of a client.
  pub Reach-Valid :
      (y : System)
      → Reach y
      → Distinct y.server.clients
        × ((id : Bytes) (a : ℕ)
            → lookup id y.server.clients ≡ some a
            → (c : MqttClientInfo) × (get_elem? y.server.heap a ≡ some c) × (c.client_id ≡ id))
        × ((a : ℕ) (c : MqttClientInfo) → get_elem? y.server.heap a ≡ some c → IsClient c)
  Reach-Valid y r = let v = Reach-IsValid r in (v.keys, v.entries, v.records)

  -- Whatever events come, one after the other, lead to a state that is reached.
  pub steps-Reach :
      (events : List Event) (y y' : System) → Reach y → steps rand fuel events y ≡ ok y' → Reach y'
  unfolding steps
  steps-Reach [] y y' r e = let same : y ≡ y' = cc in subst Reach same r
  steps-Reach (event ∷ events) y y' r e =
      let (z, first, rest) = >>=-inv (step rand fuel event y) _ e in
      steps-Reach events z y' (next y z event r first) rest
