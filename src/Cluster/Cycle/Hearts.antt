-- ===== src/Cluster/Cycle/Hearts.antt =====
-- The heartbeats that a node sends, every fifty seconds, to the others.
use mqtt_server_go.Prelude.{
  ℕ, zero, suc, ◌+◌, ◌≤◌, ◌≡◌, refl, ◌∙◌, arith, false, Bool-cases, inl, inr, ◌&&◌, List, [], ◌∷◌,
  append-nil, length, ◌==◌,
}
use mqtt_server_go.Cluster.Node.{ClusterNodeInfo, keep_alive_time_escape_1_sec}
use mqtt_server_go.Cluster.Cycle.{Cycle, tick_nodes, tick_100ms}

-- Off the fiftieth second the counter stays, and nothing is sent.
tick_nodes_off :
    (nodes : List ClusterNodeInfo) (seconds : ℕ)
    → (seconds == 50) ≡ false
    → ((tick_nodes nodes seconds).1 ≡ seconds) × ((tick_nodes nodes seconds).2 ≡ [])
unfolding tick_nodes
tick_nodes_off [] seconds e = (refl, refl)
tick_nodes_off (node ∷ nodes) seconds e =
    elim (Bool-cases ((keep_alive_time_escape_1_sec node).1)) [
      | inl alive ↦ rw (alive, e) (tick_nodes_off nodes seconds e)
      | inr dead ↦ rw (dead) (tick_nodes_off nodes seconds e)
    ]

-- In one second at most one node gets a heartbeat, however many nodes are alive.
pub hearts-le :
    (nodes : List ClusterNodeInfo) (seconds : ℕ) → length ((tick_nodes nodes seconds).2) ≤ 1
unfolding tick_nodes
hearts-le [] seconds = omega arith
hearts-le (node ∷ nodes) seconds =
    elim (Bool-cases ((keep_alive_time_escape_1_sec node).1 && seconds == 50)) [
      | inl sends ↦ rw (sends, (tick_nodes_off nodes 0 refl).1) (omega arith)
      | inr quiet ↦ rw quiet (hearts-le nodes seconds)
    ]

-- `n` beats of the ticker
unfoldable pub ticks : ℕ → Cycle → Cycle
ticks zero c = c
ticks (suc n) c = ticks n (tick_100ms c)

one_tick :
    (c : Cycle)
    → 50 ≤ c.time_escape_1s
    → ((tick_100ms c).sent ≡ c.sent) × (50 ≤ (tick_100ms c).time_escape_1s)
unfolding tick_100ms
one_tick c h =
    let off : (c.time_escape_1s + 1 == 50) ≡ false = ground arith in
    let (counter, none_sent) = tick_nodes_off c.cluster_server_nodes (c.time_escape_1s + 1) off in
    elim (Bool-cases (c.time_escape_100ms + 1 == 10)) [
      | inl second ↦ rw (second, none_sent) (append-nil c.sent, rw counter (omega arith))
      | inr between ↦ rw between (refl, h)
    ]

-- When the counter stands at 50 or above between two beats of the ticker, as after a fiftieth second in
-- which no node was alive, no heartbeat is sent ever after, whatever number of beats follows.
pub silent : (n : ℕ) (c : Cycle) → 50 ≤ c.time_escape_1s → (ticks n c).sent ≡ c.sent
unfolding ticks
silent zero c h = refl
silent (suc n) c h = silent n (tick_100ms c) ((one_tick c h).1) ∙ (one_tick c h).0
