-- ===== src/Cluster/Cycle/Nodes.antt =====
-- The nodes stay the same, and their time stays in its bounds, in each part of the routine.
use mqtt_server_go.Prelude.{
  ℕ, ◌+◌, ◌≤◌, ◌≡◌, refl, arith, inl, inr, Bool-cases, ◌&&◌, List, [], ◌∷◌, All, map, Bytes,
  bytes_beq, Outcome, ok, panic, stuck, ◌>>=◌, leb, ◌==◌,
}
use mqtt_server_go.Cluster.Node.{
  ClusterNodeInfo, update_keep_alive_timeout, keep_alive_time_escape_1_sec,
}
use mqtt_server_go.Cluster.Frames.{build_cluster_login_info_msg}
use mqtt_server_go.Cluster.Cycle.{
  Cycle, Sent, tick_nodes, tick_100ms, hear, broadcast, broadcast_to, inform,
}

-- The time that is left is at most 60 seconds.
abbrev pub InTime : ClusterNodeInfo → Type 0
InTime node = node.keep_alive_timeout ≤ 60

abbrev pub Later : ClusterNodeInfo → ClusterNodeInfo → Type 0
Later n n' = (n'.ip ≡ n.ip) × (n'.port ≡ n.port) × (InTime n → InTime n')

-- Node by node
abbrev pub Follows : List ClusterNodeInfo → List ClusterNodeInfo → Type 0
Follows [] [] = Unit {0}
Follows [] (n' ∷ ns') = ⊥
Follows (n ∷ ns) [] = ⊥
Follows (n ∷ ns) (n' ∷ ns') = Later n n' × Follows ns ns'

pub Follows-refl : (ns : List ClusterNodeInfo) → Follows ns ns
Follows-refl [] = tt
Follows-refl (n ∷ ns) = ((refl, refl, λ h. h), Follows-refl ns)

escape-Later : (n : ClusterNodeInfo) → Later n ((keep_alive_time_escape_1_sec n).0)
unfolding keep_alive_time_escape_1_sec
escape-Later n = elim (Bool-cases (leb n.keep_alive_timeout 1)) [
  | inl e ↦ rw e (refl, refl, λ h. omega arith)
  | inr e ↦ rw e (refl, refl, λ h. omega arith)
]

tick_nodes-Follows :
    (ns : List ClusterNodeInfo) (seconds : ℕ) → Follows ns ((tick_nodes ns seconds).0)
unfolding tick_nodes
tick_nodes-Follows [] seconds = tt
tick_nodes-Follows (n ∷ ns) seconds = (escape-Later n, tick_nodes-Follows ns _)

pub hear-Follows :
    (ip : Bytes) (port : ℕ) (ns : List ClusterNodeInfo) → Follows ns (hear ip port ns)
unfolding hear update_keep_alive_timeout
hear-Follows ip port [] = tt
hear-Follows ip port (n ∷ ns) = elim (Bool-cases (bytes_beq n.ip ip && n.port == port)) [
  | inl e ↦ rw e ((refl, refl, λ h. omega arith), Follows-refl ns)
  | inr e ↦ rw e ((refl, refl, λ h. h), hear-Follows ip port ns)
]

broadcast-Follows : (msg : Bytes) (ns : List ClusterNodeInfo) → Follows ns ((broadcast msg ns).0)
unfolding broadcast
broadcast-Follows msg [] = tt
broadcast-Follows msg (n ∷ ns) = (escape-Later n, broadcast-Follows msg ns)

pub broadcast_to-Follows :
    (msg : Bytes) (c : Cycle)
    → Follows c.cluster_server_nodes (broadcast_to msg c).cluster_server_nodes
unfolding broadcast_to
broadcast_to-Follows msg c = broadcast-Follows msg c.cluster_server_nodes

pub tick_100ms-Follows :
    (c : Cycle) → Follows c.cluster_server_nodes (tick_100ms c).cluster_server_nodes
unfolding tick_100ms
tick_100ms-Follows c = elim (Bool-cases (c.time_escape_100ms + 1 == 10)) [
  | inl e ↦ rw e (tick_nodes-Follows c.cluster_server_nodes (c.time_escape_1s + 1))
  | inr e ↦ rw e (Follows-refl c.cluster_server_nodes)
]

-- The same for the nodes alone
abbrev pub Informs : List ClusterNodeInfo → Outcome (List ClusterNodeInfo × List Sent) → Type 0
Informs ns (ok (ns', sent)) = Follows ns ns'
Informs ns panic = Unit {0}
Informs ns stuck = Unit {0}

pub inform-Follows :
    (ip : Bytes) (port : ℕ) (json : Bytes) (ns : List ClusterNodeInfo)
    → Informs ns (inform ip port json ns)
unfolding inform
inform-Follows ip port json [] = tt
inform-Follows ip port json (n ∷ ns) = elim (Bool-cases (bytes_beq n.ip ip && n.port == port)) [
  | inl e ↦ rw e (found (build_cluster_login_info_msg json) _)
  | inr e ↦ rw e (passed (inform ip port json ns) (inform-Follows ip port json ns))
]
  where
    found :
        (o : Outcome (List Bytes)) (sent : List Bytes → List Sent)
        → Informs (n ∷ ns) (o >>= λ msgs. ok ((keep_alive_time_escape_1_sec n).0 ∷ ns, sent msgs))
    found (ok msgs) sent = (escape-Later n, Follows-refl ns)
    found panic sent = tt
    found stuck sent = tt

    passed :
        (o : Outcome (List ClusterNodeInfo × List Sent))
        → Informs ns o
        → Informs (n ∷ ns) (o >>= λ r. ok (n ∷ r.0, r.1))
    passed (ok (ns', sent)) f = ((refl, refl, λ h. h), f)
    passed panic f = tt
    passed stuck f = tt

abbrev pub address : ClusterNodeInfo → Bytes × ℕ
address n = (n.ip, n.port)

pub Follows-InTime :
    (ns ns' : List ClusterNodeInfo)
    → Follows ns ns'
    → All InTime ns
    → (map address ns' ≡ map address ns) × All InTime ns'
Follows-InTime [] [] f h = (refl, tt)
Follows-InTime [] (n' ∷ ns') f h = absurd f
Follows-InTime (n ∷ ns) [] f h = absurd f
Follows-InTime (n ∷ ns) (n' ∷ ns') ((ip, port, time), f) (h, hs) =
    let (same, times) = Follows-InTime ns ns' f hs in
    (λ i. (ip i, port i) ∷ same i, (time h, times))
