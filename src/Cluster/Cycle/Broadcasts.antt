-- ===== src/Cluster/Cycle/Broadcasts.antt =====
-- Every message to the nodes costs each of them a second of its time.
use mqtt_server_go.Prelude.{ℕ, ◌-◌, ◌≤◌, ◌≡◌, refl, arith, List, [], ◌∷◌, All, Bytes, length}
use mqtt_server_go.Cluster.Node.{ClusterNodeInfo, keep_alive_time_escape_1_sec}
use mqtt_server_go.Cluster.Cycle.{broadcast}

-- The nodes after some messages, with no heartbeat from any of them in between
unfoldable pub broadcasts : List Bytes → List ClusterNodeInfo → List ClusterNodeInfo
broadcasts [] nodes = nodes
broadcasts (msg ∷ msgs) nodes = broadcasts msgs ((broadcast msg nodes).0)

abbrev pub Within : ℕ → List ClusterNodeInfo → Type 0
Within t = All (λ node. node.keep_alive_timeout ≤ t)

weaken : (t u : ℕ) (nodes : List ClusterNodeInfo) → t ≤ u → Within t nodes → Within u nodes
weaken t u [] le h = tt
weaken t u (node ∷ nodes) le (h, hs) = (omega arith, weaken t u nodes le hs)

broadcast-Within :
    (msg : Bytes) (t : ℕ) (nodes : List ClusterNodeInfo)
    → Within t nodes
    → Within (t - 1) ((broadcast msg nodes).0)
unfolding broadcast keep_alive_time_escape_1_sec
broadcast-Within msg t [] h = tt
broadcast-Within msg t (node ∷ nodes) (h, hs) = (ground arith, broadcast-Within msg t nodes hs)

broadcasts-Within :
    (msgs : List Bytes) (t : ℕ) (nodes : List ClusterNodeInfo)
    → Within t nodes
    → Within (t - length msgs) (broadcasts msgs nodes)
unfolding broadcasts
broadcasts-Within [] t nodes h = weaken t (t - 0) nodes (omega arith) h
broadcasts-Within (msg ∷ msgs) t nodes h =
    weaken (t - 1 - length msgs) (t - length (msg ∷ msgs)) _ (omega arith)
      (broadcasts-Within msgs (t - 1) _ (broadcast-Within msg t nodes h))

dead : (msg : Bytes) (nodes : List ClusterNodeInfo) → Within 1 nodes → (broadcast msg nodes).1 ≡ []
unfolding broadcast keep_alive_time_escape_1_sec
dead msg [] h = refl
dead msg (node ∷ nodes) (h, hs) = ground (arith, dead msg nodes hs)

-- For nodes with at most the 60 seconds that they start with: after 59 messages or more, with no
-- heartbeat from any of them in between, every node counts as dead and the next message is sent to none.
pub broadcasts_exhaust :
    (msgs : List Bytes) (msg : Bytes) (nodes : List ClusterNodeInfo)
    → Within 60 nodes
    → 59 ≤ length msgs
    → (broadcast msg (broadcasts msgs nodes)).1 ≡ []
broadcasts_exhaust msgs msg nodes h enough =
    dead msg _ (weaken (60 - length msgs) 1 _ (omega arith) (broadcasts-Within msgs 60 nodes h))
