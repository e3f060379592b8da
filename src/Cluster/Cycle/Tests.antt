-- ===== src/Cluster/Cycle/Tests.antt =====
-- A run of the routine of the nodes: a beat, and a login that goes to the node that is alive.
use mqtt_server_go.Prelude.{◌≡◌, refl, [], ◌∷◌, codes, none, some, ok}
use mqtt_server_go.ProtocolStack.Packet.{word_bytes}
use mqtt_server_go.Cluster.Message.{text, cluster_login_msg}
use mqtt_server_go.Cluster.Node.{ClusterNodeInfo, keep_alive_time_escape_1_sec}
use mqtt_server_go.Cluster.Frames.{build_cluster_login_msg, frame}
use mqtt_server_go.Cluster.Cycle.{
  Cycle, to_node, tick_nodes, tick_100ms, broadcast, broadcast_to, on_login, process_cycle_msg,
  cycle_case, start_cluster_server_cycly,
}

abbrev node : ClusterNodeInfo
node = record { ip = codes "n2"; port = 9001; keep_alive_timeout = 60; heart_time = 0 }

abbrev fresh : Cycle
fresh = record {
  cluster_server_nodes = node ∷ [];
  time_escape_100ms = 9;
  time_escape_1s = 0;
  sent = [];
}

-- A second is over, and the login costs another one.
abbrev later : Cycle
later = record {
  cluster_server_nodes = record node { keep_alive_timeout = 58 } ∷ [];
  time_escape_100ms = 0;
  time_escape_1s = 1;
  sent = to_node (codes "n2") 9001 (0 ∷ 3 ∷ 0 ∷ 1 ∷ 97 ∷ []) ∷ [];
}

later_run :
    start_cluster_server_cycly
      (λ p. [])
      (λ info. [])
      (none
        ∷ some (record { msg_type = cluster_login_msg; msg_from = []; msg_body = text (codes "a") })
        ∷ [])
      fresh
    ≡ ok later
unfolding start_cluster_server_cycly cycle_case process_cycle_msg on_login broadcast_to broadcast
    tick_100ms tick_nodes keep_alive_time_escape_1_sec build_cluster_login_msg frame word_bytes
later_run = refl
