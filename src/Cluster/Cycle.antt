-- ===== src/Cluster/Cycle.antt =====
-- `startClusterServerCycly` of cluster/cluster_server.go: the routine that keeps the time of the other
-- nodes and sends to them.
pub mod Hearts
pub mod Broadcasts
pub mod Informs
pub mod Nodes
pub mod Runs
pub mod Reaches
mod Tests
use mqtt_server_go.Prelude.{
  ℕ, ℤ, pos, negsuc, zero, suc, ◌+◌, ◌-◌, ◌*◌, ◌%◌, ◌^◌, List, [], ◌∷◌, ◌++◌, Bytes, length,
  bytes_beq, Bool, true, false, ◌&&◌, Option, none, some, Outcome, ok, panic, ◌>>=◌, or_panic,
  slice, ltb, leb, ◌==◌, if◌then◌else◌, map,
}
use mqtt_server_go.Strconv.{atoi, index_of}
use mqtt_server_go.ProtocolStack.Publish.{MqttPacketPublishData}
use mqtt_server_go.Cluster.Message.{
  Body, UdpAddr, ClusterClientInfo, RoutingCommunicateMsg, text, publish_data, client_info,
  udp_addr, cluster_heart_msg, cluster_public_msg, cluster_login_msg, cluster_client_info_msg,
}
use mqtt_server_go.Cluster.Node.{
  ClusterNodeInfo, update_keep_alive_timeout, keep_alive_time_escape_1_sec,
}
use mqtt_server_go.Cluster.Frames.{
  build_cluster_heart_msg, build_cluster_publish_msg, build_cluster_login_msg,
  build_cluster_login_info_msg,
}

-- A datagram that `SendMsgToNode` was given, for a node's address.
pub data Sent : Type 0 where
  to_node : Bytes → ℕ → Bytes → Sent

abbrev pub send_msg_to_node : ClusterNodeInfo → Bytes → Sent
send_msg_to_node node msg = to_node node.ip node.port msg

-- `clusterServerNodes`, the routine's two counters, and what it sent, oldest first.
pub record Cycle : Type 0 where
  pub cluster_server_nodes : List ClusterNodeInfo
  pub time_escape_100ms : ℕ
  pub time_escape_1s : ℕ
  pub sent : List Sent

-- The nodes after a second, `timeEscape1S`, and what was sent. The first node that gets a heartbeat
-- sets the counter to 0, and the nodes after it see that.
unfoldable pub tick_nodes : List ClusterNodeInfo → ℕ → List ClusterNodeInfo × ℕ × List Sent
tick_nodes [] seconds = ([], seconds, [])
tick_nodes (node ∷ nodes) seconds =
    let (node, alive) = keep_alive_time_escape_1_sec node in
    let sends = alive && seconds == 50 in
    let (nodes, seconds, sent) = tick_nodes nodes (if sends then 0 else seconds) in
    (
      node ∷ nodes,
      seconds,
      if sends then send_msg_to_node node build_cluster_heart_msg ∷ sent else sent,
    )

-- The ticker's case, every 100 milliseconds.
unfoldable pub tick_100ms : Cycle → Cycle
tick_100ms c =
    let (nodes, seconds, sent) = tick_nodes c.cluster_server_nodes (c.time_escape_1s + 1) in
    if c.time_escape_100ms + 1 == 10
    then record {
      cluster_server_nodes = nodes;
      time_escape_100ms = 0;
      time_escape_1s = seconds;
      sent = c.sent ++ sent;
    }
    else record c { time_escape_100ms = c.time_escape_100ms + 1 }

-- CLUSTER_HEART_MSG: the first node with the address
unfoldable pub hear : Bytes → ℕ → List ClusterNodeInfo → List ClusterNodeInfo
hear ip port [] = []
hear ip port (node ∷ nodes) =
    if bytes_beq node.ip ip && node.port == port
    then update_keep_alive_timeout node ∷ nodes
    else node ∷ hear ip port nodes

-- CLUSTER_PUBLIC_MSG and CLUSTER_LOGIN_MSG: every node that is alive, which costs it a second.
unfoldable pub broadcast : Bytes → List ClusterNodeInfo → List ClusterNodeInfo × List Sent
broadcast msg [] = ([], [])
broadcast msg (node ∷ nodes) =
    let (node, alive) = keep_alive_time_escape_1_sec node in
    let (nodes, sent) = broadcast msg nodes in
    (node ∷ nodes, if alive then send_msg_to_node node msg ∷ sent else sent)

unfoldable pub broadcast_to : Bytes → Cycle → Cycle
broadcast_to msg c =
    let (nodes, sent) = broadcast msg c.cluster_server_nodes in
    record c { cluster_server_nodes = nodes; sent = c.sent ++ sent }

-- CLUSTER_CLIENT_INFO_MSG: the first node with the address
unfoldable pub inform :
    Bytes → ℕ → Bytes → List ClusterNodeInfo → Outcome (List ClusterNodeInfo × List Sent)
inform ip port json [] = ok ([], [])
inform ip port json (node ∷ nodes) =
    let (older, alive) = keep_alive_time_escape_1_sec node in
    let found = (do
      msg_list ← build_cluster_login_info_msg json
      ok (older ∷ nodes, if alive then map (send_msg_to_node older) msg_list else [])) in
    let rest = (do (nodes, sent) ← inform ip port json nodes; ok (node ∷ nodes, sent)) in
    if bytes_beq node.ip ip && node.port == port then found else rest

-- `json.Marshal` of the two types
module _ (marshal_publish : MqttPacketPublishData → Bytes)
    (marshal_info : ClusterClientInfo → Bytes) where
  -- `to[0:index]` panics where there is no colon.
  unfoldable pub send_info : Bytes → ClusterClientInfo → Cycle → Outcome Cycle
  send_info to info c = do
    index ← or_panic (index_of b':' to)
    ip ← slice to 0 index
    port ← slice ip (index + 1) (length ip)
    (nodes, sent) ← inform ip ((atoi port).0 % 2 ^ 16) (marshal_info info) c.cluster_server_nodes
    ok (record c { cluster_server_nodes = nodes; sent = c.sent ++ sent })

  -- The cases by the message's body; an assertion that fails panics, but for the heartbeat's.
  unfoldable pub on_heart : Body → Cycle → Outcome Cycle
  on_heart (udp_addr addr) c =
      ok (record c {
        cluster_server_nodes = hear addr.ip (addr.port % 2 ^ 16) c.cluster_server_nodes;
      })
  on_heart _ c = ok c

  unfoldable pub on_public : Body → Cycle → Outcome Cycle
  on_public (publish_data p) c = ok (broadcast_to (build_cluster_publish_msg (marshal_publish p)) c)
  on_public _ c = panic

  unfoldable pub on_login : Body → Cycle → Outcome Cycle
  on_login (text client_id) c = ok (broadcast_to (build_cluster_login_msg client_id) c)
  on_login _ c = panic

  unfoldable pub on_client_info : Bytes → Body → Cycle → Outcome Cycle
  on_client_info to (client_info info) c = send_info to info c
  on_client_info to _ c = panic

  -- The channel's case
  unfoldable pub process_cycle_msg : RoutingCommunicateMsg → Cycle → Outcome Cycle
  process_cycle_msg msg c =
      if msg.msg_type == cluster_heart_msg
      then on_heart msg.msg_body c
      else if msg.msg_type == cluster_public_msg
      then on_public msg.msg_body c
      else if msg.msg_type == cluster_login_msg
      then on_login msg.msg_body c
      else if msg.msg_type == cluster_client_info_msg
      then on_client_info msg.msg_from msg.msg_body c
      else ok c

  -- What the loop's `select` takes
  unfoldable pub cycle_case : Option RoutingCommunicateMsg → Cycle → Outcome Cycle
  cycle_case none c = ok (tick_100ms c)
  cycle_case (some msg) c = process_cycle_msg msg c

  -- The loop, over what it takes: a beat of the ticker is `none`.
  unfoldable pub start_cluster_server_cycly :
      List (Option RoutingCommunicateMsg) → Cycle → Outcome Cycle
  start_cluster_server_cycly [] c = ok c
  start_cluster_server_cycly (e ∷ events) c = do
    c ← cycle_case e c
    start_cluster_server_cycly events c
