-- ===== src/Cluster/Start.antt =====
-- `StartClusterServerNode` and `startClusterServerRecv` of cluster/cluster_server.go.
pub mod Addresses
pub mod Arrivals
mod Tests
use mqtt_server_go.Prelude.{
  ℕ, zero, suc, ◌-◌, length, take, List, [], ◌∷◌, ◌++◌, Bytes, codes, Bool, true, false, Outcome,
  ok, ◌>>=◌, Option, none, some, ltb, ◌==◌, if◌then◌else◌,
}
use mqtt_server_go.Strconv.{itoa}
use mqtt_server_go.Config.{ConfigFile, read_config_value_int, read_config_value_string}
use mqtt_server_go.ProtocolStack.Publish.{MqttPacketPublishData}
use mqtt_server_go.Cluster.Message.{UdpAddr, ClusterClientInfo}
use mqtt_server_go.Cluster.Node.{ClusterNodeInfo, create_cluster_node}
use mqtt_server_go.Cluster.Frames.{Handed, process_cluster_node_msg}

-- `strings.Split(s, "/")`, for a byte in place of the slash
unfoldable pub split : ℕ → Bytes → List Bytes
split x [] = [] ∷ []
split x (y ∷ ys) = if y == x then [] ∷ split x ys else behind y (split x ys)
  where
    behind : ℕ → List Bytes → List Bytes
    behind y [] = (y ∷ []) ∷ []
    behind y (part ∷ parts) = (y ∷ part) ∷ parts

-- The value that is returned, `clusterServerNodes`, and whether `Cluster_Ch` was made and the two
-- routines were started.
pub record Started : Type 0 where
  pub ret : ℕ
  pub cluster_server_nodes : List ClusterNodeInfo
  pub running : Bool

unfoldable pub append_nodes : List Bytes → List ClusterNodeInfo → Outcome (List ClusterNodeInfo)
append_nodes [] nodes = ok nodes
append_nodes (node_addr ∷ addrs) nodes = do
  node ← create_cluster_node node_addr
  append_nodes addrs (nodes ++ node ∷ [])

unfoldable pub cluster_address : ConfigFile → Bytes
cluster_address cfg =
    codes "0.0.0.0:" ++ itoa (read_config_value_int cfg (codes "cluster") (codes "port")).0

-- `create_cluster_socket` says whether the socket is there.
unfoldable pub start_cluster_server_node :
    ConfigFile → (Bytes → Bool) → List ClusterNodeInfo → Outcome Started
start_cluster_server_node cfg create_cluster_socket nodes =
    if create_cluster_socket (cluster_address cfg)
    then with_servers (read_config_value_string cfg (codes "cluster") (codes "coservers"))
    else ok (record { ret = 0; cluster_server_nodes = nodes; running = false })
  where
    with_servers : Bytes × Bool → Outcome Started
    with_servers (cluster_nodes, true) =
        ok (record { ret = 0; cluster_server_nodes = nodes; running = false })
    with_servers (cluster_nodes, false) = do
      nodes ← append_nodes (split b'/' cluster_nodes) nodes
      ok (record { ret = 1; cluster_server_nodes = nodes; running = true })

-- What `ReadFromUDP` meets: an error, or a datagram and its sender.
pub data Datagram : Type 0 where
  unread : Datagram
  came : Bytes → UdpAddr → Datagram

abbrev pub buffer_size : ℕ
buffer_size = 4096

-- `make([]byte, n)`
unfoldable pub zeros : ℕ → Bytes
zeros zero = []
zeros (suc n) = 0 ∷ zeros n

-- `data` and `n` behind `ReadFromUDP(data)`: what the buffer has no room for is lost.
unfoldable pub read_from_udp : Bytes → Bytes × ℕ
read_from_udp payload =
    let part = take buffer_size payload in (part ++ zeros (buffer_size - length part), length part)

module _ (unmarshal_publish : Bytes → Option MqttPacketPublishData)
    (unmarshal_info : Bytes → Option ClusterClientInfo) where
  -- One datagram
  unfoldable pub recv : Bytes → Bytes → ℕ → UdpAddr → Outcome (Bytes × List Handed)
  recv client_info_msg data_buf n raddr =
      if ltb n 4
      then ok (client_info_msg, [])
      else process_cluster_node_msg unmarshal_publish unmarshal_info client_info_msg data_buf n
          raddr

  -- The loop, over what comes: the messages that are handed on, and `clientInfoMsg` at the end.
  unfoldable pub start_cluster_server_recv : List Datagram → Bytes → Outcome (Bytes × List Handed)
  start_cluster_server_recv [] client_info_msg = ok (client_info_msg, [])
  start_cluster_server_recv (unread ∷ datagrams) client_info_msg = ok (client_info_msg, [])
  start_cluster_server_recv (came payload raddr ∷ datagrams) client_info_msg = do
    let (data_buf, n) = read_from_udp payload
    (client_info_msg, handed) ← recv client_info_msg data_buf n raddr
    (client_info_msg, more) ← start_cluster_server_recv datagrams client_info_msg
    ok (client_info_msg, handed ++ more)
