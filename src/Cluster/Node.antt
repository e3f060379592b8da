-- ===== src/Cluster/Node.antt =====
-- cluster/cluster_node.go: another node and the time that is left to it.
use mqtt_server_go.Prelude.{
  ℕ, ◌+◌, ◌-◌, ◌%◌, ◌^◌, Bool, true, false, Bytes, length, slice, Outcome, ok, ◌>>=◌, or_panic, leb,
  if◌then◌else◌,
}
use mqtt_server_go.Strconv.{atoi, index_of}

-- `HeartTime` is set and never read. The timeout is an `int8`; it is set to 60 and only counted down to 0.
pub record ClusterNodeInfo : Type 0 where
  pub ip : Bytes
  pub port : ℕ
  pub keep_alive_timeout : ℕ
  pub heart_time : ℕ

-- An address without a colon panics. The error of `Atoi` is ignored.
unfoldable pub create_cluster_node : Bytes → Outcome ClusterNodeInfo
create_cluster_node address = do
  index ← or_panic (index_of b':' address)
  ip ← slice address 0 index
  port ← slice address (index + 1) (length address)
  ok (record { ip = ip; port = (atoi port).0 % 2 ^ 16; keep_alive_timeout = 60; heart_time = 0 })

unfoldable pub update_keep_alive_timeout : ClusterNodeInfo → ClusterNodeInfo
update_keep_alive_timeout node = record node { keep_alive_timeout = 60 }

-- `node.KeepAliveTimeOut--`, back to 0 if that is not above 0, and whether the node is alive.
unfoldable pub keep_alive_time_escape_1_sec : ClusterNodeInfo → ClusterNodeInfo × Bool
keep_alive_time_escape_1_sec node =
    if leb node.keep_alive_timeout 1
    then (record node { keep_alive_timeout = 0 }, false)
    else (record node { keep_alive_timeout = node.keep_alive_timeout - 1 }, true)
