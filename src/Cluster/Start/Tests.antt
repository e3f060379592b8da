-- ===== src/Cluster/Start/Tests.antt =====
-- The start of the cluster with two other nodes in the configuration, and with none.
use mqtt_server_go.Prelude.{
  ◌≡◌, refl, arith, [], ◌∷◌, Bytes, codes, Bool, true, none, some, ok, All,
}
use mqtt_server_go.Strconv.{itoa, digits}
use mqtt_server_go.Strconv.Cut.{lacks_sound}
use mqtt_server_go.Config.{ConfigFile}
use mqtt_server_go.Cluster.Start.{start_cluster_server_node}
use mqtt_server_go.Cluster.Start.Addresses.{IsServer, join, new_node, start_cluster_server_node_lem}

abbrev with_servers : Bytes → ConfigFile
with_servers value = record {
  int = λ section key. some 9001;
  get_value = λ section key. some value;
  bool = λ section key. none;
  float64 = λ section key. none;
}

abbrev bound : Bytes → Bool
bound address = true

abbrev two : Bytes
two = join (codes "10.0.0.2", 9001) ((codes "n3", 9002) ∷ [])

two_text : two ≡ codes "10.0.0.2:9001/n3:9002"
unfolding itoa digits
two_text = refl

two-IsServer : All IsServer ((codes "10.0.0.2", 9001) ∷ (codes "n3", 9002) ∷ [])
two-IsServer = (
  (lacks_sound b':' (codes "10.0.0.2") refl, lacks_sound b'/' (codes "10.0.0.2") refl, omega arith),
  ((lacks_sound b':' (codes "n3") refl, lacks_sound b'/' (codes "n3") refl, omega arith), tt),
)

start_cluster_server_node_lem_example :
    start_cluster_server_node (with_servers two) bound []
    ≡ ok (record {
      ret = 1;
      cluster_server_nodes = new_node (codes "10.0.0.2", 9001) ∷ new_node (codes "n3", 9002) ∷ [];
      running = true;
    })
start_cluster_server_node_lem_example =
    start_cluster_server_node_lem (with_servers two) bound (codes "10.0.0.2", 9001)
      ((codes "n3", 9002) ∷ []) two-IsServer refl refl
