-- ===== src/Cluster/Start/Addresses.antt =====
-- The addresses of the other nodes in the configuration, and the nodes that are made of them.
use mqtt_server_go.Prelude.{
  ℕ, ◌^◌, ◌<◌, ◌≡◌, refl, ap, append-nil, Bool-cases, inl, inr, ◌∙◌, arith, List, [], ◌∷◌, ◌++◌,
  map, All, append_assoc, Bytes, panic, codes, Bool, true, false, ok, none, some, slice_front, ◌==◌,
  ==_self,
}
use mqtt_server_go.Strconv.{itoa, index_of}
use mqtt_server_go.Strconv.Cut.{
  Without, Without-append, itoa-Without, index_of-append, slice_behind,
}
use mqtt_server_go.Strconv.RoundTrip.{atoi-itoa}
use mqtt_server_go.Config.{ConfigFile, read_config_value_string}
use mqtt_server_go.Cluster.Node.{ClusterNodeInfo, create_cluster_node}
use mqtt_server_go.Cluster.Start.{split, append_nodes, cluster_address, start_cluster_server_node}

-- ip:port
abbrev pub address_of : Bytes → ℕ → Bytes
address_of ip port = ip ++ b':' ∷ itoa port

abbrev pub new_node : Bytes × ℕ → ClusterNodeInfo
new_node (ip, port) = record { ip = ip; port = port; keep_alive_timeout = 60; heart_time = 0 }

pub create_cluster_node_lem :
    (ip : Bytes) (port : ℕ)
    → Without b':' ip
    → port < 2 ^ 16
    → create_cluster_node (address_of ip port) ≡ ok (new_node (ip, port))
unfolding create_cluster_node
create_cluster_node_lem ip port w fits =
    rw
      (
        index_of-append b':' ip (itoa port) w,
        slice_front ip (b':' ∷ itoa port),
        slice_behind b':' ip (itoa port),
        atoi-itoa port (omega arith),
      )
      (ap (λ (p : ℕ). ok (record (new_node (ip, port)) { port = p })) (omega arith))

split-append :
    (x : ℕ) (part s : Bytes) → Without x part → split x (part ++ x ∷ s) ≡ part ∷ split x s
unfolding split
split-append x [] s h = rw (==_self x) refl
split-append x (y ∷ part) s (h, hs) = ground (arith, split-append x part s)

split-last : (x : ℕ) (part : Bytes) → Without x part → split x part ≡ part ∷ []
unfolding split
split-last x [] h = refl
split-last x (y ∷ part) (h, hs) = ground (arith, split-last x part)

-- The addresses with a slash between any two
abbrev pub join : Bytes × ℕ → List (Bytes × ℕ) → Bytes
join (ip, port) [] = address_of ip port
join (ip, port) (next ∷ servers) = address_of ip port ++ b'/' ∷ join next servers

-- An ip without a colon or a slash, and a port of 16 bits
abbrev pub IsServer : Bytes × ℕ → Type 0
IsServer (ip, port) = Without b':' ip × Without b'/' ip × (port < 2 ^ 16)

address_of-Without :
    (ip : Bytes) (port : ℕ) → IsServer (ip, port) → Without b'/' (address_of ip port)
address_of-Without ip port (c, w, fits) = Without-append b'/' ip (b':' ∷ itoa port) w (
  (λ (q : 58 ≡ 47). absurd (omega arith)),
  itoa-Without b'/' (λ d h e. omega arith) port (omega arith),
)

split-join :
    (server : Bytes × ℕ) (servers : List (Bytes × ℕ))
    → All IsServer (server ∷ servers)
    → split b'/' (join server servers) ≡ map (λ r. address_of r.0 r.1) (server ∷ servers)
split-join (ip, port) [] (h, hs) = split-last b'/' _ (address_of-Without ip port h)
split-join (ip, port) (next ∷ servers) (h, hs) =
    split-append b'/' _ _ (address_of-Without ip port h)
    ∙ ap (◌∷◌ (address_of ip port)) (split-join next servers hs)

append_nodes_lem :
    (servers : List (Bytes × ℕ)) (nodes : List ClusterNodeInfo)
    → All IsServer servers
    → append_nodes (map (λ r. address_of r.0 r.1) servers) nodes
      ≡ ok (nodes ++ map new_node servers)
unfolding append_nodes
append_nodes_lem [] nodes h = rw (append-nil nodes) refl
append_nodes_lem ((ip, port) ∷ servers) nodes ((c, w, fits), hs) =
    rw (create_cluster_node_lem ip port c fits) (
      append_nodes_lem servers (nodes ++ new_node (ip, port) ∷ []) hs
      ∙ ap ok (append_assoc nodes (new_node (ip, port) ∷ []) (map new_node servers)))

-- Where the configuration lists the other nodes, each as ip:port without a colon or a slash in the ip
-- and with a port of 16 bits, and a slash between any two, and the socket is there: the start returns 1,
-- has made one node for each, in order, that counts as alive for 60 seconds, and runs both routines.
pub start_cluster_server_node_lem :
    (cfg : ConfigFile) (create_cluster_socket : Bytes → Bool) (server : Bytes × ℕ)
    (servers : List (Bytes × ℕ))
    → All IsServer (server ∷ servers)
    → create_cluster_socket (cluster_address cfg) ≡ true
    → cfg.get_value (codes "cluster") (codes "coservers") ≡ some (join server servers)
    → start_cluster_server_node cfg create_cluster_socket []
      ≡ ok (record {
        ret = 1;
        cluster_server_nodes = map new_node (server ∷ servers);
        running = true;
      })
unfolding start_cluster_server_node read_config_value_string
start_cluster_server_node_lem cfg create_cluster_socket server servers h socket value =
    rw (socket, value, split-join server servers h, append_nodes_lem (server ∷ servers) [] h) refl

split_first :
    (x y : ℕ) (s : Bytes)
    → index_of y s ≡ none
    → (part : Bytes) × (parts : List Bytes) × (split x s ≡ part ∷ parts) × (index_of y part ≡ none)
unfolding split index_of
split_first x y [] e = ([], [], refl, refl)
split_first x y (z ∷ s) e =
    let other : ((z == y) ≡ false) × (index_of y s ≡ none) = ground arith in
    let (part, parts, p, q) = split_first x y s other.1 in
    elim (Bool-cases (z == x)) [
      | inl same ↦ ([], split x s, rw same refl, refl)
      | inr e' ↦ (z ∷ part, parts, rw (e', p) refl, rw (other.0, q) refl)
    ]

-- A list of the other nodes without any colon, the empty one among them, ends the process at the start.
pub start_cluster_server_node-panic :
    (cfg : ConfigFile) (create_cluster_socket : Bytes → Bool) (nodes : List ClusterNodeInfo)
    (value : Bytes)
    → create_cluster_socket (cluster_address cfg) ≡ true
    → cfg.get_value (codes "cluster") (codes "coservers") ≡ some value
    → index_of b':' value ≡ none
    → start_cluster_server_node cfg create_cluster_socket nodes ≡ panic
unfolding start_cluster_server_node read_config_value_string append_nodes create_cluster_node
start_cluster_server_node-panic cfg create_cluster_socket nodes value socket e absent =
    let (part, parts, p, q) = split_first b'/' b':' value absent in rw (socket, e, p, q) refl
