-- ===== src/Cluster/Cycle/Reaches.antt =====
-- What a message for all nodes is sent to.
use mqtt_server_go.Prelude.{
  ◌≡◌, refl, ap, inl, inr, Bool-cases, List, [], ◌∷◌, ◌++◌, map, Bytes, ok, leb, ltb, if◌then◌else◌,
  arith, true, false,
}
use mqtt_server_go.ProtocolStack.Publish.{MqttPacketPublishData}
use mqtt_server_go.Cluster.Message.{ClusterClientInfo, publish_data, cluster_public_msg}
use mqtt_server_go.Cluster.Node.{ClusterNodeInfo, keep_alive_time_escape_1_sec}
use mqtt_server_go.Cluster.Frames.{build_cluster_publish_msg}
use mqtt_server_go.Cluster.Cycle.{
  Cycle, Sent, to_node, broadcast, broadcast_to, on_public, process_cycle_msg,
}

-- The nodes with more than a second left
unfoldable pub alive_nodes : List ClusterNodeInfo → List ClusterNodeInfo
alive_nodes [] = []
alive_nodes (node ∷ nodes) =
    if ltb 1 node.keep_alive_timeout then node ∷ alive_nodes nodes else alive_nodes nodes

abbrev pub sent_to_all : Bytes → List ClusterNodeInfo → List Sent
sent_to_all msg nodes = map (λ node. to_node node.ip node.port msg) (alive_nodes nodes)

broadcast-sent :
    (msg : Bytes) (nodes : List ClusterNodeInfo) → (broadcast msg nodes).1 ≡ sent_to_all msg nodes
unfolding broadcast keep_alive_time_escape_1_sec alive_nodes
broadcast-sent msg [] = refl
broadcast-sent msg (node ∷ nodes) = elim (Bool-cases (leb node.keep_alive_timeout 1)) [
  | inl dead ↦
      let e : ltb 1 node.keep_alive_timeout ≡ false = ground arith in
      rw (dead, e) (broadcast-sent msg nodes)
  | inr alive ↦
      let e : ltb 1 node.keep_alive_timeout ≡ true = ground arith in
      rw (alive, e)
        (ap (λ (sent : List Sent). to_node node.ip node.port msg ∷ sent) (broadcast-sent msg nodes))
]

module _ (marshal_publish : MqttPacketPublishData → Bytes)
    (marshal_info : ClusterClientInfo → Bytes) where
  pub process_public :
      (p : MqttPacketPublishData) (from : Bytes) (c : Cycle)
      → (c' : Cycle) × (process_cycle_msg marshal_publish marshal_info
            (record { msg_type = cluster_public_msg; msg_from = from; msg_body = publish_data p })
            c
          ≡ ok c')
        × (c'.sent
            ≡ c.sent
              ++ sent_to_all (build_cluster_publish_msg (marshal_publish p)) c.cluster_server_nodes)
  unfolding process_cycle_msg on_public broadcast_to
  process_public p from c = (
    broadcast_to (build_cluster_publish_msg (marshal_publish p)) c,
    refl,
    ap (λ (m : List Sent). c.sent ++ m)
        (broadcast-sent (build_cluster_publish_msg (marshal_publish p)) c.cluster_server_nodes),
  )
