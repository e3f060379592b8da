-- ===== src/Process/Dispatch/Departure.antt =====
-- What the datagram about a login at another node sets off at a node that has the client.
use mqtt_server_go.Prelude.{
  ℕ, ◌≤◌, ◌≡◌, ◌∙◌, refl, arith, List, [], ◌∷◌, ◌++◌, Bytes, Map, Option, lookup, delete,
  lookup-delete, beq_self, bytes_eq, Option, none, ok, panic, length,
}
use mqtt_server_go.ProtocolStack.Publish.{MqttPacketPublishData}
use mqtt_server_go.Cluster.Message.{
  ClusterClientInfo, UdpAddr, RoutingCommunicateMsg, text, client_info, cluster_client_info_msg,
  cluster_msg_login_notify,
}
use mqtt_server_go.Cluster.Frames.{build_cluster_login_msg, dispatch_ch}
use mqtt_server_go.Cluster.Start.{came, start_cluster_server_recv}
use mqtt_server_go.Cluster.Start.Arrivals.{login_received}
use mqtt_server_go.Cluster.Cycle.{Cycle, process_cycle_msg}
use mqtt_server_go.Cluster.Cycle.Informs.{informs_panic}
use mqtt_server_go.Process.Server.{MqttClientInfo, Server, to_cluster, emit}
use mqtt_server_go.Process.Deliver.Topics.{Distinct}
use mqtt_server_go.Process.Dispatch.{process_msg, cluster_login, hand_over, copy_entries}
use mqtt_server_go.Process.Session.Moves.{
  FirstOf, login_loop_first, lookup-copy_entries, or_else-none,
}

-- The message for the other node
abbrev pub handed_over : UdpAddr → ClusterClientInfo → RoutingCommunicateMsg
handed_over addr info = record {
  msg_type = cluster_client_info_msg;
  msg_from = addr.name;
  msg_body = client_info info;
}

copied :
    (m : Map Bytes ℕ) (topic : Bytes)
    → Distinct m
    → lookup topic (copy_entries m []) ≡ lookup topic m
unfolding lookup
copied m topic d = lookup-copy_entries topic m [] d ∙ or_else-none (lookup topic m)

-- encoding/json for the two types
module _ (marshal_publish : MqttPacketPublishData → Bytes)
    (marshal_info : ClusterClientInfo → Bytes)
    (unmarshal_publish : Bytes → Option MqttPacketPublishData)
    (unmarshal_info : Bytes → Option ClusterClientInfo) (rand : ℕ → ℕ) (fuel : ℕ) where
  -- For a client id of at most 4092 bytes, and a node whose visit has a client of that id, the first such
  -- one with distinct topics: the datagram that another node builds for a login under the id hands the
  -- dispatcher one message. The dispatcher ends with it, having deleted the id from its map and sent one
  -- message for the other node to the routine of the nodes, with the id, the client's topics with their
  -- qualities, and its kept messages. That routine panics on the message, whatever its state, which ends
  -- the process of the node with all its connections.
  pub login_elsewhere :
      (id before : Bytes) (addr : UdpAddr) (visit : List ℕ) (s : Server) {a : ℕ}
      {c : MqttClientInfo}
      → length id ≤ 4092
      → FirstOf s id visit a c
      → Distinct c.sub_info
      → (msg : RoutingCommunicateMsg) × (info : ClusterClientInfo) × (s' : Server)
        × (start_cluster_server_recv unmarshal_publish unmarshal_info
              (came (build_cluster_login_msg id) addr ∷ [])
              before
            ≡ ok (before, dispatch_ch msg ∷ []))
        × (process_msg rand fuel visit msg s ≡ ok (tt, s'))
        × (lookup id s'.clients ≡ none)
        × (s'.trace ≡ s.trace ++ to_cluster (handed_over addr info) ∷ [])
        × (info.client_id ≡ id)
        × ((topic : Bytes) → lookup topic info.subinfo ≡ lookup topic c.sub_info)
        × (info.offline_msg ≡ c.offline_msg)
        × ((cycle : Cycle)
            → process_cycle_msg marshal_publish marshal_info (handed_over addr info) cycle ≡ panic)
  unfolding process_msg cluster_login hand_over emit
  login_elsewhere id before addr visit s {c} short first distinct =
      let info : ClusterClientInfo = record {
        client_id = id;
        subinfo = copy_entries c.sub_info [];
        offline_msg = c.offline_msg;
      } in
      (
        record { msg_type = cluster_msg_login_notify; msg_from = addr.name; msg_body = text id },
        info,
        record s {
          clients = delete id s.clients;
          trace = s.trace ++ to_cluster (handed_over addr info) ∷ [];
        },
        login_received unmarshal_publish unmarshal_info before addr id (omega arith),
        login_loop_first addr.name id s first,
        rw (lookup-delete id id s.clients, beq_self id) refl,
        refl,
        refl,
        λ topic. copied c.sub_info topic distinct,
        refl,
        λ cycle. informs_panic marshal_publish marshal_info addr.name info cycle,
      )
