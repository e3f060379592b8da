-- ===== src/Process/Dispatch/Relay.antt =====
-- A message from the routine of the nodes, by its datagram, to the subscribers of another node.
use mqtt_server_go.Prelude.{
  ℕ, ◌≡◌, ◌<◌, ◌≤◌, arith, refl, List, [], ◌∷◌, ◌++◌, Bytes, Option, some, ok, length,
}
use mqtt_server_go.ProtocolStack.Publish.{MqttPacketPublishData}
use mqtt_server_go.ProtocolStack.Publish.Layout.{Fits}
use mqtt_server_go.Cluster.Message.{
  ClusterClientInfo, UdpAddr, RoutingCommunicateMsg, publish_data, cluster_msg_publish_dispatch,
  cluster_public_msg,
}
use mqtt_server_go.Cluster.Frames.{build_cluster_publish_msg, dispatch_ch}
use mqtt_server_go.Cluster.Start.{came, start_cluster_server_recv}
use mqtt_server_go.Cluster.Start.Arrivals.{message_received, message_cut}
use mqtt_server_go.Cluster.Cycle.{Cycle, process_cycle_msg}
use mqtt_server_go.Cluster.Cycle.Reaches.{sent_to_all, process_public}
use mqtt_server_go.Process.Server.{Server}
use mqtt_server_go.Process.Deliver.Ready.{Visitable}
use mqtt_server_go.Process.Deliver.Releasing.{Once}
use mqtt_server_go.Process.Deliver.Relaying.{Relayed, relays}
use mqtt_server_go.Process.Handlers.{cluster_msg}
use mqtt_server_go.Process.Dispatch.{process_msg, cluster_publish}

-- encoding/json for the two types
module _ (marshal_publish : MqttPacketPublishData → Bytes)
    (marshal_info : ClusterClientInfo → Bytes)
    (unmarshal_publish : Bytes → Option MqttPacketPublishData)
    (unmarshal_info : Bytes → Option ClusterClientInfo) (rand : ℕ → ℕ) (fuel : ℕ) where
  -- For a message whose JSON text is read back and takes at most 4092 bytes, of a quality below 3 and with
  -- fields that fit its packet; and for clients of the receiving node of which none is visited twice, that
  -- have distinct topics and get a free packet id. The routine of the nodes that gets the message sends
  -- one datagram, the same to each node with more than a second left, in their order. The receiver of a
  -- node that it comes to hands the dispatcher one message and keeps the fragments so far. The dispatcher
  -- ends with it, having passed each client without the topic, and having given the message once to each
  -- other: written under an id that the client does not use, which then waits for the PUBACK or the PUBREC
  -- that the quality asks for, if the client is logged in; otherwise kept for it, unless the quality is 0.
  pub message_crosses :
      (p : MqttPacketPublishData) (c : Cycle) (before : Bytes) (addr : UdpAddr) (visit : List ℕ)
      (s : Server)
      → unmarshal_publish (marshal_publish p) ≡ some p
      → length (marshal_publish p) ≤ 4092
      → p.qos < 3
      → Fits p
      → Once visit
      → Visitable rand fuel s.heap visit
      → (c' : Cycle) × (payload : Bytes) × (msg : RoutingCommunicateMsg) × (s' : Server)
        × (process_cycle_msg marshal_publish marshal_info
              (cluster_msg cluster_public_msg (publish_data p))
              c
            ≡ ok c')
        × (c'.sent ≡ c.sent ++ sent_to_all payload c.cluster_server_nodes)
        × (start_cluster_server_recv unmarshal_publish unmarshal_info
              (came payload addr ∷ [])
              before
            ≡ ok (before, dispatch_ch msg ∷ []))
        × (process_msg rand fuel visit msg s ≡ ok (tt, s'))
        × Relayed p visit s s'
  unfolding process_msg cluster_publish
  message_crosses p c before addr visit s e short small f once v =
      let json = marshal_publish p in
      let (c', run_here, sent) = process_public marshal_publish marshal_info p [] c in
      let (s', id, run_there, steps) = relays rand fuel p small f visit p.packet_id s once v in
      (
        c',
        build_cluster_publish_msg json,
        record {
          msg_type = cluster_msg_publish_dispatch;
          msg_from = addr.name;
          msg_body = publish_data p;
        },
        s',
        run_here,
        sent,
        message_received unmarshal_publish unmarshal_info before addr p json e (omega arith),
        rw run_there refl,
        steps,
      )

  -- For a message whose JSON text takes more than 4092 bytes and at most 65503, so that one datagram
  -- carries it: the routine of the nodes sends it to each node with more than a second left, in one
  -- datagram, the same to each, and the receiver of a node that it comes to hands on nothing.
  pub message_lost :
      (p : MqttPacketPublishData) (c : Cycle) (before : Bytes) (addr : UdpAddr)
      → 4092 < length (marshal_publish p)
      → length (marshal_publish p) ≤ 65503
      → (c' : Cycle) × (payload : Bytes) × (process_cycle_msg marshal_publish marshal_info
            (cluster_msg cluster_public_msg (publish_data p))
            c
          ≡ ok c')
        × (c'.sent ≡ c.sent ++ sent_to_all payload c.cluster_server_nodes)
        × (start_cluster_server_recv unmarshal_publish unmarshal_info
              (came payload addr ∷ [])
              before
            ≡ ok (before, []))
  message_lost p c before addr long carried =
      let json = marshal_publish p in
      let (c', run, sent) = process_public marshal_publish marshal_info p [] c in
      (
        c',
        build_cluster_publish_msg json,
        run,
        sent,
        message_cut unmarshal_publish unmarshal_info before addr json (omega arith) (omega arith),
      )
