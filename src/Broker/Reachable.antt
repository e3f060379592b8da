-- ===== src/Broker/Reachable.antt =====
-- What holds in every state that the whole broker reaches: what holds for its parts by themselves.
use mqtt_server_go.Prelude.{
  ℕ, ◌≡◌, refl, ◌∙◌, subst, List, [], ◌∷◌, All, map, Bytes, lookup, bytes_eq, get_elem?, Option,
  none, some, ok, >>=-inv,
}
use mqtt_server_go.ProtocolStack.Publish.{MqttPacketPublishData}
use mqtt_server_go.Cluster.Message.{ClusterClientInfo, RoutingCommunicateMsg}
use mqtt_server_go.Cluster.Node.{ClusterNodeInfo}
use mqtt_server_go.Cluster.Frames.{Handed, cycle_ch, dispatch_ch}
use mqtt_server_go.Cluster.Start.{recv}
use mqtt_server_go.Cluster.Cycle.{Cycle, cycle_case}
use mqtt_server_go.Cluster.Cycle.Nodes.{InTime, address, Follows, Follows-InTime}
use mqtt_server_go.Cluster.Cycle.Runs.{cycle_case-Ends}
use mqtt_server_go.Process.Server.{MqttClientInfo}
use mqtt_server_go.Process.Deliver.Topics.{Distinct}
use mqtt_server_go.Process.Invariant.{IsClient}
use mqtt_server_go.Process.System.{
  Event, accept, read, lose, take_msg, from_cluster, tick_over, step,
}
use mqtt_server_go.Process.System.Reachable.{Reach, boot, next, Reach-Valid}
use mqtt_server_go.Broker.{
  Broker, BrokerEvent, round, cycle_takes, cycle_beats, datagram, hand_on, run_round, round_step,
  cycle_step, beat_step, recv_step, broker_step, broker_steps, started,
}

module _ (rand : ℕ → ℕ) (fuel : ℕ) (nodes : List ClusterNodeInfo) where
  -- The routines of process/ are in a state that they reach with messages of the cluster, and the nodes
  -- are those of the start, each in its time.
  abbrev Holds : Broker → Type 0
  Holds b =
      Reach rand fuel b.system
      × (map address b.cycle.cluster_server_nodes ≡ map address nodes)
      × All InTime b.cycle.cluster_server_nodes

  ok_Holds : {b b' : Broker} → ok b ≡ ok b' → Holds b → Holds b'
  ok_Holds {b} {b'} e h = let same : b ≡ b' = cc in subst Holds same h

  hand_on-Holds : (handed : List Handed) (b : Broker) → Holds b → Holds (hand_on handed b)
  unfolding hand_on step
  hand_on-Holds [] b h = h
  hand_on-Holds (cycle_ch msg ∷ handed) b h = hand_on-Holds handed _ h
  hand_on-Holds (dispatch_ch msg ∷ handed) b (r, n, t) =
      hand_on-Holds handed _ (next b.system _ (from_cluster msg) r refl, n, t)

  run_round-Holds :
      (e : Event) (b b' : Broker) → run_round rand fuel e b ≡ ok b' → Holds b → Holds b'
  unfolding run_round
  run_round-Holds e b b' run (r, n, t) =
      let (y, there, end) = >>=-inv (step rand fuel e b.system) _ run in
      ok_Holds end (next b.system y e r there, n, t)

  round_step-Holds :
      (e : Event) (b b' : Broker) → round_step rand fuel e b ≡ ok b' → Holds b → Holds b'
  unfolding round_step
  round_step-Holds (from_cluster msg) b b' run h = ok_Holds run h
  round_step-Holds (accept conn) b b' run h = run_round-Holds _ b b' run h
  round_step-Holds (read conn read_buf num) b b' run h = run_round-Holds _ b b' run h
  round_step-Holds (lose conn) b b' run h = run_round-Holds _ b b' run h
  round_step-Holds (take_msg visit i) b b' run h = run_round-Holds _ b b' run h
  round_step-Holds (tick_over visit) b b' run h = run_round-Holds _ b b' run h

  module _ (marshal_publish : MqttPacketPublishData → Bytes)
      (marshal_info : ClusterClientInfo → Bytes)
      (unmarshal_publish : Bytes → Option MqttPacketPublishData)
      (unmarshal_info : Bytes → Option ClusterClientInfo) where
    nodes_Hold :
        (e : Option RoutingCommunicateMsg) (b : Broker) (c : Cycle)
        → cycle_case marshal_publish marshal_info e b.cycle ≡ ok c
        → Holds b
        → (map address c.cluster_server_nodes ≡ map address nodes)
          × All InTime c.cluster_server_nodes
    nodes_Hold e b c run (r, n, t) =
        let follows : Follows b.cycle.cluster_server_nodes c.cluster_server_nodes =
          rw run at (cycle_case-Ends marshal_publish marshal_info e b.cycle) in
        let (same, times) = Follows-InTime _ _ follows t in (same ∙ n, times)

    cycle_step-Holds :
        (i : ℕ) (o : Option RoutingCommunicateMsg) (b b' : Broker)
        → cycle_step rand fuel marshal_publish marshal_info unmarshal_publish unmarshal_info i o b
          ≡ ok b'
        → Holds b
        → Holds b'
    unfolding cycle_step
    cycle_step-Holds i none b b' run h = ok_Holds run h
    cycle_step-Holds i (some msg) b b' run h =
        let (c, there, end) =
          >>=-inv (cycle_case marshal_publish marshal_info (some msg) b.cycle) _ run in
        let (n, t) = nodes_Hold (some msg) b c there h in ok_Holds end (h.0, n, t)

    step-Holds :
        (e : BrokerEvent) (b b' : Broker)
        → broker_step rand fuel marshal_publish marshal_info unmarshal_publish unmarshal_info e b
          ≡ ok b'
        → Holds b
        → Holds b'
    unfolding broker_step beat_step recv_step
    step-Holds (round e) b b' run h = round_step-Holds e b b' run h
    step-Holds (cycle_takes i) b b' run h = cycle_step-Holds i _ b b' run h
    step-Holds cycle_beats b b' run h =
        let (c, there, end) =
          >>=-inv (cycle_case marshal_publish marshal_info none b.cycle) _ run in
        let (n, t) = nodes_Hold none b c there h in ok_Holds end (h.0, n, t)
    step-Holds (datagram data_buf n raddr) b b' run h =
        let ((info, handed), there, end) =
          >>=-inv (recv unmarshal_publish unmarshal_info b.client_info_msg data_buf n raddr) _
            run in
        ok_Holds end (hand_on-Holds handed _ h)

    steps-Holds :
        (events : List BrokerEvent) (b b' : Broker)
        → broker_steps rand fuel marshal_publish marshal_info unmarshal_publish unmarshal_info
            events b
          ≡ ok b'
        → Holds b
        → Holds b'
    unfolding broker_steps
    steps-Holds [] b b' run h = ok_Holds run h
    steps-Holds (e ∷ events) b b' run h =
        let (d, there, rest) =
          >>=-inv
            (broker_step rand fuel marshal_publish marshal_info unmarshal_publish unmarshal_info e
              b)
            _ run in
        steps-Holds events d b' rest (step-Holds e b d there h)

    -- For nodes that have at most 60 seconds left at the start, and whatever rounds the routines make in
    -- whatever order, as long as none of them panics: the routines of process/ are in a state that they
    -- reach by themselves when the messages of other nodes are given to them, so no client id stands
    -- twice in the map, each leads to a record of that client, and every record is that of a client;
    -- and the nodes are those of the start, in their order, each with at most 60 seconds left.
    pub broker_steps-Valid :
        (events : List BrokerEvent) (b : Broker)
        → All InTime nodes
        → broker_steps rand fuel marshal_publish marshal_info unmarshal_publish unmarshal_info
            events
            (started nodes)
          ≡ ok b
        → Reach rand fuel b.system
          × Distinct b.system.server.clients
          × ((id : Bytes) (a : ℕ)
              → lookup id b.system.server.clients ≡ some a
              → (c : MqttClientInfo) × (get_elem? b.system.server.heap a ≡ some c)
                × (c.client_id ≡ id))
          × ((a : ℕ) (c : MqttClientInfo) → get_elem? b.system.server.heap a ≡ some c → IsClient c)
          × (map address b.cycle.cluster_server_nodes ≡ map address nodes)
          × All InTime b.cycle.cluster_server_nodes
    broker_steps-Valid events b times run =
        let (r, same, after) = steps-Holds events (started nodes) b run (boot, refl, times) in
        let (keys, entries, records) = Reach-Valid rand fuel b.system r in
        (r, keys, entries, records, same, after)
