-- ===== src/Broker.antt =====
-- The routines of process/ and of cluster/ together, as mqtt_server_main.go and StartClusterServerNode
-- of cluster/cluster_server.go start them, with the two channels between them. A step is one round of
-- one routine; a message that was sent waits until the routine that it is for takes it.
pub mod Reachable
mod Tests
use mqtt_server_go.Prelude.{
  ℕ, List, [], ◌∷◌, ◌++◌, Bytes, length, drop, get_elem?, Option, none, some, Outcome, ok,
  ◌>>=◌ as and_then,
}
use mqtt_server_go.ProtocolStack.Publish.{MqttPacketPublishData}
use mqtt_server_go.Cluster.Message.{UdpAddr, ClusterClientInfo, RoutingCommunicateMsg}
use mqtt_server_go.Cluster.Node.{ClusterNodeInfo}
use mqtt_server_go.Cluster.Frames.{Handed, cycle_ch, dispatch_ch}
use mqtt_server_go.Cluster.Start.{recv}
use mqtt_server_go.Cluster.Cycle.{Cycle, cycle_case}
use mqtt_server_go.Process.Server.{Server, Effect, write, close, to_dispatch, to_cluster}
use mqtt_server_go.Process.System.{
  System, Event, accept, read, lose, take_msg, from_cluster, tick_over, step, remove_at, booted,
}

-- The routines of process/, the routine of the nodes with what waits in `Cluster_Ch`, and the
-- receiver's `clientInfoMsg`.
pub record Broker : Type 0 where
  pub system : System
  pub cycle : Cycle
  pub cluster_inbox : List RoutingCommunicateMsg
  pub client_info_msg : Bytes

-- A step of process/; the routine of the nodes takes the message at a place of its channel, or a beat of
-- its ticker; a datagram comes.
pub data BrokerEvent : Type 0 where
  round : Event → BrokerEvent
  cycle_takes : ℕ → BrokerEvent
  cycle_beats : BrokerEvent
  datagram : Bytes → ℕ → UdpAddr → BrokerEvent

-- The messages to the routine of the nodes among the effects
unfoldable pub sent_to_cluster : List Effect → List RoutingCommunicateMsg
sent_to_cluster [] = []
sent_to_cluster (to_cluster msg ∷ effects) = msg ∷ sent_to_cluster effects
sent_to_cluster (write _ _ ∷ effects) = sent_to_cluster effects
sent_to_cluster (close _ ∷ effects) = sent_to_cluster effects
sent_to_cluster (to_dispatch _ ∷ effects) = sent_to_cluster effects

-- What the receiver hands on waits behind the rest of either channel.
unfoldable pub hand_on : List Handed → Broker → Broker
hand_on [] b = b
hand_on (dispatch_ch msg ∷ handed) b =
    hand_on handed (record b { system = record b.system { inbox = b.system.inbox ++ msg ∷ [] } })
hand_on (cycle_ch msg ∷ handed) b =
    hand_on handed (record b { cluster_inbox = b.cluster_inbox ++ msg ∷ [] })

module _ (rand : ℕ → ℕ) (fuel : ℕ) where
  unfoldable pub run_round : Event → Broker → Outcome Broker
  run_round e b = and_then (step rand fuel e b.system) λ y. ok (record b {
    system = y;
    cluster_inbox =
        b.cluster_inbox ++ sent_to_cluster (drop (length b.system.server.trace) y.server.trace);
  })

  -- Messages of other nodes come by datagrams here.
  unfoldable pub round_step : Event → Broker → Outcome Broker
  round_step (from_cluster msg) b = ok b
  round_step (accept conn) b = run_round (accept conn) b
  round_step (read conn read_buf num) b = run_round (read conn read_buf num) b
  round_step (lose conn) b = run_round (lose conn) b
  round_step (take_msg visit i) b = run_round (take_msg visit i) b
  round_step (tick_over visit) b = run_round (tick_over visit) b

  -- encoding/json for the two types
  module _ (marshal_publish : MqttPacketPublishData → Bytes)
      (marshal_info : ClusterClientInfo → Bytes)
      (unmarshal_publish : Bytes → Option MqttPacketPublishData)
      (unmarshal_info : Bytes → Option ClusterClientInfo) where
    -- An empty place does nothing.
    unfoldable pub cycle_step : ℕ → Option RoutingCommunicateMsg → Broker → Outcome Broker
    cycle_step i none b = ok b
    cycle_step i (some msg) b =
        and_then (cycle_case marshal_publish marshal_info (some msg) b.cycle)
          λ c. ok (record b { cycle = c; cluster_inbox = remove_at i b.cluster_inbox })

    unfoldable pub beat_step : Broker → Outcome Broker
    beat_step b =
        and_then (cycle_case marshal_publish marshal_info none b.cycle)
          λ c. ok (record b { cycle = c })

    unfoldable pub recv_step : Bytes → ℕ → UdpAddr → Broker → Outcome Broker
    recv_step data_buf n raddr b =
        and_then (recv unmarshal_publish unmarshal_info b.client_info_msg data_buf n raddr)
          λ r. ok (hand_on r.1 (record b { client_info_msg = r.0 }))

    unfoldable pub broker_step : BrokerEvent → Broker → Outcome Broker
    broker_step (round e) b = round_step e b
    broker_step (cycle_takes i) b = cycle_step i (get_elem? b.cluster_inbox i) b
    broker_step cycle_beats b = beat_step b
    broker_step (datagram data_buf n raddr) b = recv_step data_buf n raddr b

    unfoldable pub broker_steps : List BrokerEvent → Broker → Outcome Broker
    broker_steps [] b = ok b
    broker_steps (e ∷ events) b = and_then (broker_step e b) (broker_steps events)

-- Nothing has happened, and the nodes are those of the configuration.
abbrev pub started : List ClusterNodeInfo → Broker
started nodes = record {
  system = booted;
  cycle = record {
    cluster_server_nodes = nodes;
    time_escape_100ms = 0;
    time_escape_1s = 0;
    sent = [];
  };
  cluster_inbox = [];
  client_info_msg = [];
}
