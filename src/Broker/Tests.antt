-- ===== src/Broker/Tests.antt =====
-- A run of the whole broker: a client logs in, the other node is told so by a datagram, and a heartbeat
-- of that node comes.
use mqtt_server_go.Prelude.{
  ℕ, ◌≡◌, refl, arith, [], ◌∷◌, List, All, map, Bytes, lookup, insert, bytes_eq, nat_eq, Option,
  some, none, ok, get_elem?, index_at, slice, slice_from,
}
use mqtt_server_go.ProtocolStack.Packet.{
  mqtt_packet_decode, mqtt_packet_read_string, mqtt_packet_read_protocol, append_length,
  mqtt_packet_parse_fix_header, read_word, word_bytes, prefix_length, packet_type, copy_loop,
  word16,
}
use mqtt_server_go.ProtocolStack.Publish.{MqttPacketPublishData}
use mqtt_server_go.ProtocolStack.Connect.{
  read_field, read_wills, read_login, deserialize_connect_fields, mqtt_deserialize_connect,
  mqtt_seserialize_connack,
}
use mqtt_server_go.Cluster.Message.{UdpAddr, ClusterClientInfo}
use mqtt_server_go.Cluster.Node.{
  ClusterNodeInfo, update_keep_alive_timeout, keep_alive_time_escape_1_sec,
}
use mqtt_server_go.Cluster.Frames.{
  frame, build_cluster_login_msg, process_frame, process_cluster_node_msg,
}
use mqtt_server_go.Cluster.Start.{recv}
use mqtt_server_go.Cluster.Cycle.{
  to_node, tick_100ms, hear, broadcast, broadcast_to, on_heart, on_login, process_cycle_msg,
  cycle_case,
}
use mqtt_server_go.Cluster.Cycle.Nodes.{InTime, address}
use mqtt_server_go.Process.Server.{MqttClientInfo, load, store, emit, find_client}
use mqtt_server_go.Process.Samples.{rand}
use mqtt_server_go.Process.Handlers.{client_add}
use mqtt_server_go.Process.Dispatch.{process_msg, send_offline}
use mqtt_server_go.Process.Session.{
  allocate, session_of, login, process_connect, process_type, process_read,
}
use mqtt_server_go.Process.Deliver.Topics.{Distinct}
use mqtt_server_go.Process.Invariant.{IsClient}
use mqtt_server_go.Process.System.{
  accept, read, take_msg, dispatch_case, sent_to_dispatch, with_sent, remove_at, read_step,
  take_step, step,
}
use mqtt_server_go.Process.System.Samples.{connect_packet, logged_on}
use mqtt_server_go.Process.System.Reachable.{Reach}
use mqtt_server_go.Broker.{
  Broker, BrokerEvent, round, cycle_takes, cycle_beats, datagram, sent_to_cluster, hand_on,
  run_round, round_step, cycle_step, beat_step, recv_step, broker_step, broker_steps, started,
}
use mqtt_server_go.Broker.Reachable.{broker_steps-Valid}

abbrev node : ℕ → ClusterNodeInfo
node time = record { ip = 49 ∷ []; port = 81; keep_alive_timeout = time; heart_time = 0 }

abbrev addr : UdpAddr
addr = record { ip = 49 ∷ []; port = 81; name = 49 ∷ 58 ∷ 56 ∷ 49 ∷ [] }

abbrev marshal_publish : MqttPacketPublishData → Bytes
marshal_publish p = []

abbrev marshal_info : ClusterClientInfo → Bytes
marshal_info info = []

abbrev unmarshal_publish : Bytes → Option MqttPacketPublishData
unmarshal_publish json = none

abbrev unmarshal_info : Bytes → Option ClusterClientInfo
unmarshal_info json = none

abbrev events : List BrokerEvent
events =
    cycle_beats
    ∷ round (accept 7)
    ∷ round (read 7 connect_packet 15)
    ∷ round (take_msg [] 0)
    ∷ cycle_takes 0
    ∷ datagram (0 ∷ 1 ∷ 0 ∷ 0 ∷ []) 4 addr
    ∷ cycle_takes 0
    ∷ []

abbrev after : Broker
after = record {
  system = logged_on;
  cycle = record {
    cluster_server_nodes = node 60 ∷ [];
    time_escape_100ms = 1;
    time_escape_1s = 0;
    sent = to_node (49 ∷ []) 81 (0 ∷ 3 ∷ 0 ∷ 1 ∷ 122 ∷ []) ∷ [];
  };
  cluster_inbox = [];
  client_info_msg = [];
}

broker_run :
    broker_steps rand 1 marshal_publish marshal_info unmarshal_publish unmarshal_info events
      (started (node 30 ∷ []))
    ≡ ok after
unfolding broker_steps broker_step round_step run_round cycle_step beat_step recv_step hand_on
    sent_to_cluster step read_step take_step dispatch_case sent_to_dispatch with_sent remove_at
    insert lookup process_msg client_add load store emit find_client process_read process_type
    process_connect login session_of allocate send_offline mqtt_deserialize_connect
    mqtt_seserialize_connack packet_type deserialize_connect_fields mqtt_packet_decode
    mqtt_packet_read_protocol read_word read_field read_wills read_login mqtt_packet_read_string
    prefix_length index_at slice slice_from copy_loop word16 mqtt_packet_parse_fix_header
    append_length cycle_case tick_100ms process_cycle_msg on_login on_heart broadcast_to broadcast
    hear keep_alive_time_escape_1_sec update_keep_alive_timeout build_cluster_login_msg frame
    word_bytes recv process_cluster_node_msg process_frame
broker_run = refl

broker_steps-Valid_example :
    Reach rand 1 after.system
    × Distinct after.system.server.clients
    × ((id : Bytes) (a : ℕ)
        → lookup id after.system.server.clients ≡ some a
        → (c : MqttClientInfo) × (get_elem? after.system.server.heap a ≡ some c)
          × (c.client_id ≡ id))
    × ((a : ℕ) (c : MqttClientInfo) → get_elem? after.system.server.heap a ≡ some c → IsClient c)
    × (map address after.cycle.cluster_server_nodes ≡ (49 ∷ [], 81) ∷ [])
    × All InTime after.cycle.cluster_server_nodes
broker_steps-Valid_example =
    broker_steps-Valid rand 1 (node 30 ∷ []) marshal_publish marshal_info unmarshal_publish
      unmarshal_info events after (omega arith, tt) broker_run
