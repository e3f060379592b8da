-- ===== src/Process/Deliver/Tests.antt =====
-- Messages on their way to two subscribers, "alice", who is logged in, and "carol", who is not.
use mqtt_server_go.Prelude.{
  ℕ, zero, suc, ◌≡◌, refl, arith, [], ◌∷◌, Bytes, Option, some, none, ok, length, lookup, bytes_eq,
  set, bytes_beq, if◌then◌else◌,
}
use mqtt_server_go.ProtocolStack.Publish.{MqttPacketPublishData}
use mqtt_server_go.Cluster.Message.{
  ClusterClientInfo, UdpAddr, RoutingCommunicateMsg, cluster_public_msg, publish_data,
}
use mqtt_server_go.Cluster.Frames.{dispatch_ch}
use mqtt_server_go.Process.Server.{MqttClientInfo, Server}
use mqtt_server_go.Process.Deliver.Topics.{Distinct}
use mqtt_server_go.Process.Deliver.Ready.{IsReady}
use mqtt_server_go.Process.Deliver.Relaying.{Relayed}
use mqtt_server_go.Process.Deliver.Acking.{Acks}
use mqtt_server_go.Cluster.Start.{came, zeros, start_cluster_server_recv}
use mqtt_server_go.Cluster.Cycle.{Cycle, to_node, process_cycle_msg}
use mqtt_server_go.Cluster.Cycle.Reaches.{alive_nodes}
use mqtt_server_go.Process.Handlers.{client_publish, cluster_msg}
use mqtt_server_go.Process.Handlers.Publishes.{publish_acked}
use mqtt_server_go.Process.Dispatch.{process_msg}
use mqtt_server_go.Process.Dispatch.Relay.{message_crosses, message_lost}
use mqtt_server_go.Process.Samples.{
  alice, carol, server, message, rand, found_alice, unused-IsReady, alice-IsReady, message-Fits,
  two_visits,
}

abbrev away : MqttClientInfo
away = record carol { login_success = 0 }

abbrev one_away : Server
one_away = record server { heap = set server.heap 2 away }

away-IsReady : IsReady rand 1 away
unfolding Distinct lookup
away-IsReady = unused-IsReady away (refl, tt) refl

publish_acked_example :
    (s' : Server) × (client_publish rand 1
        (0 ∷ 2 ∷ [])
        (97 ∷ [])
        (publish_data (message 1))
        one_away
      ≡ ok (tt, s'))
    × Acks (message 1) [] (0 ∷ 2 ∷ []) one_away s'
publish_acked_example =
    publish_acked rand 1 (0 ∷ 2 ∷ []) (97 ∷ []) (message 1) one_away refl
      (message-Fits 1 (omega arith)) found_alice two_visits
      ((alice, refl, alice-IsReady), ((away, refl, away-IsReady), tt))

-- A reader that knows one text, "[]"
abbrev unmarshal_publish : Bytes → Option MqttPacketPublishData
unmarshal_publish json = if bytes_beq json (91 ∷ 93 ∷ []) then some (message 2) else none

abbrev unmarshal_info : Bytes → Option ClusterClientInfo
unmarshal_info json = none

abbrev addr : UdpAddr
addr = record { ip = 49 ∷ []; port = 80; name = 49 ∷ 58 ∷ 56 ∷ 48 ∷ [] }

abbrev marshal_publish : MqttPacketPublishData → Bytes
marshal_publish p = 91 ∷ 93 ∷ []

abbrev marshal_info : ClusterClientInfo → Bytes
marshal_info info = []

-- Another node is alive, and one has no time left.
abbrev cycle : Cycle
cycle = record {
  cluster_server_nodes =
      record { ip = 49 ∷ []; port = 81; keep_alive_timeout = 30; heart_time = 0 }
      ∷ record { ip = 50 ∷ []; port = 82; keep_alive_timeout = 0; heart_time = 0 }
      ∷ [];
  time_escape_100ms = 0;
  time_escape_1s = 0;
  sent = [];
}

message_crosses_example :
    (c' : Cycle) × (payload : Bytes) × (msg : RoutingCommunicateMsg) × (s' : Server)
    × (process_cycle_msg marshal_publish marshal_info
          (cluster_msg cluster_public_msg (publish_data (message 2)))
          cycle
        ≡ ok c')
    × (c'.sent ≡ to_node (49 ∷ []) 81 payload ∷ [])
    × (start_cluster_server_recv unmarshal_publish unmarshal_info (came payload addr ∷ []) []
        ≡ ok ([], dispatch_ch msg ∷ []))
    × (process_msg rand 1 (0 ∷ 2 ∷ []) msg one_away ≡ ok (tt, s'))
    × Relayed (message 2) (0 ∷ 2 ∷ []) one_away s'
unfolding alive_nodes
message_crosses_example =
    message_crosses marshal_publish marshal_info unmarshal_publish unmarshal_info rand 1 (message 2)
      cycle [] addr (0 ∷ 2 ∷ []) one_away refl (omega arith) (omega arith)
      (message-Fits 2 (omega arith)) two_visits
      ((alice, refl, alice-IsReady), ((away, refl, away-IsReady), tt))

-- JSON text of 5000 bytes
abbrev marshal_long : MqttPacketPublishData → Bytes
marshal_long p = zeros 5000

zeros-length : (n : ℕ) → length (zeros n) ≡ n
unfolding zeros
zeros-length zero = refl
zeros-length (suc n) = omega (arith, zeros-length n)

message_lost_example :
    (c' : Cycle) × (payload : Bytes) × (process_cycle_msg marshal_long marshal_info
        (cluster_msg cluster_public_msg (publish_data (message 2)))
        cycle
      ≡ ok c')
    × (c'.sent ≡ to_node (49 ∷ []) 81 payload ∷ [])
    × (start_cluster_server_recv unmarshal_publish unmarshal_info (came payload addr ∷ []) []
        ≡ ok ([], []))
unfolding alive_nodes
message_lost_example =
    message_lost marshal_long marshal_info unmarshal_publish unmarshal_info rand 1 (message 2) cycle
      [] addr (omega (arith, zeros-length 5000)) (omega (arith, zeros-length 5000))
