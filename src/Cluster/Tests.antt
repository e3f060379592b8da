-- ===== src/Cluster/Tests.antt =====
-- The theorems on the nodes and their datagrams at concrete values.
use mqtt_server_go.Prelude.{
  ◌≡◌, arith, [], ◌∷◌, ◌++◌, Bytes, List, Option, none, some, panic, bytes_beq, if◌then◌else◌,
}
use mqtt_server_go.ProtocolStack.Publish.{MqttPacketPublishData, zero_publish}
use mqtt_server_go.Cluster.Message.{
  UdpAddr, ClusterClientInfo, client_info, cluster_client_info_msg,
}
use mqtt_server_go.Cluster.Node.{ClusterNodeInfo}
use mqtt_server_go.Cluster.Cycle.{Cycle, broadcast, process_cycle_msg}
use mqtt_server_go.Cluster.Cycle.Hearts.{ticks, silent}
use mqtt_server_go.Cluster.Cycle.Broadcasts.{broadcasts, broadcasts_exhaust}
use mqtt_server_go.Cluster.Cycle.Informs.{informs_panic}

-- A reader that knows two texts, "[]" for a message and "{}" for a client's information
abbrev known_info : ClusterClientInfo
known_info = record { client_id = 97 ∷ []; subinfo = []; offline_msg = [] }

abbrev unmarshal_publish : Bytes → Option MqttPacketPublishData
unmarshal_publish json = if bytes_beq json (91 ∷ 93 ∷ []) then some zero_publish else none

abbrev unmarshal_info : Bytes → Option ClusterClientInfo
unmarshal_info json = if bytes_beq json (123 ∷ 125 ∷ []) then some known_info else none

abbrev addr : UdpAddr
addr = record { ip = 49 ∷ []; port = 80; name = 49 ∷ 58 ∷ 56 ∷ 48 ∷ [] }

-- Two nodes that are alive
abbrev node : ClusterNodeInfo
node = record { ip = 49 ∷ []; port = 80; keep_alive_timeout = 60; heart_time = 0 }

abbrev two_nodes : List ClusterNodeInfo
two_nodes = node ∷ record node { port = 81 } ∷ []

abbrev late : Cycle
late = record {
  cluster_server_nodes = two_nodes;
  time_escape_100ms = 9;
  time_escape_1s = 50;
  sent = [];
}

silent_example : (ticks 600 late).sent ≡ []
silent_example = silent 600 late (omega arith)

abbrev many : List Bytes
many =
    let four = [] ∷ [] ∷ [] ∷ [] ∷ [] in
    let twenty = four ++ (four ++ (four ++ (four ++ four))) in twenty ++ (twenty ++ twenty)

broadcasts_exhaust_example : (broadcast (1 ∷ []) (broadcasts many two_nodes)).1 ≡ []
broadcasts_exhaust_example =
    broadcasts_exhaust many (1 ∷ []) two_nodes (omega arith, (omega arith, tt)) (omega arith)

informs_panic_example :
    process_cycle_msg
      (λ p. [])
      (λ info. 123 ∷ 125 ∷ [])
      (record {
        msg_type = cluster_client_info_msg;
        msg_from = 49 ∷ 58 ∷ 56 ∷ 48 ∷ [];
        msg_body = client_info known_info;
      })
      late
    ≡ panic
informs_panic_example =
    informs_panic (λ p. []) (λ info. 123 ∷ 125 ∷ []) (49 ∷ 58 ∷ 56 ∷ 48 ∷ []) known_info late
