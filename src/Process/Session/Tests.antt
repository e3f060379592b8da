-- ===== src/Process/Session/Tests.antt =====
-- The theorems on the routine of a connection at concrete states and packets.
use mqtt_server_go.Prelude.{
  pos, ◌≡◌, refl, arith, [], ◌∷◌, ◌++◌, Bytes, lookup, nat_eq, bytes_eq, ok, panic, some, none,
  get_elem?, index_at, slice, slice_from,
}
use mqtt_server_go.ProtocolStack.PacketType.{connect, publish}
use mqtt_server_go.ProtocolStack.Packet.{
  mqtt_packet_decode, mqtt_packet_read_string, mqtt_packet_read_protocol,
  mqtt_packet_parse_fix_header, read_word, prefix_length, packet_type, copy_loop, word16,
}
use mqtt_server_go.ProtocolStack.Connect.{
  MqttPacketConnectData, zero_connect, read_field, read_wills, read_login,
  deserialize_connect_fields, mqtt_deserialize_connect,
}
use mqtt_server_go.ProtocolStack.Publish.{MqttPacketPublishData}
use mqtt_server_go.ProtocolStack.Publish.Layout.{Fits, remaining}
use mqtt_server_go.Cluster.Message.{RoutingCommunicateMsg, UdpAddr}
use mqtt_server_go.Process.Server.{
  MqttClientInfo, Server, write, close, to_dispatch, to_cluster, ◌>>=◌,
}
use mqtt_server_go.Process.Session.{
  new_client, login, client_exit, process_read, client_process, failed, got,
}
use mqtt_server_go.Process.Samples
use mqtt_server_go.Process.Dispatch.{process_msg}
use mqtt_server_go.Process.Session.Moves.{at_head}
use mqtt_server_go.Process.Session.Late.{a_pubcomp, deletion, told, late_ack}
use mqtt_server_go.Process.Dispatch.Departure.{handed_over, login_elsewhere}
use mqtt_server_go.Process.Deliver.Topics.{Distinct}
use mqtt_server_go.Cluster.Message.{ClusterClientInfo, msg_client_pubcomp}
use mqtt_server_go.Cluster.Start.{came, start_cluster_server_recv}
use mqtt_server_go.Cluster.Cycle.{Cycle, process_cycle_msg}
use mqtt_server_go.Cluster.Frames.{build_cluster_login_msg, dispatch_ch}
use mqtt_server_go.ProtocolStack.Packet.{word_bytes}
use mqtt_server_go.Process.Session.Takeover.{marked, takeover}
use mqtt_server_go.Process.Session.Crashes.{refused_connack, process_read-nil, refused_login}

abbrev kept_message : MqttPacketPublishData
kept_message = record {
  dup = 0;
  packet_id = 5;
  retained = 0;
  topic = 97 ∷ 47 ∷ 98 ∷ [];
  qos = 2;
  payload = 104 ∷ 105 ∷ [];
}

kept-Fits : Fits kept_message
unfolding remaining
kept-Fits = record {
  dup_fits = omega arith;
  qos_fits = omega arith;
  retained_fits = omega arith;
  packet_id_fits = omega arith;
  remaining_fits = omega arith;
}

-- A client that is away, with a message of quality 2 for it
abbrev away : MqttClientInfo
away = record new_client { client_id = 97 ∷ []; conn = 1; offline_msg = kept_message ∷ [] }

abbrev server : Server
server = record { heap = away ∷ []; clients = (97 ∷ [], 0) ∷ []; drawn = 0; trace = [] }

abbrev accepted : MqttPacketConnectData
accepted = record zero_connect { client_id = 97 ∷ []; keep_alive_interval = 60 }

found : lookup (97 ∷ []) server.clients ≡ some 0
unfolding lookup
found = refl

takeover_example :
    (s' : Server) × ((login 2 accepted (0x20 ∷ 2 ∷ 1 ∷ 0 ∷ []) >>= λ self. client_exit 1 self)
        server
      ≡ ok (tt, s'))
    × (get_elem? s'.heap 0 ≡ some (marked 2 accepted away))
    × ((marked 2 accepted away).conn ≡ 2)
takeover_example =
    takeover 2 1 accepted (0x20 ∷ 2 ∷ 1 ∷ 0 ∷ []) server found refl (kept-Fits, tt) refl

-- A PUBLISH on "a"
abbrev stray : Bytes
stray = 0x30 ∷ 3 ∷ 0 ∷ 1 ∷ 97 ∷ []

stray_type : mqtt_packet_parse_fix_header stray ≡ ok (pos publish, 3)
unfolding mqtt_packet_parse_fix_header mqtt_packet_decode index_at slice_from
stray_type = refl

process_read-nil_example : process_read 3 none stray 5 server ≡ panic
process_read-nil_example = process_read-nil publish 3 3 stray 5 server stray_type refl

-- A CONNECT of client "z" with name "u" and password "p"
abbrev bad_connect : Bytes
bad_connect =
    0x10 ∷ 19 ∷ 0 ∷ 4 ∷ 77 ∷ 81 ∷ 84 ∷ 84 ∷ 4 ∷ 0xc0 ∷ 0 ∷ 60 ∷ 0 ∷ 1 ∷ 122 ∷ 0 ∷ 1 ∷ 117 ∷ 0 ∷ 1
    ∷ 112 ∷ []

abbrev bad_login : MqttPacketConnectData
bad_login = record zero_connect {
  version = 4;
  client_id = 122 ∷ [];
  keep_alive_interval = 60;
  username = 117 ∷ [];
  password = 112 ∷ [];
}

bad_type : mqtt_packet_parse_fix_header bad_connect ≡ ok (pos connect, 19)
unfolding mqtt_packet_parse_fix_header mqtt_packet_decode index_at slice_from
bad_type = refl

bad_fields : mqtt_deserialize_connect zero_connect bad_connect 21 ≡ ok (pos 0, bad_login)
unfolding mqtt_deserialize_connect packet_type deserialize_connect_fields mqtt_packet_decode
    mqtt_packet_read_protocol read_word read_field read_wills read_login mqtt_packet_read_string
    prefix_length index_at slice copy_loop word16
bad_fields = refl

refused_login_example :
    (process_read 3 none bad_connect 21 server
      ≡ ok (none, record server { trace = write 3 refused_connack ∷ close 3 ∷ [] }))
    × (client_process 3 none (got bad_connect 21 ∷ failed ∷ []) server ≡ panic)
refused_login_example =
    refused_login 3 21 19 bad_connect (pos 0) bad_login [] server bad_type bad_fields refl

-- The record asks for a clear session, and two connections have it.
abbrev shared_client : MqttClientInfo
shared_client = record away { clear_session = 1 }

abbrev shared : Server
shared = record server { heap = shared_client ∷ [] }

late_ack_example :
    (s0 s1 s2 : Server) × (client_exit 1 (some 0) shared ≡ ok (tt, s0))
    × (s0.trace ≡ to_dispatch (deletion shared_client) ∷ close 1 ∷ [])
    × (process_msg Samples.rand 1 [] (deletion shared_client) s0 ≡ ok (tt, s1))
    × (process_read 2 (some 0) (0x70 ∷ 2 ∷ 0 ∷ 5 ∷ 9 ∷ []) 4 s1 ≡ ok (some 0, s2))
    × (s2.trace
        ≡ s1.trace ++ to_dispatch (told (Samples.message 2) msg_client_pubcomp shared_client) ∷ [])
    × (process_msg Samples.rand 1 [] (told (Samples.message 2) msg_client_pubcomp shared_client) s2
        ≡ panic)
unfolding word_bytes
late_ack_example =
    late_ack 2 0 (Samples.message 2) (9 ∷ []) Samples.ack-Fits 1 Samples.rand 1 [] shared a_pubcomp
      refl refl

no_topics : Distinct away.sub_info
unfolding Distinct
no_topics = tt

abbrev some_node : UdpAddr
some_node = record { ip = 49 ∷ []; port = 80; name = 49 ∷ 58 ∷ 56 ∷ 48 ∷ [] }

-- The client that is away logs in at another node.
login_elsewhere_example :
    (msg : RoutingCommunicateMsg) × (info : ClusterClientInfo) × (s' : Server)
    × (start_cluster_server_recv
          (λ json. none)
          (λ json. none)
          (came (build_cluster_login_msg (97 ∷ [])) some_node ∷ [])
          (3 ∷ [])
        ≡ ok (3 ∷ [], dispatch_ch msg ∷ []))
    × (process_msg Samples.rand 1 (0 ∷ []) msg server ≡ ok (tt, s'))
    × (lookup (97 ∷ []) s'.clients ≡ none)
    × (s'.trace ≡ to_cluster (handed_over some_node info) ∷ [])
    × (info.client_id ≡ 97 ∷ [])
    × ((topic : Bytes) → lookup topic info.subinfo ≡ lookup topic away.sub_info)
    × (info.offline_msg ≡ kept_message ∷ [])
    × ((cycle : Cycle)
        → process_cycle_msg (λ p. []) (λ info. []) (handed_over some_node info) cycle ≡ panic)
login_elsewhere_example =
    login_elsewhere (λ p. []) (λ info. []) (λ json. none) (λ json. none) Samples.rand 1 (97 ∷ [])
      (3 ∷ []) some_node (0 ∷ []) server (omega arith) (at_head 0 away [] refl refl) no_topics
