-- ===== src/Process/System/Tests.antt =====
-- A run of the routines: a connection is accepted, its CONNECT is read, and the dispatcher takes the
-- message about the new client.
use mqtt_server_go.Prelude.{
  ℕ, ◌≡◌, refl, [], ◌∷◌, Bytes, lookup, insert, bytes_eq, nat_eq, some, ok, get_elem?, index_at,
  slice, slice_from,
}
use mqtt_server_go.ProtocolStack.Packet.{
  mqtt_packet_decode, mqtt_packet_read_string, mqtt_packet_read_protocol, append_length,
  mqtt_packet_parse_fix_header, read_word, prefix_length, packet_type, copy_loop, word16,
}
use mqtt_server_go.ProtocolStack.Connect.{
  read_field, read_wills, read_login, deserialize_connect_fields, mqtt_deserialize_connect,
  mqtt_seserialize_connack,
}
use mqtt_server_go.Process.Server.{MqttClientInfo, load, store, emit, find_client}
use mqtt_server_go.Process.Samples.{rand}
use mqtt_server_go.Process.Handlers.{client_add}
use mqtt_server_go.Process.Dispatch.{process_msg, send_offline}
use mqtt_server_go.Process.Session.{
  allocate, session_of, login, process_connect, process_type, process_read,
}
use mqtt_server_go.Process.System.Samples.{connect_packet, logged_on}
use mqtt_server_go.Process.Invariant.{IsClient}
use mqtt_server_go.Process.Deliver.Topics.{Distinct}
use mqtt_server_go.Process.System.{
  accept, read, take_msg, dispatch_case, sent_to_dispatch, with_sent, remove_at, read_step,
  take_step, step, steps, booted,
}
use mqtt_server_go.Process.System.Reachable.{boot, Reach-Valid, steps-Reach}

login_run :
    steps rand 1 (accept 7 ∷ read 7 connect_packet 15 ∷ take_msg [] 0 ∷ []) booted ≡ ok logged_on
unfolding steps step read_step take_step dispatch_case sent_to_dispatch with_sent remove_at insert
    lookup process_msg client_add load store emit find_client process_read process_type
    process_connect login session_of allocate send_offline mqtt_deserialize_connect
    mqtt_seserialize_connack packet_type deserialize_connect_fields mqtt_packet_decode
    mqtt_packet_read_protocol read_word read_field read_wills read_login mqtt_packet_read_string
    prefix_length index_at slice slice_from copy_loop word16 mqtt_packet_parse_fix_header
    append_length
login_run = refl

Reach-Valid_example :
    Distinct logged_on.server.clients
    × ((id : Bytes) (a : ℕ)
        → lookup id logged_on.server.clients ≡ some a
        → (c : MqttClientInfo) × (get_elem? logged_on.server.heap a ≡ some c) × (c.client_id ≡ id))
    × ((a : ℕ) (c : MqttClientInfo) → get_elem? logged_on.server.heap a ≡ some c → IsClient c)
Reach-Valid_example =
    Reach-Valid rand 1 logged_on (steps-Reach rand 1 _ booted logged_on boot login_run)
