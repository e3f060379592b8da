-- ===== src/Process/Handlers/Tests.antt =====
-- The end of an exchange at the sample server: "bob" is due to send a PUBREC for packet 5.
use mqtt_server_go.Prelude.{
  ℕ, ◌≡◌, refl, true, false, [], ◌∷◌, ◌++◌, lookup, nat_eq, bytes_eq, none, ok, set, ◌==◌,
}
use mqtt_server_go.ProtocolStack.PacketType.{pubrec, pubrel}
use mqtt_server_go.ProtocolStack.Publish.Acks.{ack_bytes}
use mqtt_server_go.Cluster.Message.{publish_data}
use mqtt_server_go.Process.Server.{MqttClientInfo, ◌>>◌, write}
use mqtt_server_go.Process.Handlers.{client_pubrec, client_pubcomp, status_is}
use mqtt_server_go.Process.Handlers.Exchange.{exchange_ends}
use mqtt_server_go.Process.Samples.{bob, server, message, ack-Fits, found_bob}

bob_due : status_is pubrec 5 bob ≡ true
unfolding status_is lookup
bob_due = refl

exchange_ends_example :
    (c'' : MqttClientInfo) × ((client_pubrec (98 ∷ []) (publish_data (message 2))
          >> client_pubcomp (98 ∷ []) (publish_data (message 2)))
        server
      ≡ ok (
        tt,
        record server {
          heap = set server.heap 1 c'';
          trace = server.trace ++ write 2 (ack_bytes pubrel (message 2)) ∷ [];
        },
      ))
    × (lookup 5 c''.pub_status ≡ none)
    × (lookup 5 c''.cache_msg ≡ none)
    × ((k : ℕ) → (5 == k) ≡ false → lookup k c''.pub_status ≡ lookup k bob.pub_status)
exchange_ends_example = exchange_ends (98 ∷ []) (message 2) server found_bob refl ack-Fits bob_due
