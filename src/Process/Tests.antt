-- ===== src/Process/Tests.antt =====
-- The theorems on the routines of process/ at concrete states.
use mqtt_server_go.Prelude.{
  delete, length, ℕ, ◌≡◌, refl, arith, true, [], ◌∷◌, ◌++◌, List, lookup, nat_eq, bytes_eq, Outcome,
  ok, panic, stuck, some, set,
}
use mqtt_server_go.ProtocolStack.PacketType.{pubrel}
use mqtt_server_go.ProtocolStack.Packet.{word_bytes, append_length}
use mqtt_server_go.ProtocolStack.Publish.{
  mqtt_seserialize_pubcomp, mqtt_seserialize_ack, mqtt_seserialize_publish,
}
use mqtt_server_go.ProtocolStack.Publish.Layout.{publish_bytes}
use mqtt_server_go.Cluster.Message.{publish_data}
use mqtt_server_go.Process.Server.{MqttClientInfo, Server, write, find_client, load, store, emit}
use mqtt_server_go.Process.PacketId.{general_unique_packet_id}
use mqtt_server_go.Process.Deliver.{
  for_clients, release_to_client, for_topics, deliver_released, fresh_id,
}
use mqtt_server_go.Process.Deliver.Topics.{Distinct}
use mqtt_server_go.Process.Deliver.Copies.{copies, sends}
use mqtt_server_go.Process.Deliver.Ready.{IsReady}
use mqtt_server_go.Process.Handlers.{
  client_publish, client_pubrel, pubrel_of, status_is, release_kept,
}
use mqtt_server_go.Process.Handlers.Once.{pubrel_once}
use mqtt_server_go.Process.Handlers.Publishes.{kept, publish_copies, publish_waits}
use mqtt_server_go.Process.Deliver.Ready.{with_id}
use mqtt_server_go.Process.Deliver.Releasing.{Releases}
use mqtt_server_go.Process.Handlers.Releasing.{answered, pubrel_releases}
use mqtt_server_go.Process.Dispatch.{tick}
use mqtt_server_go.Process.Dispatch.Heartbeat.{no_timeouts, tick_closes_none}
use mqtt_server_go.Process.Methods.{process_publish}
use mqtt_server_go.Process.Methods.Publishing.{process_publish_lem}
use mqtt_server_go.Process.Handlers.{cluster_msg}
use mqtt_server_go.Process.Server.{to_dispatch, to_cluster}
use mqtt_server_go.Cluster.Message.{msg_client_publish, cluster_public_msg}
use mqtt_server_go.Process.Samples.{
  alice, bob, carol, server, message, rand, message-Fits, ack-Fits, found_alice, found_bob,
  unused-IsReady, alice-IsReady, carol-IsReady, two_visits,
}

publish_copies_example :
    (drawn : ℕ) × (client_publish rand 1 (0 ∷ 2 ∷ []) (97 ∷ []) (publish_data (message 0)) server
      ≡ ok (
        tt,
        record server {
          drawn = drawn;
          trace =
              write 1 (publish_bytes (message 0))
              ∷ write 3 (publish_bytes (message 0) ++ publish_bytes (message 0))
              ∷ [];
        },
      ))
unfolding sends copies lookup publish_bytes
publish_copies_example =
    publish_copies rand 1 (0 ∷ 2 ∷ []) (97 ∷ []) (message 0) server refl
      (message-Fits 0 (omega arith)) found_alice
      ((alice, refl, alice-IsReady), ((carol, refl, carol-IsReady), tt))

publish_waits_example :
    (drawn : ℕ) × (client_publish rand 1 (0 ∷ []) (98 ∷ []) (publish_data (message 2)) server
      ≡ ok (tt, record server { heap = set server.heap 1 (kept (message 2) bob); drawn = drawn }))
publish_waits_example =
    publish_waits rand 1 (0 ∷ []) (98 ∷ []) (message 2) server refl found_bob refl
      ((alice, refl, alice-IsReady), tt)

-- Alice published a message of quality 2, and its PUBREL comes.
abbrev waiting : Server
waiting = record server {
  heap =
      record alice { pub_status = (5, pubrel) ∷ []; cache_msg = (5, message 2) ∷ [] }
      ∷ bob
      ∷ carol
      ∷ [];
}

abbrev final : Outcome (Unit {0} × Server) → Server
final (ok (r, s)) = s
final panic = waiting
final stuck = waiting

abbrev over : Server
over = final (client_pubrel rand 1 (2 ∷ []) (97 ∷ []) (publish_data (message 2)) waiting)

handled : client_pubrel rand 1 (2 ∷ []) (97 ∷ []) (publish_data (message 2)) waiting ≡ ok (tt, over)
unfolding client_pubrel find_client lookup pubrel_of load status_is mqtt_seserialize_pubcomp
    mqtt_seserialize_ack append_length store emit release_kept for_clients release_to_client
    for_topics deliver_released fresh_id general_unique_packet_id mqtt_seserialize_publish
handled = refl

pubrel_once_example :
    client_pubrel rand 1 (0 ∷ []) (97 ∷ []) (publish_data (message 2)) over ≡ ok (tt, over)
pubrel_once_example =
    pubrel_once rand 1 (2 ∷ []) (0 ∷ []) (97 ∷ []) (message 2) waiting over handled

tick_closes_none_example :
    (h : List MqttClientInfo) × (tick (0 ∷ 1 ∷ 0 ∷ []) server ≡ ok (tt, record server { heap = h }))
    × (no_timeouts h ≡ no_timeouts server.heap)
tick_closes_none_example =
    tick_closes_none (0 ∷ 1 ∷ 0 ∷ []) server (omega arith, (omega arith, (omega arith, tt)))

process_publish_lem_example :
    process_publish 0
      (publish_bytes (message 1) ++ 0 ∷ 0 ∷ [])
      (length (publish_bytes (message 1)))
      server
    ≡ ok (
      tt,
      record server {
        trace =
            to_dispatch (record {
              msg_type = msg_client_publish;
              msg_from = 97 ∷ [];
              msg_body = publish_data (message 1);
            })
            ∷ write 1 (0x40 ∷ 2 ∷ 0 ∷ 5 ∷ [])
            ∷ to_cluster (cluster_msg cluster_public_msg (publish_data (message 1)))
            ∷ [];
      },
    )
unfolding word_bytes
process_publish_lem_example =
    process_publish_lem 0 (message 1) (0 ∷ 0 ∷ []) server refl refl (message-Fits 1 (omega arith))
      (omega arith)

abbrev publisher : MqttClientInfo
publisher = record alice { pub_status = (5, pubrel) ∷ []; cache_msg = (5, message 2) ∷ [] }

freed-IsReady : IsReady rand 1 (record publisher { pub_status = delete 5 publisher.pub_status })
unfolding Distinct lookup delete
freed-IsReady = unused-IsReady _ (refl, tt) refl

its_turn : status_is pubrel 5 publisher ≡ true
unfolding status_is lookup
its_turn = refl

its_message : lookup 5 publisher.cache_msg ≡ some (message 2)
unfolding lookup
its_message = refl

pubrel_releases_example :
    (s' : Server) × (id : ℕ) × (client_pubrel rand 1
        (0 ∷ 2 ∷ [])
        (97 ∷ [])
        (publish_data (message 2))
        waiting
      ≡ ok (
        tt,
        record s' {
          trace =
              s'.trace
              ++ to_cluster (cluster_msg cluster_public_msg (publish_data (with_id (message 2) id)))
                ∷ [];
        },
      ))
    × Releases (message 2) (0 ∷ 2 ∷ []) (answered 0 (message 2) publisher waiting) s'
pubrel_releases_example =
    pubrel_releases rand 1 (0 ∷ 2 ∷ []) (97 ∷ []) (message 2) (message 2) waiting ack-Fits
      found_alice refl its_turn its_message (message-Fits 2 (omega arith)) two_visits
      (
        (record publisher { pub_status = delete 5 publisher.pub_status }, refl, freed-IsReady),
        ((carol, refl, carol-IsReady), tt),
      )
