-- ===== src/Process/Deliver.antt =====
-- The loops of process/clients_MsgDispatch_Center.go that hand a message to every subscriber.
pub mod Topics
pub mod Ready
pub mod Rounds
pub mod Copies
pub mod Waiting
pub mod Releasing
pub mod Relaying
pub mod Acking
mod Tests
use mqtt_server_go.Prelude.{
  ◌>>=◌ as and_then, ℕ, List, [], ◌∷◌, ◌++◌, Bytes, ok, Map, insert, nat_eq, bytes_beq, ltb, ◌==◌,
  if◌then◌else◌, leb,
}
use mqtt_server_go.ProtocolStack.PacketType.{puback, pubrec}
use mqtt_server_go.ProtocolStack.Publish.{MqttPacketPublishData, mqtt_seserialize_publish}
use mqtt_server_go.Process.Server.{M, ◌>>=◌, ◌>>◌, pure, lift, load, store, emit, write}
use mqtt_server_go.Process.PacketId.{general_unique_packet_id}

-- `for topic := range client.SubInfo { if topic == publishData.Topic { … } }`. The entries stand in
-- one order of the many that Go may take; a topic stands in one entry at most.
unfoldable pub for_topics : {S : Type 0} → (S → M S) → Bytes → Map Bytes ℕ → S → M S
for_topics body topic [] st = pure st
for_topics body topic ((t, q) ∷ entries) st = do
  st ← (if bytes_beq t topic then body st else pure st)
  for_topics body topic entries st

-- `for _, client := range GloablClientsMap`. The list is the order of this visit.
unfoldable pub for_clients : {S : Type 0} → (ℕ → S → M S) → List ℕ → S → M S
for_clients body [] st = pure st
for_clients body (a ∷ visit) st = do st ← body a st; for_clients body visit st

module _ (rand : ℕ → ℕ) (fuel : ℕ) where
  -- `client.GeneralUniquePacketId()`
  unfoldable pub fresh_id : Map ℕ ℕ → M ℕ
  fresh_id status s =
      and_then (general_unique_packet_id rand fuel status s.drawn)
        (λ r. ok (r.0, record s { drawn = r.1 }))

  -- The body for MSG_CLIENT_PUBLISH. `write_buf` is declared outside the loops.
  unfoldable pub deliver_publish :
      ℕ → MqttPacketPublishData × Bytes → M (MqttPacketPublishData × Bytes)
  deliver_publish a (p, write_buf) = do
    client ← load a
    id ← fresh_id client.pub_status
    let p = record p { packet_id = id }
    if client.login_success == 1
        then (if p.qos == 1
            then (do
              (n, write_buf) ← lift (mqtt_seserialize_publish p write_buf)
              store a (record client { pub_status = insert id puback client.pub_status })
              emit (write client.conn write_buf)
              pure (p, write_buf))
            else if p.qos == 2
            then pure (p, write_buf)
            else if p.qos == 0
            then (do
              (n, write_buf) ← lift (mqtt_seserialize_publish p write_buf)
              emit (write client.conn write_buf)
              pure (p, write_buf))
            else pure (p, write_buf))
        else if ltb 0 p.qos
        then (if p.qos == 1
            then (do
              store a (record client { offline_msg = client.offline_msg ++ p ∷ [] })
              pure (p, write_buf))
            else pure (p, write_buf))
        else pure (p, write_buf)

  -- The body for MSG_CLIENT_PUBREL, for a message of quality 2 that is complete.
  unfoldable pub deliver_released : ℕ → MqttPacketPublishData → M MqttPacketPublishData
  deliver_released a p = do
    client ← load a
    id ← fresh_id client.pub_status
    let p = record p { packet_id = id }
    if client.login_success == 1
        then (do
          (n, write_buf) ← lift (mqtt_seserialize_publish p [])
          store a (record client {
            cache_msg = insert id p client.cache_msg;
            pub_status = insert id pubrec client.pub_status;
          })
          emit (write client.conn write_buf)
          pure p)
        else (do store a (record client { offline_msg = client.offline_msg ++ p ∷ [] }); pure p)

  -- The body for MSG_CLUSTER_PUBLISH, for a message from another node.
  unfoldable pub deliver_cluster : ℕ → MqttPacketPublishData → M MqttPacketPublishData
  deliver_cluster a p = do
    client ← load a
    id ← fresh_id client.pub_status
    let p = record p { packet_id = id }
    if client.login_success == 1
        then (if p.qos == 0
            then (do
              (n, write_buf) ← lift (mqtt_seserialize_publish p [])
              emit (write client.conn write_buf)
              pure p)
            else if p.qos == 1
            then (do
              (n, write_buf) ← lift (mqtt_seserialize_publish p [])
              store a (record client { pub_status = insert id puback client.pub_status })
              emit (write client.conn write_buf)
              pure p)
            else if p.qos == 2
            then (do
              (n, write_buf) ← lift (mqtt_seserialize_publish p [])
              store a (record client {
                cache_msg = insert id p client.cache_msg;
                pub_status = insert id pubrec client.pub_status;
              })
              emit (write client.conn write_buf)
              pure p)
            else pure p)
        else if leb 1 p.qos
        then (do store a (record client { offline_msg = client.offline_msg ++ p ∷ [] }); pure p)
        else pure p

  -- Both loops, for each of the three.
  unfoldable pub publish_to_client :
      ℕ → MqttPacketPublishData × Bytes → M (MqttPacketPublishData × Bytes)
  publish_to_client a (p, write_buf) = do
    client ← load a
    for_topics (deliver_publish a) p.topic client.sub_info (p, write_buf)

  unfoldable pub release_to_client : ℕ → MqttPacketPublishData → M MqttPacketPublishData
  release_to_client a p = do
    client ← load a
    for_topics (deliver_released a) p.topic client.sub_info p

  unfoldable pub cluster_to_client : ℕ → MqttPacketPublishData → M MqttPacketPublishData
  cluster_to_client a p = do
    client ← load a
    for_topics (deliver_cluster a) p.topic client.sub_info p
