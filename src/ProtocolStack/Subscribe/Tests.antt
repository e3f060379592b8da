-- ===== src/ProtocolStack/Subscribe/Tests.antt =====
-- The theorems on SUBSCRIBE and UNSUBSCRIBE at concrete packets.
use mqtt_server_go.Prelude.{
  ℕ, pos, ◌≡◌, ◌≢◌, refl, arith, [], ◌∷◌, ◌++◌, Bytes, List, Map, lookup, bytes_eq, ok, stuck,
  length, some,
}
use mqtt_server_go.ProtocolStack.Packet.{word_bytes}
use mqtt_server_go.ProtocolStack.Subscribe.{
  MqttPacketSubscribeData, zero_subscribe, mqtt_deserialize_subscribe, mqtt_get_sub_info,
}
use mqtt_server_go.ProtocolStack.Subscribe.RoundTrip.{
  Subscription, subscription_bytes, subscribe_bytes, deserialize_subscribe-bytes,
}
use mqtt_server_go.ProtocolStack.Subscribe.Endings.{deserialize_subscribe-ne-stuck}
use mqtt_server_go.ProtocolStack.Subscribe.SubInfo.{last_value, lookup-get_sub_info}
use mqtt_server_go.ProtocolStack.Unsubscribe.{
  zero_unsubscribe, mqtt_deserialize_unsubscribe, mqtt_remove_un_sub_topic,
}
use mqtt_server_go.ProtocolStack.Unsubscribe.RoundTrip.{
  topics_bytes, unsubscribe_bytes, deserialize_unsubscribe-bytes,
}
use mqtt_server_go.ProtocolStack.Unsubscribe.Endings.{names, lookup-remove_un_sub_topic}

-- "a/b" and "c"
abbrev topic_ab : Bytes
topic_ab = 97 ∷ 47 ∷ 98 ∷ []

abbrev topic_c : Bytes
topic_c = 99 ∷ []

abbrev two_subs : List Subscription
two_subs = (topic_ab, 1) ∷ (topic_c, 2) ∷ []

deserialize_subscribe-bytes_example :
    mqtt_deserialize_subscribe zero_subscribe
      (subscribe_bytes 7 two_subs ++ 9 ∷ [])
      (length (subscribe_bytes 7 two_subs))
    ≡ ok (
      pos 2,
      record { dup = 0; packet_id = 7; topic = topic_ab ∷ topic_c ∷ []; qos = 1 ∷ 2 ∷ [] },
    )
deserialize_subscribe-bytes_example =
    deserialize_subscribe-bytes 7 two_subs zero_subscribe (9 ∷ []) (omega arith)
      (unfold subscription_bytes word_bytes in omega arith)
      ((omega arith, omega arith), ((omega arith, omega arith), tt))

deserialize_subscribe-ne-stuck_example :
    mqtt_deserialize_subscribe zero_subscribe (0x82 ∷ 1 ∷ []) 2 ≢ stuck
deserialize_subscribe-ne-stuck_example =
    deserialize_subscribe-ne-stuck zero_subscribe (0x82 ∷ 1 ∷ []) 2

abbrev subscribed : MqttPacketSubscribeData
subscribed = record { dup = 0; packet_id = 7; topic = topic_ab ∷ topic_c ∷ []; qos = 1 ∷ 2 ∷ [] }

lookup-get_sub_info_example :
    (after : Map Bytes ℕ) × (mqtt_get_sub_info subscribed ((topic_c, 0) ∷ []) ≡ ok after)
    × ((t : Bytes)
        → lookup t after
          ≡ last_value t (topic_ab ∷ topic_c ∷ []) (1 ∷ 2 ∷ []) (lookup t ((topic_c, 0) ∷ [])))
lookup-get_sub_info_example = lookup-get_sub_info subscribed ((topic_c, 0) ∷ []) refl

deserialize_unsubscribe-bytes_example :
    mqtt_deserialize_unsubscribe zero_unsubscribe
      (unsubscribe_bytes 7 (topic_ab ∷ []) ++ [])
      (length (unsubscribe_bytes 7 (topic_ab ∷ [])))
    ≡ ok (pos 1, record zero_unsubscribe { packet_id = 7; topic = topic_ab ∷ [] })
deserialize_unsubscribe-bytes_example =
    deserialize_unsubscribe-bytes 7 (topic_ab ∷ []) [] zero_unsubscribe (omega arith)
      (unfold topics_bytes word_bytes in omega arith) (omega arith, tt)

lookup-remove_un_sub_topic_example :
    lookup topic_c (
      mqtt_remove_un_sub_topic
        (record zero_unsubscribe { topic = topic_ab ∷ [] })
        ((topic_ab, 1) ∷ (topic_c, 2) ∷ []))
    ≡ some 2
unfolding names lookup
lookup-remove_un_sub_topic_example =
    lookup-remove_un_sub_topic topic_c (record zero_unsubscribe { topic = topic_ab ∷ [] })
      ((topic_ab, 1) ∷ (topic_c, 2) ∷ [])
