-- ===== src/ProtocolStack/Tests.antt =====
-- The packets' theorems at concrete packets.
use mqtt_server_go.Prelude.{
  ℕ, zero, suc, pos, minus_one, ◌≡◌, ◌≤◌, refl, arith, [], ◌∷◌, ◌++◌, Bytes, bytes_eq, ok, ◌>>=◌,
  length, some,
}
use mqtt_server_go.ProtocolStack.PacketType.{puback, pubrel}
use mqtt_server_go.ProtocolStack.Packet.{append_length, word_bytes, mqtt_packet_decode}
use mqtt_server_go.ProtocolStack.Packet.RemainingLength.{decode-append_length, length_field}
use mqtt_server_go.ProtocolStack.Connect.{zero_connect, mqtt_deserialize_connect}
use mqtt_server_go.ProtocolStack.Connect.Fields.{str, Request, will_bytes, login_bytes}
use mqtt_server_go.ProtocolStack.Connect.RoundTrip.{
  Fits as ConnectFits, request_body, request_bytes, deserialize_connect-bytes,
}
use mqtt_server_go.ProtocolStack.Publish.{
  MqttPacketPublishData, zero_publish, mqtt_seserialize_publish, mqtt_deserialize_publish,
  mqtt_seserialize_ack, mqtt_deserialize_ack,
}
use mqtt_server_go.ProtocolStack.Publish.Layout.{
  Fits, remaining, id_field, publish_body, publish_bytes, seserialize_publish-bytes,
}
use mqtt_server_go.ProtocolStack.Publish.RoundTrip.{
  deserialize-seserialize_publish, deserialize_publish_cut,
}
use mqtt_server_go.ProtocolStack.Publish.Acks.{Fits as AckFits, deserialize-seserialize_ack}

-- "a/b" and "c"
abbrev topic_ab : Bytes
topic_ab = 97 ∷ 47 ∷ 98 ∷ []

abbrev topic_c : Bytes
topic_c = 99 ∷ []

-- A message of quality 1 on "a/b"
abbrev hello : MqttPacketPublishData
hello = record {
  dup = 0;
  packet_id = 7;
  retained = 0;
  topic = topic_ab;
  qos = 1;
  payload = 104 ∷ 105 ∷ [];
}

hello-Fits : Fits hello
unfolding remaining
hello-Fits = record {
  dup_fits = omega arith;
  qos_fits = omega arith;
  retained_fits = omega arith;
  packet_id_fits = omega arith;
  remaining_fits = omega arith;
}

abbrev letters : ℕ → Bytes
letters zero = []
letters (suc n) = 97 ∷ letters n

-- A message without a packet id, on a topic of 258 bytes
abbrev long : MqttPacketPublishData
long = record hello { topic = letters 258; qos = 0 }

long-Fits : Fits long
unfolding remaining
long-Fits = record {
  dup_fits = omega arith;
  qos_fits = omega arith;
  retained_fits = omega arith;
  packet_id_fits = omega arith;
  remaining_fits = omega arith;
}

hello-AckFits : AckFits hello
hello-AckFits = record {
  dup_fits = omega arith;
  retained_fits = omega arith;
  packet_id_fits = omega arith;
}

decode-append_length_example :
    (field : Bytes) × (append_length (7 ∷ []) 321 ≡ ok (length field, 7 ∷ field))
    × (1 ≤ length field)
    × (length field ≤ 4)
    × (mqtt_packet_decode (field ++ 5 ∷ []) 0 ≡ ok (length field, 321))
decode-append_length_example = decode-append_length 321 (7 ∷ []) (5 ∷ []) (omega arith)

two_groups : mqtt_packet_decode (193 ∷ 2 ∷ 9 ∷ []) 0 ≡ ok (2, 321)
unfolding mqtt_packet_decode
two_groups = refl

deserialize-seserialize_publish_example :
    (mqtt_seserialize_publish hello [] >>= λ (n, out).
    mqtt_deserialize_publish zero_publish (out ++ 1 ∷ []) n)
    ≡ ok (pos 0, hello)
deserialize-seserialize_publish_example =
    deserialize-seserialize_publish hello zero_publish (1 ∷ []) hello-Fits (omega arith)

seserialize_publish-bytes_example :
    mqtt_seserialize_publish hello (1 ∷ [])
    ≡ ok (11, 1 ∷ 0x32 ∷ 9 ∷ 0 ∷ 3 ∷ 97 ∷ 47 ∷ 98 ∷ 0 ∷ 7 ∷ 104 ∷ 105 ∷ [])
unfolding publish_bytes length_field remaining publish_body word_bytes id_field
seserialize_publish-bytes_example = seserialize_publish-bytes hello (1 ∷ []) hello-Fits

deserialize_publish_cut_example :
    mqtt_deserialize_publish zero_publish (publish_bytes long ++ []) (length (publish_bytes long))
    ≡ ok (
      pos 0,
      record long { packet_id = 0; topic = letters 2; payload = letters 256 ++ 104 ∷ 105 ∷ [] },
    )
deserialize_publish_cut_example = deserialize_publish_cut long zero_publish [] long-Fits refl

deserialize-seserialize_ack_example :
    (mqtt_seserialize_ack [] puback hello >>= λ (n, out).
    mqtt_deserialize_ack (out ++ []) n pubrel 3)
    ≡ ok (minus_one, 3)
deserialize-seserialize_ack_example =
    deserialize-seserialize_ack puback pubrel 3 hello [] (omega arith) hello-AckFits

-- A client "c" with a will on "a/b" and a login
abbrev request : Request
request = record {
  version = 4;
  clean = 1;
  interval = 300;
  client_id = topic_c;
  will = some (record { topic = topic_ab; message = 98 ∷ []; retained = 1; qos = 2 });
  login = some (117 ∷ [], 117 ∷ []);
}

request-Fits : ConnectFits request
unfolding request_body str will_bytes login_bytes word_bytes
request-Fits = record {
  clean_fits = omega arith;
  interval_fits = omega arith;
  client_id_fits = omega arith;
  will_fits = (omega arith, omega arith, omega arith, omega arith);
  login_fits = (omega arith, omega arith);
  body_fits = omega arith;
}

deserialize_connect-bytes_example :
    mqtt_deserialize_connect zero_connect
      (request_bytes request ++ 0 ∷ [])
      (length (request_bytes request))
    ≡ ok (
      pos 0,
      record {
        version = 4;
        client_id = topic_c;
        keep_alive_interval = 300;
        cleansession = 1;
        wills = record { topic = topic_ab; message = 98 ∷ []; retained = 1; qos = 2 };
        username = 117 ∷ [];
        password = 117 ∷ [];
      },
    )
deserialize_connect-bytes_example =
    deserialize_connect-bytes request zero_connect (0 ∷ []) request-Fits
