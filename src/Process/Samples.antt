-- ===== src/Process/Samples.antt =====
-- A server with three clients, for the concrete runs.
use mqtt_server_go.Prelude.{
  ℕ, ◌≡◌, ◌<◌, refl, arith, [], ◌∷◌, ◌%◌, Bytes, lookup, nat_eq, bytes_eq, some,
}
use mqtt_server_go.ProtocolStack.PacketType.{pubrec}
use mqtt_server_go.ProtocolStack.Publish.{MqttPacketPublishData}
use mqtt_server_go.ProtocolStack.Publish.Layout.{Fits, remaining}
use mqtt_server_go.ProtocolStack.Publish.Acks.{Fits as AckFits}
use mqtt_server_go.Process.Server.{MqttClientInfo, Server}
use mqtt_server_go.Process.Deliver.Topics.{Distinct}
use mqtt_server_go.Process.Deliver.Ready.{IsReady}
use mqtt_server_go.Process.Deliver.Releasing.{Once}
use mqtt_server_go.Process.Session.{new_client}

abbrev pub topic_ab : Bytes
topic_ab = 97 ∷ 47 ∷ 98 ∷ []

-- Three clients that are logged in and have the topic; the second is due to send a PUBREC for
-- packet 5.
abbrev pub alice : MqttClientInfo
alice = record new_client {
  client_id = 97 ∷ [];
  login_success = 1;
  conn = 1;
  heart_timeout = 60;
  sub_info = (topic_ab, 1) ∷ [];
}

abbrev pub bob : MqttClientInfo
bob = record alice { client_id = 98 ∷ []; conn = 2; pub_status = (5, pubrec) ∷ [] }

abbrev pub carol : MqttClientInfo
carol = record alice { client_id = 99 ∷ []; conn = 3 }

abbrev pub server : Server
server = record {
  heap = alice ∷ bob ∷ carol ∷ [];
  clients = (97 ∷ [], 0) ∷ (98 ∷ [], 1) ∷ (99 ∷ [], 2) ∷ [];
  drawn = 0;
  trace = [];
}

abbrev pub message : ℕ → MqttPacketPublishData
message qos = record {
  dup = 0;
  packet_id = 5;
  retained = 0;
  topic = topic_ab;
  qos = qos;
  payload = 104 ∷ 105 ∷ [];
}

-- The numbers that are drawn
abbrev pub rand : ℕ → ℕ
rand i = i % 62

pub message-Fits : (q : ℕ) → q < 4 → Fits (message q)
unfolding remaining
message-Fits q lt = record {
  dup_fits = omega arith;
  qos_fits = lt;
  retained_fits = omega arith;
  packet_id_fits = omega arith;
  remaining_fits = ground arith;
}

pub ack-Fits : AckFits (message 2)
ack-Fits = record {
  dup_fits = omega arith;
  retained_fits = omega arith;
  packet_id_fits = omega arith;
}

pub found_alice : lookup (97 ∷ []) server.clients ≡ some 0
unfolding lookup
found_alice = refl

pub found_bob : lookup (98 ∷ []) server.clients ≡ some 1
unfolding lookup
found_bob = refl

-- With no id in use, the first draw is free.
pub unused-IsReady :
    (c : MqttClientInfo) → Distinct c.sub_info → c.pub_status ≡ [] → IsReady rand 1 c
unfolding lookup
unused-IsReady c d e = record { distinct = d; draws = λ drawn. (0, omega arith, rw e refl) }

pub alice-IsReady : IsReady rand 1 alice
unfolding Distinct lookup
alice-IsReady = unused-IsReady alice (refl, tt) refl

pub carol-IsReady : IsReady rand 1 carol
unfolding Distinct lookup
carol-IsReady = unused-IsReady carol (refl, tt) refl

pub two_visits : Once (0 ∷ 2 ∷ [])
unfolding Once
two_visits = ((refl, tt), (tt, tt))
