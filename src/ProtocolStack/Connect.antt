-- ===== src/ProtocolStack/Connect.antt =====
-- protocol_stack/mqtt_protocol_connect.go: CONNECT and CONNACK.
pub mod Connack
pub mod Fields
pub mod RoundTrip
use mqtt_server_go.Prelude.{
  ℕ, ℤ, pos, minus_one, ◌+◌, [], ◌∷◌, ◌++◌, bit_and, Bytes, Outcome, ok, ◌>>=◌, index_at, slice,
  ◌==◌, bytes_beq, if◌then◌else◌, shl8, shr,
}
use mqtt_server_go.ProtocolStack.PacketType.{connect, connack}
use mqtt_server_go.ProtocolStack.Packet.{
  mqtt_packet_decode, append_length, mqtt_packet_read_string, mqtt_packet_read_protocol,
  packet_type, read_word,
}

pub record MqttPacketWillOptions : Type 0 where
  pub topic : Bytes
  pub message : Bytes
  pub retained : ℕ
  pub qos : ℕ

pub record MqttPacketConnectData : Type 0 where
  pub version : ℕ
  pub client_id : Bytes
  pub keep_alive_interval : ℕ
  pub cleansession : ℕ
  pub wills : MqttPacketWillOptions
  pub username : Bytes
  pub password : Bytes

-- `var conndata MQTTPacketConnectData`
abbrev pub zero_connect : MqttPacketConnectData
zero_connect = record {
  version = 0;
  client_id = [];
  keep_alive_interval = 0;
  cleansession = 0;
  wills = record { topic = []; message = []; retained = 0; qos = 0 };
  username = [];
  password = [];
}

-- A string at `index`, within the packet of `len` bytes, and the index behind it.
unfoldable pub read_field : Bytes → ℕ → ℕ → Outcome (ℕ × Bytes)
read_field buf len index = do
  left ← slice buf index len
  (n, str) ← mqtt_packet_read_string left
  ok (index + n, str)

-- The will's topic and message, if flag 0x04 is set.
unfoldable pub read_wills :
    Bytes → ℕ → ℕ → ℕ → MqttPacketWillOptions → Outcome (ℕ × MqttPacketWillOptions)
read_wills buf len flag index w = if bit_and flag 0x04 == 0 then ok (index, w) else (do
  (index, topic) ← read_field buf len index
  (index, message) ← read_field buf len index
  ok (
    index,
    record {
      topic = topic;
      message = message;
      retained = shr (bit_and flag 0x20) 5;
      qos = shr (bit_and flag 0x18) 3;
    },
  ))

-- The user's name and password, if flag 0x80 is set.
unfoldable pub read_login : Bytes → ℕ → ℕ → ℕ → Bytes × Bytes → Outcome (Bytes × Bytes)
read_login buf len flag index (username, password) =
    if bit_and flag 0x80 == 0 then ok (username, password) else (do
      (index, username) ← read_field buf len index
      (index, password) ← read_field buf len index
      ok (username, password))

unfoldable pub deserialize_connect_fields :
    MqttPacketConnectData → Bytes → ℕ → Outcome (ℤ × MqttPacketConnectData)
deserialize_connect_fields conn buf len = do
  left ← slice buf 1 len
  (n, value) ← mqtt_packet_decode left 0
  let index = 1 + n
  left ← slice buf index len
  (m, version) ← mqtt_packet_read_protocol left
  let index = index + m
  flag ← index_at buf index
  interval ← read_word buf (index + 1)
  (index, client_id) ← read_field buf len (index + 3)
  (index, wills) ← read_wills buf len flag index conn.wills
  (username, password) ← read_login buf len flag index (conn.username, conn.password)
  ok (
    pos 0,
    record {
      version = version;
      client_id = client_id;
      keep_alive_interval = interval;
      cleansession = shr (bit_and flag 0x02) 1;
      wills = wills;
      username = username;
      password = password;
    },
  )

-- `MQTTDeserialize_connect`: the returned code and the fields. A panic ends the process, so what was
-- written before it is not observed.
unfoldable pub mqtt_deserialize_connect :
    MqttPacketConnectData → Bytes → ℕ → Outcome (ℤ × MqttPacketConnectData)
mqtt_deserialize_connect conn buf len = do
  first ← index_at buf 0
  if packet_type first == connect
      then deserialize_connect_fields conn buf len
      else ok (minus_one, conn)

-- `MQTTSeserialize_connack`: the number of bytes, the return code, and the bytes behind `out`.
unfoldable pub mqtt_seserialize_connack : MqttPacketConnectData → Bytes → Outcome (ℕ × ℕ × Bytes)
mqtt_seserialize_connack conn out = do
  (tmp, out) ← append_length (out ++ shl8 connack 4 ∷ []) 2
  let ret_code = if bytes_beq conn.username conn.password then 0 else 4
  ok (1 + tmp + 1 + 1, ret_code, (out ++ 0x01 ∷ []) ++ ret_code ∷ [])
