-- ===== src/ProtocolStack/Connect/Connack.antt =====
-- CONNACK.
use mqtt_server_go.Prelude.{
  ℕ, ◌≡◌, arith, [], ◌∷◌, ◌++◌, append_assoc, Bytes, ok, ap, bytes_beq, if◌then◌else◌,
}
use mqtt_server_go.ProtocolStack.Packet.RemainingLength.{length_field, append_length_lem}
use mqtt_server_go.ProtocolStack.Connect.{MqttPacketConnectData, mqtt_seserialize_connack}

-- 0 if the name and the password are the same, 4 otherwise.
abbrev pub return_code : MqttPacketConnectData → ℕ
return_code d = if bytes_beq d.username d.password then 0 else 4

-- Four bytes; the session is always said to be present.
pub seserialize_connack-bytes :
    (d : MqttPacketConnectData) (out : Bytes)
    → mqtt_seserialize_connack d out
      ≡ ok (4, return_code d, out ++ 0x20 ∷ 2 ∷ 1 ∷ return_code d ∷ [])
unfolding mqtt_seserialize_connack length_field
seserialize_connack-bytes d out =
    rw (append_length_lem (out ++ 0x20 ∷ []) 2 (omega arith))
      (ap (λ (b : Bytes). ok (4, return_code d, b)) (simp append_assoc))
