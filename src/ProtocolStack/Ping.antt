-- ===== src/ProtocolStack/Ping.antt =====
-- protocol_stack/mqtt_protocol_pingpong.go: PINGREQ and PINGRESP.
use mqtt_server_go.Prelude.{
  ℕ, ℤ, pos, minus_one, ◌+◌, [], ◌∷◌, ◌++◌, Bytes, Outcome, ok, ◌>>=◌, index_at, ◌==◌,
  if◌then◌else◌, shl8,
}
use mqtt_server_go.ProtocolStack.PacketType.{pingreq, pingresp}
use mqtt_server_go.ProtocolStack.Packet.{append_length, packet_type}

unfoldable pub mqtt_deserialize_ping : Bytes → Outcome ℤ
mqtt_deserialize_ping buf = do
  first ← index_at buf 0
  ok (if packet_type first == pingreq then pos 0 else minus_one)

unfoldable pub mqtt_seserialize_pong : Bytes → Outcome (ℕ × Bytes)
mqtt_seserialize_pong out = do
  (tmp, out) ← append_length (out ++ shl8 pingresp 4 ∷ []) 0
  ok (1 + tmp, out)
