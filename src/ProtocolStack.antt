-- ===== src/ProtocolStack.antt =====
-- protocol_stack/: the MQTT control packets, read from and written to byte slices.
pub mod PacketType
pub mod Packet
pub mod Connect
pub mod Ping
pub mod Publish
pub mod Subscribe
pub mod Unsubscribe
mod Tests
