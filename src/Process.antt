-- ===== src/Process.antt =====
-- process/: the clients' records, the routine of each connection, and the dispatcher.
pub mod Server
pub mod PacketId
pub mod Deliver
pub mod Handlers
pub mod Heaps
pub mod Invariant
pub mod System
pub mod Dispatch
pub mod Methods
pub mod Session
pub mod Samples
mod Tests
