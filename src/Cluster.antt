-- ===== src/Cluster.antt =====
-- cluster/: the messages between the broker's routines and between its nodes.
pub mod Message
pub mod Node
pub mod Frames
pub mod Cycle
pub mod Start
mod Tests
