-- ===== src/Utils.antt =====
-- utils/utils.go: names for routines, and the number that stands for an address.
pub mod Names
pub mod Address
mod Tests
