-- ===== src/Manager.antt =====
-- manager/: the views of the clients that the broker serves over HTTP.
pub mod Window
pub mod Clients
pub mod Subscriptions
pub mod Http
mod Tests
