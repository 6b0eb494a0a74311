-- ===== src/Server.antt =====
-- src/server: one node of the cluster on its disk.
pub mod Broker
mod Tests
