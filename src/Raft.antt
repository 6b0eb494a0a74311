-- ===== src/Raft.antt =====
-- src/raft: the consensus layer.
pub mod Types
pub mod State
pub mod Epochs
pub mod Replication
pub mod Roles
pub mod Handlers
pub mod Outbox
pub mod Quiet
pub mod Speech
pub mod Moves
pub mod Ballots
pub mod Progress
pub mod Elections
pub mod Codec
pub mod StateFile
pub mod Commit
pub mod Cluster
mod Tests
mod FileTests
