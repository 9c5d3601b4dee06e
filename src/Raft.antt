-- ===== src/Raft.antt =====
-- raft/raft_server.{h,cc} and raft/raft_client.{h,cc}: the replicated log, its server and its client.
pub mod Proto
pub mod State
pub mod Persist
pub mod Sending
pub mod Election
pub mod Commit
pub mod Replication
pub mod Leader
pub mod Growth
pub mod Durability
pub mod Run
pub mod Client
pub mod Startup
mod Tests
