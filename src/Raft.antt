-- ===== src/Raft.antt =====
-- internal/raft: the consensus algorithm.
pub mod Log
pub mod Disk
pub mod Node
pub mod Handlers
pub mod Leader
pub mod Election
pub mod Votes
pub mod Cluster
pub mod Commit
pub mod Applier
pub mod Duplicate
pub mod Reads
pub mod Clocks
pub mod Mirror
mod Tests
