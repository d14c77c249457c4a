-- ===== src/Kv.antt =====
-- internal/kv: the replicated state machine.
pub mod Command
pub mod Machine
pub mod Cluster
pub mod Client
mod Tests
