-- ===== src/Raft.antt =====
-- Raft: src/consensus/raft.
pub mod State
pub mod Election
pub mod Replication
pub mod Node
pub mod Calls
pub mod Votes
pub mod Commit
pub mod Elections
pub mod Safety
pub mod Log
pub mod Matching
pub mod CatchUp
pub mod Timer
pub mod Outputs
mod Tests
