-- ===== src/Pbft.antt =====
-- PBFT: src/consensus/pbft.
pub mod State
pub mod Voting
pub mod ViewChange
pub mod Node
pub mod Quorum
pub mod Calls
pub mod Views
pub mod NormalCase
pub mod Commits
pub mod Invariant
pub mod Timer
pub mod Outputs
mod Tests
