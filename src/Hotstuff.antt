-- ===== src/Hotstuff.antt =====
-- src/consensus/hotstuff: basic HotStuff, with a vote round to the leader in each of three phases.
pub mod State
pub mod Proposals
pub mod Voting
pub mod ViewChange
pub mod Node
pub mod Calls
mod Commits
pub mod Certificates
mod Numbers
mod NormalCase
mod LeaderRounds
pub mod Views
pub mod Invariant
pub mod Outputs
mod Tests
