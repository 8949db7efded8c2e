-- ===== src/Pbft/Invariant.antt =====
-- The well-formed states of a PBFT replica (src/consensus/pbft/state.rs).
pub mod Defs
pub mod Slots
pub mod Voting
pub mod ViewChange
pub mod Methods
