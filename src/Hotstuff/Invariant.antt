-- ===== src/Hotstuff/Invariant.antt =====
-- The invariant of a HotStuff replica, and that every method keeps it.
pub mod Defs
mod Voting
mod Certificates
mod ViewChange
pub mod Methods
