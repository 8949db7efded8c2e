-- ===== src/Cluster.antt =====
-- The simulation: src/cluster.
pub mod Fault
pub mod Tamper
pub mod CommitLog
pub mod State
pub mod Delivery
pub mod Sim
pub mod Setup
pub mod Disagreement
pub mod Collection
pub mod Runs
mod Tests
