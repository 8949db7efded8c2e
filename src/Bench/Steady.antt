-- ===== src/Bench/Steady.antt =====
-- src/bin/bench_report.rs over src/cluster/mod.rs: clusters in which no view ever changes, so that
-- node 0 accepts every proposal.
pub mod Messages
pub mod Routing
pub mod Benches
pub mod Pbft
pub mod Hotstuff
pub mod Returns
