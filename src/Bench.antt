-- ===== src/Bench.antt =====
-- The benchmark report: src/bin/bench_report.rs and src/main.rs.
pub mod Text
pub mod Demo
pub mod Report
pub mod Runs
pub mod Jobs
pub mod Proposals
pub mod Steady
mod Tests
