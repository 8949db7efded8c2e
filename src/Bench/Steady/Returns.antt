-- ===== src/Bench/Steady/Returns.antt =====
-- src/bin/bench_report.rs: the PBFT and HotStuff runs return.
use bft_consensus_bench.Base.{ℕ, ◌≤◌}
use bft_consensus_bench.Types.{Sha256}
use bft_consensus_bench.Cluster.Fault.{Rolls}
use bft_consensus_bench.Cluster.Setup.{Seeds}
use bft_consensus_bench.Bench.Runs.{
  Clock, Behaviors, run_pbft_bench, run_hotstuff_bench, run_pbft_byzantine_bench,
  run_hotstuff_byzantine_bench,
}
use bft_consensus_bench.Bench.Steady.Benches.{Returns}
use bft_consensus_bench.Bench.Steady.Pbft.{run_pbft_bench-Returns, run_pbft_byzantine_bench-Returns}
use bft_consensus_bench.Bench.Steady.Hotstuff.{
  run_hotstuff_bench-Returns, run_hotstuff_byzantine_bench-Returns,
}

-- With at least one node, each of the four runs over PBFT and HotStuff returns a result, whatever
-- the draws and whatever the Byzantine nodes do to their messages: no node panics, and the
-- assertion that the proposal is accepted holds for every one of the proposals.
pub benches-Returns :
    {Rng Rate Time Float : Type 0} (rolls : Rolls Rng Rate) (sha256 : Sha256)
    (clock : Clock Time Float) (seeds : Seeds Rng) (n seed : ℕ) (behaviors : Behaviors)
    (warm entropy : Rng) (elapsed : Time)
    → 1 ≤ n
    → Returns (run_pbft_bench rolls sha256 clock n warm entropy elapsed)
      × Returns (run_hotstuff_bench rolls sha256 clock n warm entropy elapsed)
      × Returns (run_pbft_byzantine_bench rolls sha256 clock seeds n seed behaviors elapsed)
      × Returns (run_hotstuff_byzantine_bench rolls sha256 clock seeds n seed behaviors elapsed)
benches-Returns rolls sha256 clock seeds n seed behaviors warm entropy elapsed le = (
  run_pbft_bench-Returns rolls sha256 clock n warm entropy elapsed le,
  run_hotstuff_bench-Returns rolls sha256 clock n warm entropy elapsed le,
  run_pbft_byzantine_bench-Returns rolls sha256 clock seeds n seed behaviors elapsed le,
  run_hotstuff_byzantine_bench-Returns rolls sha256 clock seeds n seed behaviors elapsed le,
)
