-- ===== src/Bench/Tests.antt =====
-- Concrete payloads, runs and results.
use bft_consensus_bench.Base.{
  ℕ, ◌+◌, ◌≤◌, ◌≡◌, refl, Option, Bool, true, false, none, ◌++◌, some, List, [], ◌∷◌, map, arith,
}
use bft_consensus_bench.Pbft
use bft_consensus_bench.Hotstuff
use bft_consensus_bench.Raft
use bft_consensus_bench.Cluster.Setup.{Seeds}
use bft_consensus_bench.Cluster.Runs.{no_rolls, sum_digest}
use bft_consensus_bench.Bench.Demo.{demo_row}
use bft_consensus_bench.Bench.Text.{pbft_label, numbered}
use bft_consensus_bench.Bench.Proposals.{payloads, AllDiffer, measure-proposes}
use bft_consensus_bench.Base.NodeSet
use bft_consensus_bench.Base.Map
use bft_consensus_bench.Pbft.State.{PbftNode, PbftState}
use bft_consensus_bench.Pbft.Node.{pbft_consensus}
use bft_consensus_bench.Pbft.Outputs.{pbft_outputs}
use bft_consensus_bench.Consensus.{broadcast, peer_ids}
use bft_consensus_bench.Cluster.Fault.{with_rng, has_pair, is_byzantine}
use bft_consensus_bench.Cluster.State.{Cluster}
use bft_consensus_bench.Cluster.Setup.{new_pbft}
use bft_consensus_bench.Bench.Report.{
  Protocol, BenchResult, RunResult, Ratios, scaling_rows, tolerance,
}
use bft_consensus_bench.Bench.Report.Tolerance.{IsLargest, tolerance_lem}
use bft_consensus_bench.Bench.Report.Scaling.{ScalingRow, scaling_rows-some}
use bft_consensus_bench.Bench.Runs.{
  measure, Clock, run_pbft_bench, run_hotstuff_bench, run_pbft_byzantine_bench,
  run_hotstuff_byzantine_bench,
}
use bft_consensus_bench.Bench.Jobs.{
  Job, to_run, run_jobs, clean_jobs, byzantine_jobs, main_results, two_corruptors,
}
use bft_consensus_bench.Bench.Steady.Benches.{Returns}
use bft_consensus_bench.Bench.Steady.Returns.{benches-Returns}

-- "pbft-137"
pbft_137 : (numbered pbft_label 137).bytes ≡ 112 ∷ 98 ∷ 102 ∷ 116 ∷ 45 ∷ 49 ∷ 51 ∷ 55 ∷ []
unfolding numbered
pbft_137 = refl

abbrev PbftCluster : Type 0
PbftCluster = Cluster (PbftNode × PbftState) ℕ ℕ

abbrev fresh : PbftCluster
fresh = new_pbft no_rolls 4 0

abbrev or_fresh : Option PbftCluster → PbftCluster
or_fresh none = fresh
or_fresh (some c) = c

abbrev is_some : Option PbftCluster → Bool
is_some none = false
is_some (some c) = true

or_fresh-some : (o : Option PbftCluster) → is_some o ≡ true → o ≡ some (or_fresh o)
or_fresh-some none h = cc
or_fresh-some (some c) h = refl

abbrev measured : Option PbftCluster
measured = measure (pbft_consensus sum_digest) no_rolls sum_digest pbft_label 9 5 2 fresh

measured_returns : is_some measured ≡ true
unfolding measure pbft_consensus new_pbft NodeSet.contains with_rng Pbft.State.primary_for_view
    Pbft.State.init Pbft.State.new Pbft.State.broadcast_pbft broadcast peer_ids has_pair Map.get
    is_byzantine Map.insert Pbft.State.prepare_threshold NodeSet.insert Pbft.State.quorum
measured_returns = refl

measure-proposes_example :
    ((or_fresh measured).commit_log.proposed ≡ fresh.commit_log.proposed ++ payloads pbft_label 5 2)
    × AllDiffer (payloads pbft_label 5 2)
measure-proposes_example =
    measure-proposes (pbft_consensus sum_digest) (pbft_outputs sum_digest) no_rolls sum_digest
      pbft_label 9 5 2 fresh (or_fresh measured) (or_fresh-some measured measured_returns)

abbrev seeds : Seeds ℕ
seeds = record { seed_from_u64 = λ seed. seed; gen_u64 = λ rng. (rng, rng + 1) }

-- A time is a number of microseconds, and a float a natural number.
abbrev clock : Clock ℕ ℕ
clock = record { total_ms = λ t. t; micros_per = λ t count. t }

benches-Returns_example :
    Returns (run_pbft_bench no_rolls sum_digest clock 7 1 2 900)
    × Returns (run_hotstuff_bench no_rolls sum_digest clock 7 1 2 900)
    × Returns (run_pbft_byzantine_bench no_rolls sum_digest clock seeds 7 99 two_corruptors 900)
    × Returns (run_hotstuff_byzantine_bench no_rolls sum_digest clock seeds 7 99 two_corruptors 900)
benches-Returns_example =
    benches-Returns no_rolls sum_digest clock seeds 7 99 two_corruptors 1 2 900 (omega arith)

tolerance_lem_example :
    ((tolerance Protocol.pbft 7 ≡ (demo_row 7).pbft)
      × IsLargest 3 7 (tolerance Protocol.pbft 7)
      × (Pbft.State.quorum (Pbft.State.new 0 7) + tolerance Protocol.pbft 7 ≤ 7))
    × ((tolerance Protocol.hotstuff 7 ≡ (demo_row 7).hotstuff)
        × IsLargest 3 7 (tolerance Protocol.hotstuff 7)
        × (Hotstuff.State.quorum (Hotstuff.State.new 0 7) + tolerance Protocol.hotstuff 7 ≤ 7))
    × ((tolerance Protocol.raft 7 ≡ (demo_row 7).raft)
        × IsLargest 2 7 (tolerance Protocol.raft 7)
        × (Raft.State.majority (Raft.State.new 0 7) + tolerance Protocol.raft 7 ≤ 7))
tolerance_lem_example = tolerance_lem 7 0 (omega arith) (omega arith)

abbrev some_bench : BenchResult ℕ
some_bench = record { total_ms = 3; per_op_us = 6; total_messages = 9000; messages_tampered = 0 }

abbrev always : ℕ → Job → Option (BenchResult ℕ)
always i job = some some_bench

abbrev ratios : Ratios ℕ
ratios = record { quotient = λ a b. a + b; overhead_pct = λ a b. a + b }

abbrev clean_results : List (RunResult ℕ)
clean_results = map (λ job. to_run job some_bench) (clean_jobs (3 ∷ 5 ∷ 7 ∷ []))

abbrev byzantine_results : List (RunResult ℕ)
byzantine_results = map (λ job. to_run job some_bench) byzantine_jobs

scaling_rows-some_example :
    (a : ScalingRow ℕ) × (b : ScalingRow ℕ) × (c : ScalingRow ℕ) × (scaling_rows ratios
        clean_results
      ≡ some (a ∷ b ∷ c ∷ []))
unfolding main_results to_run run_jobs clean_jobs
scaling_rows-some_example = scaling_rows-some ratios always clean_results byzantine_results refl
