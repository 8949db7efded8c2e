-- ===== src/Bench/Jobs.antt =====
-- src/bin/bench_report.rs: the list of runs that `main` makes, and their results.
use bft_consensus_bench.Base.{length, suc, ℕ, true, false, Option, some, List, [], ◌∷◌, ◌>>=◌}
use bft_consensus_bench.Types.{NodeId, Sha256}
use bft_consensus_bench.Raft.State.{GenRange}
use bft_consensus_bench.Cluster.Fault.{ByzantineBehavior, Rolls}
use bft_consensus_bench.Cluster.Setup.{Seeds}
use bft_consensus_bench.Bench.Report.{Protocol, BenchResult, RunResult}
use bft_consensus_bench.Bench.Runs.{
  Clock, Behaviors, run_pbft_bench, run_hotstuff_bench, run_raft_bench, run_pbft_byzantine_bench,
  run_hotstuff_byzantine_bench,
}

-- The runs that `main` makes.
pub data Job : Type 0 where
  clean : Protocol → (nodes : ℕ) → Job
  pbft_byzantine hotstuff_byzantine : (nodes seed : ℕ) → Behaviors → Job

unfoldable pub clean_jobs : List ℕ → List Job
clean_jobs [] = []
clean_jobs (n ∷ sizes) =
    clean Protocol.pbft n ∷ clean Protocol.hotstuff n ∷ clean Protocol.raft n ∷ clean_jobs sizes

abbrev pub one_equivocator : Behaviors
one_equivocator = (3, ByzantineBehavior.equivocate ∷ []) ∷ []

abbrev pub two_corruptors : Behaviors
two_corruptors =
    (5, ByzantineBehavior.corrupt_digest ∷ []) ∷ (6, ByzantineBehavior.corrupt_digest ∷ []) ∷ []

abbrev pub byzantine_jobs : List Job
byzantine_jobs =
    clean Protocol.pbft 4
    ∷ pbft_byzantine 4 42 one_equivocator
    ∷ clean Protocol.hotstuff 4
    ∷ hotstuff_byzantine 4 42 one_equivocator
    ∷ clean Protocol.hotstuff 7
    ∷ hotstuff_byzantine 7 99 two_corruptors
    ∷ clean Protocol.pbft 7
    ∷ pbft_byzantine 7 99 two_corruptors
    ∷ []

unfoldable pub to_run : {Float : Type 0} → Job → BenchResult Float → RunResult Float
to_run (clean p n) b = record { protocol = p; nodes = n; byzantine = false; bench = b }
to_run (pbft_byzantine n seed behaviors) b = record {
  protocol = Protocol.pbft;
  nodes = n;
  byzantine = true;
  bench = b;
}
to_run (hotstuff_byzantine n seed behaviors) b = record {
  protocol = Protocol.hotstuff;
  nodes = n;
  byzantine = true;
  bench = b;
}

-- The jobs in order, which are numbered from `i` on.
unfoldable pub run_jobs :
    {Float : Type 0}
    → (ℕ → Job → Option (BenchResult Float))
    → ℕ
    → List Job
    → Option (List (RunResult Float))
unfolding to_run
run_jobs perform i [] = some []
run_jobs perform i (job ∷ jobs) = do
  b ← perform i job
  results ← run_jobs perform (suc i) jobs
  some (to_run job b ∷ results)

-- What one run takes from the system's entropy, and from the clock.
pub record Draws (Rng Time : Type 0) : Type 0 where
  pub warm : Rng
  pub entropy : Rng
  pub warm_nodes : NodeId → Rng
  pub node_entropy : NodeId → Rng
  pub elapsed : Time

-- The run of that number, with its own draws.
unfoldable pub perform :
    {Rng Rate Time Float : Type 0}
    → Rolls Rng Rate
    → Sha256
    → Clock Time Float
    → GenRange Rng
    → Seeds Rng
    → (ℕ → Draws Rng Time)
    → ℕ
    → Job
    → Option (BenchResult Float)
unfolding run_pbft_bench run_hotstuff_bench run_raft_bench run_pbft_byzantine_bench
    run_hotstuff_byzantine_bench
perform rolls sha256 clock gen_range seeds draws i (clean Protocol.pbft n) =
    let d = draws i in run_pbft_bench rolls sha256 clock n d.warm d.entropy d.elapsed
perform rolls sha256 clock gen_range seeds draws i (clean Protocol.hotstuff n) =
    let d = draws i in run_hotstuff_bench rolls sha256 clock n d.warm d.entropy d.elapsed
perform rolls sha256 clock gen_range seeds draws i (clean Protocol.raft n) =
    let d = draws i in
    run_raft_bench rolls sha256 clock gen_range n d.warm_nodes d.warm d.node_entropy d.entropy
      d.elapsed
perform rolls sha256 clock gen_range seeds draws i (pbft_byzantine n seed behaviors) =
    let d = draws i in run_pbft_byzantine_bench rolls sha256 clock seeds n seed behaviors d.elapsed
perform rolls sha256 clock gen_range seeds draws i (hotstuff_byzantine n seed behaviors) =
    let d = draws i in
    run_hotstuff_byzantine_bench rolls sha256 clock seeds n seed behaviors d.elapsed

-- `results` and `byz_results`, given what performs each run; the byzantine runs are numbered after
-- the others.
unfoldable pub main_results :
    {Float : Type 0}
    → (ℕ → Job → Option (BenchResult Float))
    → Option (List (RunResult Float) × List (RunResult Float))
unfolding run_jobs clean_jobs
main_results perform = do
  let jobs = clean_jobs (3 ∷ 5 ∷ 7 ∷ [])
  results ← run_jobs perform 0 jobs
  byz_results ← run_jobs perform (length jobs) byzantine_jobs
  some (results, byz_results)
