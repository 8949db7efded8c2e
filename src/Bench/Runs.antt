-- ===== src/Bench/Runs.antt =====
-- src/bin/bench_report.rs: the benchmark runs. A failed assertion is a panic,
-- `none`. What the source takes from the system's entropy, and the time that a run took by the
-- clock, are arguments; the arithmetic on times is a parameter.
use bft_consensus_bench.Base.{ℕ, zero, suc, Option, none, some, List, [], ◌∷◌, ◌>>=◌}
use bft_consensus_bench.Types.{NodeId, Sha256}
use bft_consensus_bench.Consensus.{ConsensusNode, ProposeResult, accepted, not_leader}
use bft_consensus_bench.Pbft.Node.{pbft_consensus}
use bft_consensus_bench.Hotstuff.Node.{hotstuff_consensus}
use bft_consensus_bench.Raft.State.{GenRange}
use bft_consensus_bench.Raft.Node.{raft_consensus}
use bft_consensus_bench.Cluster.Fault.{
  ByzantineBehavior, Rolls, FaultConfig, with_rng, with_byzantine,
}
use bft_consensus_bench.Cluster.State.{Cluster, set_faults}
use bft_consensus_bench.Cluster.Delivery.{run_to_completion}
use bft_consensus_bench.Cluster.Sim.{propose}
use bft_consensus_bench.Cluster.Setup.{
  Seeds, new_pbft, new_hotstuff, new_pbft_seeded, new_hotstuff_seeded, new_raft_with_leader,
}
use bft_consensus_bench.Bench.Text.{
  Label, warmup_label, pbft_label, hotstuff_label, raft_label, byz_label, numbered,
}
use bft_consensus_bench.Bench.Report.{BenchResult, num_proposals, warmup_proposals}

-- `elapsed.as_secs_f64() * 1000.0`, and `elapsed.as_micros() as f64` over a count.
pub record Clock (Time Float : Type 0) : Type 0 where
  pub total_ms : Time → Float
  pub micros_per : Time → ℕ → Float

abbrev pub Behaviors : Type 0
Behaviors = List (NodeId × List ByzantineBehavior)

unfoldable pub with_all :
    {Rng Rate : Type 0} → FaultConfig Rng Rate → Behaviors → FaultConfig Rng Rate
with_all faults [] = faults
with_all faults ((node, beh) ∷ behaviors) = with_all (with_byzantine faults node beh) behaviors

module _ {Node Rng Rate : Type 0} (protocol : ConsensusNode Node) (rolls : Rolls Rng Rate)
    (sha256 : Sha256) where
  -- The proposals from number `i` on, each run to completion; the answers are not looked at.
  unfoldable pub warm_up :
      (max_steps i left : ℕ) → Cluster Node Rng Rate → Option (Cluster Node Rng Rate)
  unfolding propose run_to_completion numbered
  warm_up max_steps i zero c = some c
  warm_up max_steps i (suc left) c = do
    (c1, result) ← propose protocol c (numbered warmup_label i)
    (c2, steps) ← run_to_completion protocol rolls sha256 max_steps c1
    warm_up max_steps (suc i) left c2

  -- `assert_eq!(result, ProposeResult::Accepted)`
  unfoldable pub assert_accepted :
      Cluster Node Rng Rate × ProposeResult → Option (Cluster Node Rng Rate)
  assert_accepted (c, accepted) = some c
  assert_accepted (c, not_leader hint) = none

  unfoldable pub measure :
      Label → (max_steps i left : ℕ) → Cluster Node Rng Rate → Option (Cluster Node Rng Rate)
  unfolding propose run_to_completion numbered assert_accepted
  measure label max_steps i zero c = some c
  measure label max_steps i (suc left) c = do
    r ← propose protocol c (numbered label i)
    c1 ← assert_accepted r
    (c2, steps) ← run_to_completion protocol rolls sha256 max_steps c1
    measure label max_steps (suc i) left c2

  module _ {Time Float : Type 0} (clock : Clock Time Float) where
    unfoldable pub to_result : Cluster Node Rng Rate → Time → BenchResult Float
    to_result c elapsed = record {
      total_ms = clock.total_ms elapsed;
      per_op_us = clock.micros_per elapsed num_proposals;
      total_messages = c.stats.messages_sent;
      messages_tampered = c.stats.messages_tampered;
    }

    -- The warm-up on one cluster, then the measured proposals on another.
    unfoldable pub bench :
        Label
        → ℕ
        → Cluster Node Rng Rate
        → Cluster Node Rng Rate
        → Time
        → Option (BenchResult Float)
    unfolding warm_up measure to_result
    bench label max_steps warm cluster elapsed = do
      warmed ← warm_up max_steps 0 warmup_proposals warm
      done ← measure label max_steps 0 num_proposals cluster
      some (to_result done elapsed)

module _ {Rng Rate Time Float : Type 0} (rolls : Rolls Rng Rate) (sha256 : Sha256)
    (clock : Clock Time Float) where
  unfoldable pub run_pbft_bench : ℕ → (warm entropy : Rng) → Time → Option (BenchResult Float)
  unfolding bench new_pbft
  run_pbft_bench n warm entropy elapsed =
      bench (pbft_consensus sha256) rolls sha256 clock pbft_label 30 (new_pbft rolls n warm)
        (new_pbft rolls n entropy) elapsed

  unfoldable pub run_hotstuff_bench : ℕ → (warm entropy : Rng) → Time → Option (BenchResult Float)
  unfolding bench new_hotstuff
  run_hotstuff_bench n warm entropy elapsed =
      bench (hotstuff_consensus sha256) rolls sha256 clock hotstuff_label 50
        (new_hotstuff rolls n warm) (new_hotstuff rolls n entropy) elapsed

  module _ (gen_range : GenRange Rng) where
    unfoldable pub run_raft_bench :
        ℕ
        → (warm_nodes : NodeId → Rng) → (warm : Rng) → (node_entropy : NodeId → Rng)
        → (entropy : Rng) → Time
        → Option (BenchResult Float)
    unfolding bench new_raft_with_leader
    run_raft_bench n warm_nodes warm node_entropy entropy elapsed = do
      warm_cluster ← new_raft_with_leader rolls gen_range n warm_nodes warm
      cluster ← new_raft_with_leader rolls gen_range n node_entropy entropy
      bench (raft_consensus gen_range) rolls sha256 clock raft_label 30 warm_cluster cluster elapsed

  module _ (seeds : Seeds Rng) where
    -- The faults of a Byzantine run.
    unfoldable pub seeded_faults : ℕ → Behaviors → FaultConfig Rng Rate
    unfolding with_all with_rng
    seeded_faults seed behaviors = with_all (with_rng rolls (seeds.seed_from_u64 seed)) behaviors

    unfoldable pub run_pbft_byzantine_bench :
        (n seed : ℕ) → Behaviors → Time → Option (BenchResult Float)
    unfolding bench new_pbft_seeded set_faults seeded_faults
    run_pbft_byzantine_bench n seed behaviors elapsed =
        let cluster =
          set_faults (new_pbft_seeded rolls seeds n seed) (seeded_faults seed behaviors) in
        bench (pbft_consensus sha256) rolls sha256 clock byz_label 50 cluster cluster elapsed

    unfoldable pub run_hotstuff_byzantine_bench :
        (n seed : ℕ) → Behaviors → Time → Option (BenchResult Float)
    unfolding bench new_hotstuff_seeded set_faults seeded_faults
    run_hotstuff_byzantine_bench n seed behaviors elapsed =
        let cluster =
          set_faults (new_hotstuff_seeded rolls seeds n seed) (seeded_faults seed behaviors) in
        bench (hotstuff_consensus sha256) rolls sha256 clock byz_label 50 cluster cluster elapsed
