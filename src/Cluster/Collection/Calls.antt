-- ===== src/Cluster/Collection/Calls.antt =====
-- src/cluster/mod.rs: the calls that change a cluster, in any order.
use bft_consensus_bench.Base.{◌||◌, ℕ, List, [], ◌∷◌, some, Option, Bool, true, false, ◌>>=◌}
use bft_consensus_bench.Types.{Payload, Sha256}
use bft_consensus_bench.Consensus.{ConsensusNode}
use bft_consensus_bench.Cluster.Fault.{Rolls, FaultConfig}
use bft_consensus_bench.Cluster.CommitLog.{CommitLog}
use bft_consensus_bench.Cluster.State.{Cluster, set_faults, record_all}
use bft_consensus_bench.Cluster.Delivery.{step, run_to_completion}
use bft_consensus_bench.Cluster.Sim.{
  propose, tick, collect_committed, collect_and_record_commits, wait_for_leader,
}

-- What a test or a benchmark asks of a cluster that changes it.
pub data Op (Rng Rate : Type 0) : Type 0 where
  proposes : Payload → Op Rng Rate
  ticks steps : Op Rng Rate
  runs waits : (bound : ℕ) → Op Rng Rate
  -- `collect_and_record_commits`, and `collect_committed` alone.
  collects drains : Op Rng Rate
  sets_faults : FaultConfig Rng Rate → Op Rng Rate

abbrev pub is_drain : {Rng Rate : Type 0} → Op Rng Rate → Bool
is_drain drains = true
is_drain op = false

-- Some call collects and does not record.
abbrev pub some_drains : {Rng Rate : Type 0} → List (Op Rng Rate) → Bool
some_drains [] = false
some_drains (op ∷ ops) = is_drain op || some_drains ops

module _ {Node Rng Rate : Type 0} (protocol : ConsensusNode Node) (rolls : Rolls Rng Rate)
    (sha256 : Sha256) where
  -- The cluster after a call, and what the calls so far have given the caller of each node, which is
  -- kept the way the commit log is. `none` is a panic in a node.
  unfoldable pub after :
      Cluster Node Rng Rate → CommitLog → Op Rng Rate → Option (Cluster Node Rng Rate × CommitLog)
  unfolding propose tick step run_to_completion wait_for_leader collect_committed
      collect_and_record_commits set_faults record_all
  after c given (proposes p) = propose protocol c p >>= λ r. some (r.0, given)
  after c given ticks = tick protocol c >>= λ d. some (d, given)
  after c given steps = step protocol rolls sha256 c >>= λ d. some (d, given)
  after c given (runs bound) =
      run_to_completion protocol rolls sha256 bound c >>= λ r. some (r.0, given)
  after c given (waits bound) =
      wait_for_leader protocol rolls sha256 bound c >>= λ r. some (r.0, given)
  after c given collects =
      let (d, results) = collect_and_record_commits protocol c in some (d, record_all given results)
  after c given drains =
      let (d, results) = collect_committed protocol c in some (d, record_all given results)
  after c given (sets_faults faults) = some (set_faults c faults, given)

  unfoldable pub run_ops :
      Cluster Node Rng Rate
      → CommitLog
      → List (Op Rng Rate)
      → Option (Cluster Node Rng Rate × CommitLog)
  unfolding after
  run_ops c given [] = some (c, given)
  run_ops c given (op ∷ ops) = after c given op >>= λ r. run_ops r.0 r.1 ops
