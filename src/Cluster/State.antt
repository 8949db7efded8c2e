-- ===== src/Cluster/State.antt =====
-- src/cluster/mod.rs: the state of the simulation, over any protocol that implements the trait.
use bft_consensus_bench.Base.{
  ℕ, suc, not, ◌&&◌, List, [], ◌∷◌, ◌++◌, Option, none, some, ◌==◌, if◌then◌else◌, ◌>>=◌, length,
  keep_if, range,
}
use bft_consensus_bench.Types.{NodeId}
use bft_consensus_bench.Network.{NetworkMessage}
use bft_consensus_bench.Consensus.{ConsensusNode, CommittedEntry}
use bft_consensus_bench.Cluster.Fault.{FaultConfig, is_isolated, is_byzantine}
use bft_consensus_bench.Cluster.CommitLog
use bft_consensus_bench.Cluster.CommitLog.{CommitLog, InvariantResult}

pub record ClusterStats : Type 0 where
  pub messages_sent : ℕ
  pub messages_delivered : ℕ
  pub messages_dropped : ℕ
  pub messages_tampered : ℕ
  pub total_steps : ℕ

pub record Cluster (Node Rng Rate : Type 0) : Type 0 where
  pub nodes : List Node
  pub pending : List NetworkMessage
  pub faults : FaultConfig Rng Rate
  pub stats : ClusterStats
  pub commit_log : CommitLog

module _ {Node Rng Rate : Type 0} where
  unfoldable pub enqueue : Cluster Node Rng Rate → List NetworkMessage → Cluster Node Rng Rate
  enqueue c messages = record c { pending = c.pending ++ messages }

  unfoldable pub set_faults : Cluster Node Rng Rate → FaultConfig Rng Rate → Cluster Node Rng Rate
  set_faults c faults = record c { faults = faults }

  unfoldable pub size : Cluster Node Rng Rate → ℕ
  size c = length c.nodes

  -- Neither Byzantine nor isolated.
  unfoldable pub honest_nodes : Cluster Node Rng Rate → List NodeId
  honest_nodes c =
      keep_if (λ id. not (is_byzantine c.faults id) && not (is_isolated c.faults id))
        (range 0 (length c.nodes))

  unfoldable pub check_invariants : Cluster Node Rng Rate → ℕ → InvariantResult
  unfolding honest_nodes
  check_invariants c expected_count = CommitLog.check c.commit_log expected_count (honest_nodes c)

unfoldable pub record_all : CommitLog → List (NodeId × List CommittedEntry) → CommitLog
record_all log [] = log
record_all log ((node, entries) ∷ rest) =
    record_all (CommitLog.record_commits log node entries) rest

module _ {Node : Type 0} (protocol : ConsensusNode Node) where
  -- `nodes.iter().position(|n| n.id() == id)`
  unfoldable pub position : NodeId → List Node → Option ℕ
  position id [] = none
  position id (n ∷ ns) =
      let rest : Option ℕ = elim (position id ns) [ none ↦ none | some i ↦ some (suc i) ] in
      if protocol.id n == id then some 0 else rest

  unfoldable pub tick_nodes : List Node → Option (List Node × List NetworkMessage)
  tick_nodes [] = some ([], [])
  tick_nodes (n ∷ ns) = do
    (n', out) ← protocol.tick n
    (ns', rest) ← tick_nodes ns
    some (n' ∷ ns', out ++ rest)

  -- The drained entries of each node that has some.
  unfoldable pub poll_nodes : List Node → List Node × List (NodeId × List CommittedEntry)
  poll_nodes [] = ([], [])
  poll_nodes (n ∷ ns) =
      let (n', entries) = protocol.poll_committed n in
      let (ns', rest) = poll_nodes ns in
      (n' ∷ ns', elim entries [ [] ↦ rest | e ∷ es ↦ (protocol.id n, e ∷ es) ∷ rest ])
