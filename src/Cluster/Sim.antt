-- ===== src/Cluster/Sim.antt =====
-- src/cluster/mod.rs: proposals, ticks and the collection of commits. `none` is a panic in a node.
use bft_consensus_bench.Base.{
  ℕ, zero, suc, not, ◌&&◌, List, [], ◌∷◌, Option, none, some, if◌then◌else◌, ◌>>=◌, length,
  get_elem?, set,
}
use bft_consensus_bench.Types.{NodeId, Payload, Sha256}
use bft_consensus_bench.Network.{NetworkMessage}
use bft_consensus_bench.Consensus.{
  ConsensusNode, ProposeResult, accepted, not_leader, CommittedEntry, is_leader,
}
use bft_consensus_bench.Cluster.Fault.{FaultConfig, Rolls, is_isolated}
use bft_consensus_bench.Cluster.CommitLog
use bft_consensus_bench.Cluster.CommitLog.{CommitLog, InvariantResult}
use bft_consensus_bench.Cluster.Delivery.{run_to_completion}
use bft_consensus_bench.Cluster.State.{
  Cluster, enqueue, record_all, position, tick_nodes, poll_nodes,
}

module _ {Node Rng Rate : Type 0} (protocol : ConsensusNode Node) where
  -- `nodes[i].propose(payload)`; an index out of range panics.
  unfoldable pub propose_at :
      Cluster Node Rng Rate
      → ℕ
      → Payload
      → Option (Cluster Node Rng Rate × (ProposeResult × List NetworkMessage))
  propose_at c i payload = do
    node ← get_elem? c.nodes i
    (node', r) ← protocol.propose node payload
    some (record c { nodes = set c.nodes i node' }, r)

  -- The leader that a node names; its answer is the answer.
  unfoldable pub redirect :
      Cluster Node Rng Rate → ℕ → Payload → Option (Cluster Node Rng Rate × ProposeResult)
  unfolding propose_at enqueue
  redirect c i payload = do (c', (r, out)) ← propose_at c i payload; some (enqueue c' out, r)

  -- Node `i` and the `left` ones after it.
  unfoldable pub propose_from :
      Cluster Node Rng Rate → Payload → ℕ → ℕ → Option (Cluster Node Rng Rate × ProposeResult)
  unfolding redirect position is_isolated
  propose_from c payload i zero = some (c, not_leader none)
  propose_from c payload i (suc left) = do
    node ← get_elem? c.nodes i
    let skip = propose_from c payload (suc i) left
    let asked : Option (Cluster Node Rng Rate × ProposeResult) = elim (propose_at c i payload) [
      | none ↦ none
      | some (c', (accepted, out)) ↦ some (enqueue c' out, accepted)
      | some (c', (not_leader none, out)) ↦ propose_from c' payload (suc i) left
      | some (c', (not_leader (some leader), out)) ↦ elim (position protocol leader c'.nodes) [
        | none ↦ propose_from c' payload (suc i) left
        | some idx ↦ redirect c' idx payload
      ]
    ]
    if is_isolated c.faults (protocol.id node) then skip else asked

  unfoldable pub propose :
      Cluster Node Rng Rate → Payload → Option (Cluster Node Rng Rate × ProposeResult)
  unfolding propose_from
  propose c payload =
      propose_from (record c { commit_log = CommitLog.record_proposal c.commit_log payload })
        payload 0 (length c.nodes)

  unfoldable pub tick : Cluster Node Rng Rate → Option (Cluster Node Rng Rate)
  unfolding tick_nodes enqueue
  tick c = do
    (nodes, out) ← tick_nodes protocol c.nodes
    some (enqueue (record c { nodes = nodes }) out)

  unfoldable pub collect_committed :
      Cluster Node Rng Rate → Cluster Node Rng Rate × List (NodeId × List CommittedEntry)
  unfolding poll_nodes
  collect_committed c =
      let (nodes, results) = poll_nodes protocol c.nodes in (record c { nodes = nodes }, results)

  unfoldable pub collect_and_record_commits :
      Cluster Node Rng Rate → Cluster Node Rng Rate × List (NodeId × List CommittedEntry)
  unfolding collect_committed record_all
  collect_and_record_commits c =
      let (c', results) = collect_committed c in
      (record c' { commit_log = record_all c'.commit_log results }, results)

  unfoldable pub reachable_leader : FaultConfig Rng Rate → List Node → Option NodeId
  reachable_leader faults [] = none
  reachable_leader faults (n ∷ ns) =
      if is_leader protocol n && not (is_isolated faults (protocol.id n))
      then some (protocol.id n)
      else reachable_leader faults ns

  unfoldable pub wait_for_leader :
      Rolls Rng Rate
      → Sha256
      → ℕ
      → Cluster Node Rng Rate
      → Option (Cluster Node Rng Rate × Option NodeId)
  unfolding tick run_to_completion reachable_leader
  wait_for_leader rolls sha256 zero c = some (c, none)
  wait_for_leader rolls sha256 (suc max_ticks) c = do
    c1 ← tick c
    (c2, steps) ← run_to_completion protocol rolls sha256 100 c1
    elim (reachable_leader c2.faults c2.nodes) [
      | some id ↦ some (c2, some id)
      | none ↦ wait_for_leader rolls sha256 max_ticks c2
    ]
