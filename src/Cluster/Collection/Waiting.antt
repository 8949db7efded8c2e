-- ===== src/Cluster/Collection/Waiting.antt =====
-- src/cluster/mod.rs: `wait_for_leader` keeps the queues of the nodes.
use bft_consensus_bench.Base.{zero, suc, ℕ, ◌≡◌, subst, some, Option, arith, inl, inr, Option-cases}
use bft_consensus_bench.Types.{NodeId, Sha256}
use bft_consensus_bench.Consensus.{ConsensusNode}
use bft_consensus_bench.Consensus.Outputs.{Outputs}
use bft_consensus_bench.Cluster.Fault.{Rolls}
use bft_consensus_bench.Cluster.State.{Cluster}
use bft_consensus_bench.Cluster.Delivery.{run_to_completion}
use bft_consensus_bench.Cluster.Sim.{tick, wait_for_leader, reachable_leader}
use bft_consensus_bench.Cluster.Collection.Growth.{Quiet, Quiet-of_same, Quiet-trans}
use bft_consensus_bench.Cluster.Collection.Deliveries.{run_to_completion-Quiet}
use bft_consensus_bench.Cluster.Collection.Proposals.{tick-Quiet}

module _ {Node Rng Rate : Type 0} (protocol : ConsensusNode Node) (rolls : Rolls Rng Rate)
    (sha256 : Sha256) (outputs : Outputs protocol) where
  pub wait_for_leader-Quiet :
      (bound : ℕ) (c d : Cluster Node Rng Rate) (leader : Option NodeId)
      → wait_for_leader protocol rolls sha256 bound c ≡ some (d, leader)
      → Quiet protocol outputs c d
  unfolding wait_for_leader
  wait_for_leader-Quiet zero c d leader h =
      Quiet-of_same protocol outputs c d (ground arith) (ground arith)
  wait_for_leader-Quiet (suc bound) c d leader h = elim (Option-cases (tick protocol c)) [
    | inl e ↦ absurd (ground arith)
    | inr (c1, e) ↦ elim (Option-cases (run_to_completion protocol rolls sha256 100 c1)) [
      | inl e' ↦ absurd (ground arith)
      | inr ((c2, k), e') ↦
          let so_far =
            Quiet-trans protocol outputs c c1 c2 (tick-Quiet protocol outputs c c1 e)
              (run_to_completion-Quiet protocol outputs rolls sha256 100 k c1 c2 e') in
          elim (Option-cases (reachable_leader protocol c2.faults c2.nodes)) [
            | inl nobody ↦
                Quiet-trans protocol outputs c c2 d so_far
                  (wait_for_leader-Quiet bound c2 d leader (ground arith))
            | inr (id, found) ↦
                let same : c2 ≡ d = ground arith in subst (Quiet protocol outputs c) same so_far
          ]
    ]
  ]
