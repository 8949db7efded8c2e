-- ===== src/Pbft/Quorum.antt =====
-- src/consensus/pbft/state.rs: the sizes of quorums.
use bft_consensus_bench.Base.{
  ◌+◌, ◌*◌, ◌%◌, ◌≤◌, ◌<◌, ◌≡◌, ◌↔◌, true, false, List, arith, u64_mod, length, All,
}
use bft_consensus_bench.Base.NodeSet.{contains, IsDistinct}
use bft_consensus_bench.Base.Count.{honest_overlap}
use bft_consensus_bench.Types.{NodeId}
use bft_consensus_bench.Pbft.State.{PbftNode, quorum, fault_tolerance}

module _ (n : PbftNode) (pos : 0 < n.cluster_size) (small : n.cluster_size < u64_mod) where
  -- Fewer than a third of the replicas may fail, and no larger number below a third is left out.
  pub fault_tolerance_bounds :
      (3 * fault_tolerance n < n.cluster_size) × (n.cluster_size ≤ 3 * fault_tolerance n + 3)
  unfolding fault_tolerance
  fault_tolerance_bounds = omega arith

  -- In a cluster of at least one replica, the replicas that are left when as many as the tolerance
  -- fail are still a quorum.
  quorum_reachable : quorum n + fault_tolerance n ≤ n.cluster_size
  unfolding quorum fault_tolerance
  quorum_reachable = omega arith

  -- Two quorums overlap in more replicas than may fail exactly if the size of the cluster is one
  -- more than a multiple of three: the quorum of 2f + 1 is too small for any other size.
  pub quorum_overlap :
      (n.cluster_size + fault_tolerance n < 2 * quorum n) ↔ (n.cluster_size % 3 ≡ 1)
  unfolding quorum fault_tolerance
  quorum_overlap = ((λ h. omega arith), (λ h. omega arith))

  -- Two quorums of replicas of a cluster of 3f + 1 share a replica that is not faulty, whichever f
  -- replicas are faulty.
  pub quorum_intersection :
      (one two faulty : List NodeId)
      → n.cluster_size % 3 ≡ 1
      → IsDistinct one
      → IsDistinct two
      → All (λ x. x < n.cluster_size) one
      → All (λ x. x < n.cluster_size) two
      → quorum n ≤ length one
      → quorum n ≤ length two
      → length faulty ≤ fault_tolerance n
      → (x : NodeId) × (x < n.cluster_size)
        × (contains x one ≡ true)
        × (contains x two ≡ true)
        × (contains x faulty ≡ false)
  quorum_intersection one two faulty size d1 d2 a1 a2 q1 q2 few =
      honest_overlap n.cluster_size one two faulty d1 d2 a1 a2
        (omega (arith, quorum_overlap.1 size))
