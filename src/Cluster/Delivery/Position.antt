-- ===== src/Cluster/Delivery/Position.antt =====
-- src/cluster/mod.rs: the node that a message goes to.
use bft_consensus_bench.Base.{
  ℕ, zero, suc, ◌≡◌, refl, some, List, [], ◌∷◌, inl, inr, arith, ◌==◌, get_elem?, Bool-cases,
}
use bft_consensus_bench.Types.{NodeId}
use bft_consensus_bench.Consensus.{ConsensusNode}
use bft_consensus_bench.Cluster.State.{position}

module _ {Node : Type 0} (protocol : ConsensusNode Node) where
  -- What `position` finds is a node of that identifier, in its place.
  pub position-finds :
      (id : NodeId) (nodes : List Node) (i : ℕ)
      → position protocol id nodes ≡ some i
      → (node : Node) × (get_elem? nodes i ≡ some node) × (protocol.id node ≡ id)
  unfolding position
  position-finds id [] i h = cc
  position-finds id (n ∷ ns) zero h = (
    n,
    refl,
    elim (Bool-cases (protocol.id n == id)) [ inl e ↦ ground arith | inr e ↦ ground arith ],
  )
  position-finds id (n ∷ ns) (suc i) h = position-finds id ns i (ground arith)
