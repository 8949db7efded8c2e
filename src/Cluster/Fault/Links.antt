-- ===== src/Cluster/Fault/Links.antt =====
-- src/cluster/fault.rs: which links the faults cut.
use bft_consensus_bench.Base.{
  ◌≡◌, refl, Bool, false, ◌&&◌, ◌||◌, List, [], ◌∷◌, ◌++◌, arith, ◌==◌, if◌then◌else◌,
}
use bft_consensus_bench.Base.NodeSet
use bft_consensus_bench.Types.{NodeId}
use bft_consensus_bench.Network.{NetworkMessage}
use bft_consensus_bench.Cluster.Fault.{
  Rolls, FaultConfig, has_pair, insert_pair, is_cut, should_deliver, with_partition, with_isolated,
}

has_pair-append :
    (a b : NodeId) (ps qs : List (NodeId × NodeId))
    → has_pair a b (ps ++ qs) ≡ (has_pair a b ps || has_pair a b qs)
unfolding has_pair
has_pair-append a b [] qs = refl
has_pair-append a b ((c, d) ∷ ps) qs = ground (arith, has_pair-append a b ps qs)

has_pair-insert_pair :
    (a b c d : NodeId) (ps : List (NodeId × NodeId))
    → has_pair a b (insert_pair c d ps) ≡ ((a == c && b == d) || has_pair a b ps)
unfolding has_pair insert_pair
has_pair-insert_pair a b c d ps = ground (arith, has_pair-append a b ps ((c, d) ∷ []))

-- The message goes from one of the two nodes to the other.
unfoldable pub joins : NodeId → NodeId → NetworkMessage → Bool
joins a b msg = (msg.from == a && msg.to == b) || (msg.from == b && msg.to == a)

-- The message goes from the node or to it.
unfoldable pub touches : NodeId → NetworkMessage → Bool
touches node msg = msg.from == node || msg.to == node

module _ {Rng Rate : Type 0} (rolls : Rolls Rng Rate) (f : FaultConfig Rng Rate) where
  -- A partition between two nodes stops the messages between them, in both directions, and changes
  -- nothing for any other message, whatever the earlier faults and the drop rate are.
  pub partition-cuts :
      (a b : NodeId) (msg : NetworkMessage)
      → (should_deliver rolls (with_partition f a b) msg).0
        ≡ (if joins a b msg then false else (should_deliver rolls f msg).0)
  unfolding should_deliver is_cut with_partition joins
  partition-cuts a b msg = ground (
    arith,
    has_pair-insert_pair msg.from msg.to b a (insert_pair a b f.partitions),
    has_pair-insert_pair msg.from msg.to a b f.partitions,
  )

  -- An isolated node neither sends nor receives, and isolating it changes nothing for a message
  -- between other nodes.
  isolation-cuts :
      (node : NodeId) (msg : NetworkMessage)
      → (should_deliver rolls (with_isolated f node) msg).0
        ≡ (if touches node msg then false else (should_deliver rolls f msg).0)
  unfolding should_deliver is_cut with_isolated touches
  isolation-cuts node msg = ground (
    arith,
    NodeSet.contains-insert node msg.from f.isolated_nodes,
    NodeSet.contains-insert node msg.to f.isolated_nodes,
  )
