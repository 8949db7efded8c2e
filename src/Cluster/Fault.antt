-- ===== src/Cluster/Fault.antt =====
-- src/cluster/fault.rs: fault injection. The generator of the crate rand and the drop rate, a
-- float, are parameters.
pub mod Links
use Prim.Native.Nat.{bit_xor}
use bft_consensus_bench.Base.{
  ℕ, ◌%◌, Bool, true, false, ◌&&◌, ◌||◌, List, [], ◌∷◌, ◌++◌, Option, none, some, ◌==◌,
  if◌then◌else◌, map,
}
use bft_consensus_bench.Base.NodeSet
use bft_consensus_bench.Base.Map
use bft_consensus_bench.Base.Map.{Map}
use bft_consensus_bench.Types.{NodeId, Payload, Digest, Sha256, digest}
use bft_consensus_bench.Network.{
  NetworkMessage, ProtocolMessage, PbftMessage, RaftMessage, HotStuffMessage, LogEntry,
}

pub data MessagePhase : Type 0 where
  pbft_pre_prepare pbft_prepare pbft_commit : MessagePhase
  raft_append_entries raft_request_vote : MessagePhase
  hotstuff_propose hotstuff_vote hotstuff_qc : MessagePhase

-- The order of declaration, by which the derived `PartialEq` tells phases apart.
unfoldable pub phase_index : MessagePhase → ℕ
phase_index MessagePhase.pbft_pre_prepare = 0
phase_index MessagePhase.pbft_prepare = 1
phase_index MessagePhase.pbft_commit = 2
phase_index MessagePhase.raft_append_entries = 3
phase_index MessagePhase.raft_request_vote = 4
phase_index MessagePhase.hotstuff_propose = 5
phase_index MessagePhase.hotstuff_vote = 6
phase_index MessagePhase.hotstuff_qc = 7

unfoldable pub has_phase : MessagePhase → List MessagePhase → Bool
unfolding phase_index
has_phase p [] = false
has_phase p (q ∷ qs) = phase_index p == phase_index q || has_phase p qs

pub data ByzantineBehavior : Type 0 where
  corrupt_digest equivocate : ByzantineBehavior
  selective_drop : (phases : List MessagePhase) → ByzantineBehavior

-- Floats and random draws.
pub record Rolls (Rng Rate : Type 0) : Type 0 where
  pub zero_rate : Rate
  pub clamp : Rate → Rate
  pub lt_rate : Rate → Rate → Bool
  pub gen : Rng → Rate × Rng

pub record FaultConfig (Rng Rate : Type 0) : Type 0 where
  pub drop_rate : Rate
  pub partitions : List (NodeId × NodeId)
  pub isolated_nodes : List NodeId
  pub byzantine_nodes : Map (List ByzantineBehavior)
  pub rng : Rng

unfoldable pub has_pair : NodeId → NodeId → List (NodeId × NodeId) → Bool
has_pair a b [] = false
has_pair a b ((c, d) ∷ ps) = (a == c && b == d) || has_pair a b ps

unfoldable pub insert_pair : NodeId → NodeId → List (NodeId × NodeId) → List (NodeId × NodeId)
unfolding has_pair
insert_pair a b ps = if has_pair a b ps then ps else ps ++ (a, b) ∷ []

module _ {Rng Rate : Type 0} (rolls : Rolls Rng Rate) where
  -- `with_seed`; `default` draws the generator from the system's entropy.
  unfoldable pub with_rng : Rng → FaultConfig Rng Rate
  with_rng rng = record {
    drop_rate = rolls.zero_rate;
    partitions = [];
    isolated_nodes = [];
    byzantine_nodes = [];
    rng = rng;
  }

  unfoldable pub with_drop_rate : FaultConfig Rng Rate → Rate → FaultConfig Rng Rate
  with_drop_rate f rate = record f { drop_rate = rolls.clamp rate }

  unfoldable pub is_cut : FaultConfig Rng Rate → NetworkMessage → Bool
  is_cut f msg =
      (NodeSet.contains msg.from f.isolated_nodes || NodeSet.contains msg.to f.isolated_nodes)
      || has_pair msg.from msg.to f.partitions

  -- The answer, and the configuration with the generator advanced.
  unfoldable pub should_deliver :
      FaultConfig Rng Rate → NetworkMessage → Bool × FaultConfig Rng Rate
  unfolding is_cut
  should_deliver f msg =
      let (roll, rng') = rolls.gen f.rng in
      if is_cut f msg
      then (false, f)
      else if rolls.lt_rate rolls.zero_rate f.drop_rate
      then (if rolls.lt_rate roll f.drop_rate then false else true, record f { rng = rng' })
      else (true, f)

module _ {Rng Rate : Type 0} where
  unfoldable pub with_partition : FaultConfig Rng Rate → NodeId → NodeId → FaultConfig Rng Rate
  unfolding insert_pair
  with_partition f a b = record f { partitions = insert_pair b a (insert_pair a b f.partitions) }

  unfoldable pub with_isolated : FaultConfig Rng Rate → NodeId → FaultConfig Rng Rate
  with_isolated f node = record f { isolated_nodes = NodeSet.insert node f.isolated_nodes }

  unfoldable pub is_isolated : FaultConfig Rng Rate → NodeId → Bool
  is_isolated f node = NodeSet.contains node f.isolated_nodes

  unfoldable pub with_byzantine :
      FaultConfig Rng Rate → NodeId → List ByzantineBehavior → FaultConfig Rng Rate
  with_byzantine f node behaviors = record f {
    byzantine_nodes = Map.insert node behaviors f.byzantine_nodes;
  }

  unfoldable pub is_byzantine : FaultConfig Rng Rate → NodeId → Bool
  is_byzantine f node = elim (Map.get node f.byzantine_nodes) [ none ↦ false | some b ↦ true ]
