-- ===== src/Cluster/Delivery/Fates.antt =====
-- src/cluster/mod.rs: what becomes of the messages of a step.
use bft_consensus_bench.Base.{
  ℕ, ◌+◌, ◌≤◌, ◌≡◌, true, false, List, [], ◌∷◌, ◌++◌, some, none, ◌⊎◌, arith, get_elem?, set,
}
use bft_consensus_bench.Types.{Sha256}
use bft_consensus_bench.Network.{NetworkMessage}
use bft_consensus_bench.Consensus.{ConsensusNode}
use bft_consensus_bench.Cluster.Fault.{FaultConfig, Rolls, should_deliver}
use bft_consensus_bench.Cluster.Tamper.{tamper}
use bft_consensus_bench.Cluster.Tamper.Drops.{is_dropped}
use bft_consensus_bench.Cluster.State.{position}

-- A message is lost, or its tampered form goes to no node, or to a node that handles it.
pub data Fate : Type 0 where
  lost : Fate
  nowhere handled : NetworkMessage → Fate

abbrev pub drops_of : Fate → ℕ
drops_of lost = 1
drops_of (nowhere m) = 0
drops_of (handled m) = 0

abbrev pub deliveries_of : Fate → ℕ
deliveries_of lost = 0
deliveries_of (nowhere m) = 0
deliveries_of (handled m) = 1

abbrev pub total : (Fate → ℕ) → List Fate → ℕ
total count [] = 0
total count (fate ∷ fates) = count fate + total count fates

pub at_most_one : (fate : Fate) → drops_of fate + deliveries_of fate ≤ 1
at_most_one lost = omega arith
at_most_one (nowhere m) = omega arith
at_most_one (handled m) = omega arith

module _ {Rng Rate : Type 0} (rolls : Rolls Rng Rate) (sha256 : Sha256) where
  -- One message under the faults, whose random draws the test for it has advanced.
  abbrev pub FateIs : FaultConfig Rng Rate → NetworkMessage → Fate → Type 0
  FateIs f msg lost =
      ((should_deliver rolls f msg).0 ≡ false)
      ⊎ (is_dropped (should_deliver rolls f msg).1 msg ≡ true)
  FateIs f msg (nowhere m) =
      ((should_deliver rolls f msg).0 ≡ true)
      × (tamper sha256 (should_deliver rolls f msg).1 msg ≡ m ∷ [])
  FateIs f msg (handled m) =
      ((should_deliver rolls f msg).0 ≡ true)
      × (tamper sha256 (should_deliver rolls f msg).1 msg ≡ m ∷ [])

  -- The messages one by one, in order, each with its fate.
  abbrev pub Follows : FaultConfig Rng Rate → List NetworkMessage → List Fate → Type 0
  Follows f [] [] = Unit
  Follows f [] (fate ∷ fates) = ⊥
  Follows f (msg ∷ msgs) [] = ⊥
  Follows f (msg ∷ msgs) (fate ∷ fates) =
      FateIs f msg fate × Follows (should_deliver rolls f msg).1 msgs fates

module _ {Node : Type 0} (protocol : ConsensusNode Node) where
  -- What one fate does to the nodes, and the answers to it.
  abbrev pub Acts : List Node → Fate → List Node → List NetworkMessage → Type 0
  Acts ns lost ns' out = (ns' ≡ ns) × (out ≡ [])
  Acts ns (nowhere m) ns' out = (position protocol m.to ns ≡ none) × (ns' ≡ ns) × (out ≡ [])
  Acts ns (handled m) ns' out =
      (i : ℕ) × (n n' : Node) × (get_elem? ns i ≡ some n)
      × (protocol.id n ≡ m.to)
      × (protocol.handle_message n m ≡ some (n', out))
      × (ns' ≡ set ns i n')

  -- The fates one after the other; the answers in order.
  abbrev pub Handling : List Node → List Fate → List Node → List NetworkMessage → Type 0
  Handling ns [] ns' out = (ns' ≡ ns) × (out ≡ [])
  Handling ns (fate ∷ fates) ns' out =
      (mid : List Node) × (first rest : List NetworkMessage) × Acts ns fate mid first
      × Handling mid fates ns' rest
      × (out ≡ first ++ rest)
