-- ===== src/Consensus/Outputs.antt =====
-- src/consensus/mod.rs: what the cluster relies on in the outputs of a protocol node.
use bft_consensus_bench.Base.{◌≡◌, sym, ap, ◌∙◌, List, [], ◌++◌, none, some}
use mathlib.Core.List.{append_assoc, append-nil}
use bft_consensus_bench.Types.{Payload}
use bft_consensus_bench.Network.{NetworkMessage}
use bft_consensus_bench.Consensus.{ConsensusNode, ProposeResult, CommittedEntry}

-- The second list is the first with more behind it.
abbrev pub Extends : List CommittedEntry → List CommittedEntry → Type 0
Extends xs ys = (more : List CommittedEntry) × (ys ≡ xs ++ more)

pub Extends-of_same : (xs ys : List CommittedEntry) → ys ≡ xs → Extends xs ys
Extends-of_same xs ys e = ([], e ∙ sym (append-nil xs))

pub Extends-trans : (xs ys zs : List CommittedEntry) → Extends xs ys → Extends ys zs → Extends xs zs
Extends-trans xs ys zs (m, e) (m', e') = (m ++ m', e' ∙ ap (λ l. l ++ m') e ∙ append_assoc xs m m')

pub some-first {ℓ κ} : {A : Type ℓ} {B : Type κ} (x y : A × B) → some x ≡ some y → x.0 ≡ y.0
some-first x y h = ap (λ o. elim o [ none ↦ x.0 | some q ↦ q.0 ]) h

-- The entries that a node has committed and not yet handed over are a queue: calls only add behind
-- what is there, and polling takes all of it. No call changes the node's id.
pub record Outputs {Node : Type 0} (c : ConsensusNode Node) : Type 0 where
  pub queue : Node → List CommittedEntry
  pub poll_takes : (n : Node) → (c.poll_committed n).1 ≡ queue n
  pub poll_empties : (n : Node) → queue (c.poll_committed n).0 ≡ []
  pub poll_id : (n : Node) → c.id (c.poll_committed n).0 ≡ c.id n
  pub propose_extends :
      (n n' : Node) (p : Payload) (r : ProposeResult × List NetworkMessage)
      → c.propose n p ≡ some (n', r)
      → (c.id n' ≡ c.id n) × Extends (queue n) (queue n')
  pub handle_extends :
      (n n' : Node) (m : NetworkMessage) (out : List NetworkMessage)
      → c.handle_message n m ≡ some (n', out)
      → (c.id n' ≡ c.id n) × Extends (queue n) (queue n')
  pub tick_extends :
      (n n' : Node) (out : List NetworkMessage)
      → c.tick n ≡ some (n', out)
      → (c.id n' ≡ c.id n) × Extends (queue n) (queue n')
