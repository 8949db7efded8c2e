-- ===== src/Bench/Steady/Messages.antt =====
-- src/consensus/mod.rs and src/cluster/mod.rs: usual messages, sent and tampered with.
use bft_consensus_bench.Base.{
  ◌≡◌, List, [], ◌∷◌, some, inl, inr, Option-cases, Bool-cases, All, All-append, ◌%◌, ◌==◌,
}
use bft_consensus_bench.Base.Map
use bft_consensus_bench.Types.{NodeId, Payload, Sha256}
use bft_consensus_bench.Network.{NetworkMessage, ProtocolMessage}
use bft_consensus_bench.Consensus.{ConsensusNode, accepted, broadcast, msg_to}
use bft_consensus_bench.Cluster.Fault.{FaultConfig, ByzantineBehavior}
use bft_consensus_bench.Cluster.Tamper.{
  corrupt_payload, corrupt, alter_message, equivocate_message, matches_phase, misbehave,
  misbehave_all, apply_behaviors, tamper,
}

abbrev pub AllUsual : (ProtocolMessage → Type 0) → List NetworkMessage → Type 0
AllUsual Usual = All (λ (m : NetworkMessage). Usual m.payload)

pub broadcast-AllUsual :
    (Usual : ProtocolMessage → Type 0) (id : NodeId) (peers : List NodeId) (m : ProtocolMessage)
    → Usual m
    → AllUsual Usual (broadcast id peers m)
unfolding broadcast msg_to
broadcast-AllUsual Usual id [] m u = tt
broadcast-AllUsual Usual id (p ∷ peers) m u = (u, broadcast-AllUsual Usual id peers m u)

-- What a protocol has to keep: a calm node that handles a usual message stays calm and sends usual
-- messages; a calm node 0 accepts each proposal; and tampering leaves a usual message usual.
pub record Steady {Node : Type 0} (protocol : ConsensusNode Node) (sha256 : Sha256)
    (Calm : Node → Type 0) (Usual : ProtocolMessage → Type 0) : Type 0 where
  pub proposes :
      (n : Node) (p : Payload)
      → Calm n
      → protocol.id n ≡ 0
      → (n' : Node) × (out : List NetworkMessage) × (protocol.propose n p
          ≡ some (n', (accepted, out)))
        × (protocol.id n' ≡ protocol.id n)
        × Calm n'
        × AllUsual Usual out
  pub handles :
      (n : Node) (m : NetworkMessage)
      → Calm n
      → Usual m.payload
      → (n' : Node) × (out : List NetworkMessage) × (protocol.handle_message n m ≡ some (n', out))
        × (protocol.id n' ≡ protocol.id n)
        × Calm n'
        × AllUsual Usual out
  pub corrupts : (m : ProtocolMessage) → Usual m → Usual (corrupt_payload m)
  pub alters : (m : ProtocolMessage) → Usual m → Usual (alter_message sha256 m)

module _ {Node : Type 0} (protocol : ConsensusNode Node) (sha256 : Sha256) (Calm : Node → Type 0)
    (Usual : ProtocolMessage → Type 0) (steady : Steady protocol sha256 Calm Usual) where
  misbehave-AllUsual :
      (b : ByzantineBehavior) (m : NetworkMessage)
      → Usual m.payload
      → AllUsual Usual (misbehave sha256 b m)
  unfolding misbehave corrupt equivocate_message
  misbehave-AllUsual ByzantineBehavior.corrupt_digest m u = (steady.corrupts m.payload u, tt)
  misbehave-AllUsual ByzantineBehavior.equivocate m u = elim (Bool-cases (m.to % 2 == 0)) [
    | inl even ↦ rw even (u, tt)
    | inr odd ↦ rw odd (steady.alters m.payload u, tt)
  ]
  misbehave-AllUsual (ByzantineBehavior.selective_drop phases) m u =
      elim (Bool-cases (matches_phase m phases)) [ inl q ↦ rw q tt | inr q ↦ rw q (u, tt) ]

  misbehave_all-AllUsual :
      (b : ByzantineBehavior) (ms : List NetworkMessage)
      → AllUsual Usual ms
      → AllUsual Usual (misbehave_all sha256 b ms)
  unfolding misbehave_all
  misbehave_all-AllUsual b [] h = tt
  misbehave_all-AllUsual b (m ∷ ms) (u, h) =
      All-append _ (misbehave sha256 b m) _ (misbehave-AllUsual b m u)
        (misbehave_all-AllUsual b ms h)

  apply_behaviors-AllUsual :
      (bs : List ByzantineBehavior) (ms : List NetworkMessage)
      → AllUsual Usual ms
      → AllUsual Usual (apply_behaviors sha256 bs ms)
  unfolding apply_behaviors
  apply_behaviors-AllUsual [] ms h = h
  apply_behaviors-AllUsual (b ∷ bs) ms h =
      apply_behaviors-AllUsual bs (misbehave_all sha256 b ms) (misbehave_all-AllUsual b ms h)

  pub tamper-AllUsual :
      {Rng Rate : Type 0} (f : FaultConfig Rng Rate) (m : NetworkMessage)
      → Usual m.payload
      → AllUsual Usual (tamper sha256 f m)
  unfolding tamper
  tamper-AllUsual f m u = elim (Option-cases (Map.get m.from f.byzantine_nodes)) [
    | inl e ↦ rw (e, tamper) (u, tt)
    | inr (bs, e) ↦ rw (e, tamper) (apply_behaviors-AllUsual bs (m ∷ []) (u, tt))
  ]
