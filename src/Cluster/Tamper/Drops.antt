-- ===== src/Cluster/Tamper/Drops.antt =====
-- src/cluster/fault.rs: what tampering can do to a message.
use bft_consensus_bench.Base.{
  ◌≡◌, refl, ◌∙◌, ap, ◌⊎◌, inl, inr, Bool, true, false, ◌||◌, List, [], ◌∷◌, ◌++◌, none, some,
  arith, ◌==◌, ◌%◌, Bool-cases, Option-cases,
}
use bft_consensus_bench.Base.Map
use bft_consensus_bench.Types.{Sha256}
use bft_consensus_bench.Network.{
  NetworkMessage, ProtocolMessage, PbftMessage, RaftMessage, HotStuffMessage,
}
use bft_consensus_bench.Cluster.Fault.{ByzantineBehavior, FaultConfig}
use bft_consensus_bench.Cluster.Tamper.{
  corrupt_payload, corrupt, alter_message, equivocate_message, message_phase, matches_phase,
  misbehave, misbehave_all, apply_behaviors, tamper,
}

corrupt_payload-message_phase :
    (m : ProtocolMessage) → message_phase (corrupt_payload m) ≡ message_phase m
unfolding message_phase corrupt_payload
corrupt_payload-message_phase (ProtocolMessage.pbft (PbftMessage.pre_prepare v s d p)) = refl
corrupt_payload-message_phase (ProtocolMessage.pbft (PbftMessage.prepare v s d r)) = refl
corrupt_payload-message_phase (ProtocolMessage.pbft (PbftMessage.commit v s d r)) = refl
corrupt_payload-message_phase (ProtocolMessage.pbft (PbftMessage.view_change v r l)) = refl
corrupt_payload-message_phase (ProtocolMessage.pbft (PbftMessage.new_view v n)) = refl
corrupt_payload-message_phase (ProtocolMessage.raft m) = refl
corrupt_payload-message_phase (ProtocolMessage.hotstuff (HotStuffMessage.propose v s d p jv jp)) =
    refl
corrupt_payload-message_phase (ProtocolMessage.hotstuff (HotStuffMessage.vote v s d ph r)) = refl
corrupt_payload-message_phase
      (ProtocolMessage.hotstuff (HotStuffMessage.quorum_certificate v s d ph c)) =
    refl
corrupt_payload-message_phase (ProtocolMessage.hotstuff (HotStuffMessage.new_view v qv qp r)) = refl

alter_message-message_phase :
    (sha256 : Sha256) (m : ProtocolMessage)
    → message_phase (alter_message sha256 m) ≡ message_phase m
unfolding message_phase alter_message
alter_message-message_phase sha256 (ProtocolMessage.pbft (PbftMessage.pre_prepare v s d p)) = refl
alter_message-message_phase sha256 (ProtocolMessage.pbft (PbftMessage.prepare v s d r)) = refl
alter_message-message_phase sha256 (ProtocolMessage.pbft (PbftMessage.commit v s d r)) = refl
alter_message-message_phase sha256 (ProtocolMessage.pbft (PbftMessage.view_change v r l)) = refl
alter_message-message_phase sha256 (ProtocolMessage.pbft (PbftMessage.new_view v n)) = refl
alter_message-message_phase sha256
      (ProtocolMessage.raft (RaftMessage.append_entries t l pi pt es c)) =
    refl
alter_message-message_phase sha256
      (ProtocolMessage.raft (RaftMessage.append_entries_response t s mi)) =
    refl
alter_message-message_phase sha256 (ProtocolMessage.raft (RaftMessage.request_vote t c i lt)) = refl
alter_message-message_phase sha256 (ProtocolMessage.raft (RaftMessage.request_vote_response t g)) =
    refl
alter_message-message_phase sha256
      (ProtocolMessage.hotstuff (HotStuffMessage.propose v s d p jv jp)) =
    refl
alter_message-message_phase sha256 (ProtocolMessage.hotstuff (HotStuffMessage.vote v s d ph r)) =
    refl
alter_message-message_phase sha256
      (ProtocolMessage.hotstuff (HotStuffMessage.quorum_certificate v s d ph c)) =
    refl
alter_message-message_phase sha256 (ProtocolMessage.hotstuff (HotStuffMessage.new_view v qv qp r)) =
    refl

-- The behavior drops messages of the phase.
abbrev pub drops : ByzantineBehavior → NetworkMessage → Bool
drops (ByzantineBehavior.selective_drop phases) msg = matches_phase msg phases
drops _ msg = false

abbrev pub some_drops : List ByzantineBehavior → NetworkMessage → Bool
some_drops [] msg = false
some_drops (b ∷ bs) msg = drops b msg || some_drops bs msg

-- The same route and the same phase.
pub record Resembles (m msg : NetworkMessage) : Type 0 where
  pub from : m.from ≡ msg.from
  pub to : m.to ≡ msg.to
  pub phase : message_phase m.payload ≡ message_phase msg.payload

-- One behavior leaves nothing, if it drops the phase, or one message on the same route.
misbehave-cases :
    (sha256 : Sha256) (b : ByzantineBehavior) (msg : NetworkMessage)
    → ((drops b msg ≡ true) × (misbehave sha256 b msg ≡ []))
      ⊎ ((drops b msg ≡ false)
          × (m : NetworkMessage) × Resembles m msg
          × (misbehave sha256 b msg ≡ m ∷ []))
unfolding misbehave corrupt equivocate_message
misbehave-cases sha256 ByzantineBehavior.corrupt_digest msg = inr (
  refl,
  corrupt msg,
  record { from = refl; to = refl; phase = corrupt_payload-message_phase msg.payload },
  refl,
)
misbehave-cases sha256 ByzantineBehavior.equivocate msg = elim (Bool-cases (msg.to % 2 == 0)) [
  | inl even ↦ inr (refl, msg, record { from = refl; to = refl; phase = refl }, ground arith)
  | inr odd ↦ inr (
    refl,
    record msg { payload = alter_message sha256 msg.payload },
    record { from = refl; to = refl; phase = alter_message-message_phase sha256 msg.payload },
    ground arith,
  )
]
misbehave-cases sha256 (ByzantineBehavior.selective_drop phases) msg =
    elim (Bool-cases (matches_phase msg phases)) [
      | inl dropped ↦ inl (dropped, ground arith)
      | inr kept ↦ inr (kept, msg, record { from = refl; to = refl; phase = refl }, ground arith)
    ]

some_drops-Resembles :
    (bs : List ByzantineBehavior) (m msg : NetworkMessage)
    → Resembles m msg
    → some_drops bs m ≡ some_drops bs msg
unfolding matches_phase
some_drops-Resembles [] m msg r = refl
some_drops-Resembles (ByzantineBehavior.corrupt_digest ∷ bs) m msg r =
    some_drops-Resembles bs m msg r
some_drops-Resembles (ByzantineBehavior.equivocate ∷ bs) m msg r = some_drops-Resembles bs m msg r
some_drops-Resembles (ByzantineBehavior.selective_drop phases ∷ bs) m msg r =
    ground (arith, some_drops-Resembles bs m msg r, r.phase)

apply_behaviors-nil :
    (sha256 : Sha256) (bs : List ByzantineBehavior) → apply_behaviors sha256 bs [] ≡ []
unfolding apply_behaviors misbehave_all
apply_behaviors-nil sha256 [] = refl
apply_behaviors-nil sha256 (b ∷ bs) = apply_behaviors-nil sha256 bs

-- One behavior, then the others on what it leaves of one message.
apply_behaviors-cons :
    (sha256 : Sha256) (b : ByzantineBehavior) (bs : List ByzantineBehavior) (msg : NetworkMessage)
    (left : List NetworkMessage)
    → misbehave sha256 b msg ≡ left
    → apply_behaviors sha256 (b ∷ bs) (msg ∷ []) ≡ apply_behaviors sha256 bs (left ++ [])
unfolding apply_behaviors misbehave_all
apply_behaviors-cons sha256 b bs msg left e = ap (λ l. apply_behaviors sha256 bs (l ++ [])) e

apply_behaviors-cases :
    (sha256 : Sha256) (bs : List ByzantineBehavior) (msg : NetworkMessage)
    → ((some_drops bs msg ≡ true) × (apply_behaviors sha256 bs (msg ∷ []) ≡ []))
      ⊎ ((some_drops bs msg ≡ false)
          × (m : NetworkMessage) × Resembles m msg
          × (apply_behaviors sha256 bs (msg ∷ []) ≡ m ∷ []))
apply_behaviors-cases sha256 [] msg =
    inr
      (refl, msg, record { from = refl; to = refl; phase = refl }, (unfold apply_behaviors in refl))
apply_behaviors-cases sha256 (b ∷ bs) msg = elim (misbehave-cases sha256 b msg) [
  | inl (drop, e) ↦
      inl (ground arith, apply_behaviors-cons sha256 b bs msg [] e ∙ apply_behaviors-nil sha256 bs)
  | inr (keep, m, r, e) ↦
      let path = apply_behaviors-cons sha256 b bs msg (m ∷ []) e in
      let same = some_drops-Resembles bs m msg r in
      elim (apply_behaviors-cases sha256 bs m) [
        | inl (drop, e') ↦ inl (ground (arith, same), path ∙ e')
        | inr (keep', m', r', e') ↦ inr (
          ground (arith, same),
          m',
          record { from = r'.from ∙ r.from; to = r'.to ∙ r.to; phase = r'.phase ∙ r.phase },
          path ∙ e',
        )
      ]
]

-- A Byzantine sender of which one behavior drops the message's phase.
unfoldable pub is_dropped : {Rng Rate : Type 0} → FaultConfig Rng Rate → NetworkMessage → Bool
is_dropped f msg = elim (Map.get msg.from f.byzantine_nodes) [
  | none ↦ false
  | some behaviors ↦ some_drops behaviors msg
]

pub tamper-cases :
    {Rng Rate : Type 0} (sha256 : Sha256) (f : FaultConfig Rng Rate) (msg : NetworkMessage)
    → ((is_dropped f msg ≡ true) × (tamper sha256 f msg ≡ []))
      ⊎ ((is_dropped f msg ≡ false)
          × (m : NetworkMessage) × Resembles m msg
          × (tamper sha256 f msg ≡ m ∷ []))
unfolding tamper is_dropped
tamper-cases sha256 f msg = elim (Option-cases (Map.get msg.from f.byzantine_nodes)) [
  | inl e ↦ inr (ground arith, msg, record { from = refl; to = refl; phase = refl }, ground arith)
  | inr (bs, e) ↦ elim (apply_behaviors-cases sha256 bs msg) [
    | inl (drop, e') ↦ inl (ground arith, ground arith)
    | inr (keep, m, r, e') ↦ inr (ground arith, m, r, ground arith)
  ]
]
