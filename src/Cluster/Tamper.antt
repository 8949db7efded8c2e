-- ===== src/Cluster/Tamper.antt =====
-- src/cluster/fault.rs: what a Byzantine node makes of the messages that it sends.
pub mod Drops
pub mod Equivocation
use Prim.Native.Nat.{bit_xor}
use bft_consensus_bench.Base.{
  ℕ, ◌%◌, Bool, true, false, ◌&&◌, ◌||◌, List, [], ◌∷◌, ◌++◌, Option, none, some, ◌==◌,
  if◌then◌else◌, map,
}
use bft_consensus_bench.Base.NodeSet
use bft_consensus_bench.Base.Map
use bft_consensus_bench.Base.Map.{Map}
use bft_consensus_bench.Types.{NodeId, Payload, Digest, Sha256, digest}
use bft_consensus_bench.Network.{
  NetworkMessage, ProtocolMessage, PbftMessage, RaftMessage, HotStuffMessage, LogEntry,
}
use bft_consensus_bench.Cluster.Fault.{
  MessagePhase, phase_index, has_phase, ByzantineBehavior, FaultConfig,
}

-- `bytes[0] ^= 0xFF`, on 32 bytes.
unfoldable pub flip_digest : Digest → Digest
flip_digest d = record { bytes = elim d.bytes [ [] ↦ [] | b ∷ bs ↦ bit_xor b 0xFF ∷ bs ] }

unfoldable pub corrupt_payload : ProtocolMessage → ProtocolMessage
unfolding flip_digest
corrupt_payload (ProtocolMessage.pbft (PbftMessage.pre_prepare v s d p)) =
    ProtocolMessage.pbft (PbftMessage.pre_prepare v s (flip_digest d) p)
corrupt_payload (ProtocolMessage.pbft (PbftMessage.prepare v s d r)) =
    ProtocolMessage.pbft (PbftMessage.prepare v s (flip_digest d) r)
corrupt_payload (ProtocolMessage.pbft (PbftMessage.commit v s d r)) =
    ProtocolMessage.pbft (PbftMessage.commit v s (flip_digest d) r)
corrupt_payload (ProtocolMessage.hotstuff (HotStuffMessage.propose v s d p jv jp)) =
    ProtocolMessage.hotstuff (HotStuffMessage.propose v s (flip_digest d) p jv jp)
corrupt_payload (ProtocolMessage.hotstuff (HotStuffMessage.vote v s d ph r)) =
    ProtocolMessage.hotstuff (HotStuffMessage.vote v s (flip_digest d) ph r)
corrupt_payload (ProtocolMessage.hotstuff (HotStuffMessage.quorum_certificate v s d ph c)) =
    ProtocolMessage.hotstuff (HotStuffMessage.quorum_certificate v s (flip_digest d) ph c)
corrupt_payload m = m

unfoldable pub corrupt : NetworkMessage → NetworkMessage
unfolding corrupt_payload
corrupt msg = record msg { payload = corrupt_payload msg.payload }

-- One more byte makes a different payload.
unfoldable pub alter : Payload → Payload
alter p = record { bytes = p.bytes ++ 0xFF ∷ [] }

unfoldable pub alter_entry : LogEntry → LogEntry
unfolding alter
alter_entry e = record e { payload = alter e.payload }

unfoldable pub alter_message : Sha256 → ProtocolMessage → ProtocolMessage
unfolding alter alter_entry
alter_message sha256 (ProtocolMessage.pbft (PbftMessage.pre_prepare v s d p)) =
    ProtocolMessage.pbft (PbftMessage.pre_prepare v s (digest sha256 (alter p)) (alter p))
alter_message sha256 (ProtocolMessage.raft (RaftMessage.append_entries t l pi pt es c)) =
    ProtocolMessage.raft (RaftMessage.append_entries t l pi pt (map alter_entry es) c)
alter_message sha256 (ProtocolMessage.hotstuff (HotStuffMessage.propose v s d p jv jp)) =
    ProtocolMessage.hotstuff (HotStuffMessage.propose v s (digest sha256 (alter p)) (alter p) jv jp)
alter_message sha256 m = m

unfoldable pub equivocate_message : Sha256 → NetworkMessage → List NetworkMessage
unfolding alter_message
equivocate_message sha256 msg =
    if msg.to % 2 == 0
    then msg ∷ []
    else record msg { payload = alter_message sha256 msg.payload } ∷ []

unfoldable pub message_phase : ProtocolMessage → Option MessagePhase
message_phase (ProtocolMessage.pbft (PbftMessage.pre_prepare v s d p)) =
    some MessagePhase.pbft_pre_prepare
message_phase (ProtocolMessage.pbft (PbftMessage.prepare v s d r)) = some MessagePhase.pbft_prepare
message_phase (ProtocolMessage.pbft (PbftMessage.commit v s d r)) = some MessagePhase.pbft_commit
message_phase (ProtocolMessage.raft (RaftMessage.append_entries t l pi pt es c)) =
    some MessagePhase.raft_append_entries
message_phase (ProtocolMessage.raft (RaftMessage.request_vote t c i lt)) =
    some MessagePhase.raft_request_vote
message_phase (ProtocolMessage.hotstuff (HotStuffMessage.propose v s d p jv jp)) =
    some MessagePhase.hotstuff_propose
message_phase (ProtocolMessage.hotstuff (HotStuffMessage.vote v s d ph r)) =
    some MessagePhase.hotstuff_vote
message_phase (ProtocolMessage.hotstuff (HotStuffMessage.quorum_certificate v s d ph c)) =
    some MessagePhase.hotstuff_qc
message_phase m = none

unfoldable pub matches_phase : NetworkMessage → List MessagePhase → Bool
unfolding message_phase
matches_phase msg phases = elim (message_phase msg.payload) [
  | none ↦ false
  | some p ↦ has_phase p phases
]

-- What one behavior makes of one message.
unfoldable pub misbehave : Sha256 → ByzantineBehavior → NetworkMessage → List NetworkMessage
unfolding corrupt equivocate_message matches_phase
misbehave sha256 ByzantineBehavior.corrupt_digest m = corrupt m ∷ []
misbehave sha256 ByzantineBehavior.equivocate m = equivocate_message sha256 m
misbehave sha256 (ByzantineBehavior.selective_drop phases) m =
    if matches_phase m phases then [] else m ∷ []

-- The inner loop of `tamper`: one behavior over the messages so far.
unfoldable pub misbehave_all :
    Sha256 → ByzantineBehavior → List NetworkMessage → List NetworkMessage
unfolding misbehave
misbehave_all sha256 b [] = []
misbehave_all sha256 b (m ∷ ms) = misbehave sha256 b m ++ misbehave_all sha256 b ms

-- The outer loop: the behaviors in turn.
unfoldable pub apply_behaviors :
    Sha256 → List ByzantineBehavior → List NetworkMessage → List NetworkMessage
unfolding misbehave_all
apply_behaviors sha256 [] ms = ms
apply_behaviors sha256 (b ∷ bs) ms = apply_behaviors sha256 bs (misbehave_all sha256 b ms)

unfoldable pub tamper :
    {Rng Rate : Type 0} → Sha256 → FaultConfig Rng Rate → NetworkMessage → List NetworkMessage
unfolding apply_behaviors
tamper sha256 f msg = elim (Map.get msg.from f.byzantine_nodes) [
  | none ↦ msg ∷ []
  | some behaviors ↦ apply_behaviors sha256 behaviors (msg ∷ [])
]
