-- ===== src/Pbft/Invariant/Defs.antt =====
-- What a PBFT replica keeps true of its slots, its votes and its timer.
use bft_consensus_bench.Base.{◌≤◌, ◌≡◌, true, some, List, arith, length}
use bft_consensus_bench.Base.NodeSet
use bft_consensus_bench.Base.Map
use bft_consensus_bench.Base.Map.{Map}
use bft_consensus_bench.Types.{NodeId, ViewNumber, SequenceNumber, Payload}
use bft_consensus_bench.Pbft.State.{
  Phase, SlotState, PbftNode, PbftState, quorum, prepare_threshold, view_change_timeout_ticks,
}

-- A slot that is not committed is of the view, and its payload waits.
abbrev pub IsOpen : ViewNumber → Map Payload → SequenceNumber → SlotState → Type 0
IsOpen view pending seq slot = (slot.view ≡ view) × ((p : Payload) × (Map.get seq pending ≡ some p))

-- The votes that each phase rests on.
abbrev pub Supports :
    PbftNode
    → ViewNumber
    → Map Payload
    → SequenceNumber
    → SequenceNumber
    → SlotState
    → Phase
    → Type 0
Supports n view pending highest seq slot Phase.idle = ⊥
Supports n view pending highest seq slot Phase.pre_prepared = IsOpen view pending seq slot
Supports n view pending highest seq slot Phase.prepared =
    IsOpen view pending seq slot
    × ((prepare_threshold n ≤ length slot.prepare_voters)
        × (NodeSet.contains n.id slot.commit_voters ≡ true))
Supports n view pending highest seq slot Phase.committed =
    (quorum n ≤ length slot.commit_voters) × (seq ≤ highest)

pub record SlotIsValid (n : PbftNode) (view : ViewNumber) (pending : Map Payload)
    (highest seq : SequenceNumber) (slot : SlotState) : Type 0 where
  pub key : slot.sequence ≡ seq
  pub prepares : NodeSet.IsDistinct slot.prepare_voters
  pub commits : NodeSet.IsDistinct slot.commit_voters
  pub supported : Supports n view pending highest seq slot slot.phase

abbrev pub SlotsAreValid : PbftNode → PbftState → Type 0
SlotsAreValid n s =
    Map.Each (SlotIsValid n s.view s.pending_payloads s.highest_committed_seq) s.slots

abbrev pub VotesAreDistinct : PbftState → Type 0
VotesAreDistinct s =
    Map.Each (λ (view : ViewNumber) (votes : List NodeId). NodeSet.IsDistinct votes)
      s.view_change_votes

pub record IsValid (n : PbftNode) (s : PbftState) : Type 0 where
  pub slots : SlotsAreValid n s
  pub votes : VotesAreDistinct s
  pub views : s.current_view ≡ s.view
  pub timer : s.view_change_timeout ≤ view_change_timeout_ticks

Supports-frame :
    (n : PbftNode) (view : ViewNumber) (pending pending' : Map Payload)
    (highest highest' seq : SequenceNumber) (slot : SlotState) (phase : Phase)
    → Map.get seq pending' ≡ Map.get seq pending
    → highest ≤ highest'
    → Supports n view pending highest seq slot phase
    → Supports n view pending' highest' seq slot phase
Supports-frame n view pending pending' highest highest' seq slot Phase.idle e h p = p
Supports-frame n view pending pending' highest highest' seq slot Phase.pre_prepared e h p = rw e p
Supports-frame n view pending pending' highest highest' seq slot Phase.prepared e h p = rw e p
Supports-frame n view pending pending' highest highest' seq slot Phase.committed e h p =
    (p.0, omega arith)

-- A slot stays valid while its own payload waits on, and the highest commit only rises.
pub SlotIsValid-frame :
    (n : PbftNode) (view : ViewNumber) (pending pending' : Map Payload)
    (highest highest' seq : SequenceNumber) (slot : SlotState)
    → Map.get seq pending' ≡ Map.get seq pending
    → highest ≤ highest'
    → SlotIsValid n view pending highest seq slot
    → SlotIsValid n view pending' highest' seq slot
SlotIsValid-frame n view pending pending' highest highest' seq slot e h v = record {
  key = v.key;
  prepares = v.prepares;
  commits = v.commits;
  supported =
      Supports-frame n view pending pending' highest highest' seq slot slot.phase e h v.supported;
}

-- A call that returns a well-formed state.
abbrev pub Keeps : {A : Type 0} → PbftNode → PbftState × A → Type 0
Keeps n r = IsValid n r.0
