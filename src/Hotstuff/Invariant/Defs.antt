-- ===== src/Hotstuff/Invariant/Defs.antt =====
-- What a HotStuff replica keeps true of its slots, its votes and its timer.
use bft_consensus_bench.Base.{◌≤◌, ◌≡◌, refl, false, Option, none, some, List, ◌==◌}
use bft_consensus_bench.Base.NodeSet
use bft_consensus_bench.Base.Map
use bft_consensus_bench.Base.Map.{Map}
use bft_consensus_bench.Types.{NodeId, ViewNumber, SequenceNumber, Payload}
use bft_consensus_bench.Hotstuff.State.{Phase, SlotState, HotStuffState, view_change_timeout_ticks}

abbrev pub Waits : Option Payload → Type 0
Waits found = (p : Payload) × (found ≡ some p)

-- A slot on its way is of the view, and its payload waits; a decided one has no payload left.
abbrev pub Supports : ViewNumber → Option Payload → SlotState → Phase → Type 0
Supports view found slot Phase.idle = ⊥
Supports view found slot Phase.prepare = (slot.view ≡ view) × Waits found
Supports view found slot Phase.pre_commit = (slot.view ≡ view) × Waits found
Supports view found slot Phase.commit = (slot.view ≡ view) × Waits found
Supports view found slot Phase.decided = found ≡ none

pub record SlotIsValid (view : ViewNumber) (pending : Map Payload) (seq : SequenceNumber)
    (slot : SlotState) : Type 0 where
  pub key : slot.sequence ≡ seq
  pub prepares : NodeSet.IsDistinct slot.prepare_voters
  pub precommits : NodeSet.IsDistinct slot.precommit_voters
  pub commits : NodeSet.IsDistinct slot.commit_voters
  pub supported : Supports view (Map.get seq pending) slot slot.phase

abbrev pub SlotsAreValid : HotStuffState → Type 0
SlotsAreValid s = Map.Each (SlotIsValid s.view s.pending_payloads) s.slots

pub record IsValid (s : HotStuffState) : Type 0 where
  pub slots : SlotsAreValid s
  pub votes :
      Map.Each
        (λ (view : ViewNumber) (votes : List NodeId). NodeSet.IsDistinct votes)
        s.new_view_messages
  pub views : s.current_view ≡ s.view
  pub timer : s.view_change_timeout ≤ view_change_timeout_ticks

-- A slot stays valid while its own payload does.
pub SlotIsValid-frame :
    (view : ViewNumber) (pending pending' : Map Payload) (seq : SequenceNumber) (slot : SlotState)
    → Map.get seq pending' ≡ Map.get seq pending
    → SlotIsValid view pending seq slot
    → SlotIsValid view pending' seq slot
SlotIsValid-frame view pending pending' seq slot e v = record {
  key = v.key;
  prepares = v.prepares;
  precommits = v.precommits;
  commits = v.commits;
  supported = rw e v.supported;
}

pub store_slot :
    (s : HotStuffState) (seq : SequenceNumber) (slot : SlotState) (pending : Map Payload)
    → SlotIsValid s.view pending seq slot
    → ((j : SequenceNumber) → (j == seq) ≡ false → Map.get j pending ≡ Map.get j s.pending_payloads)
    → SlotsAreValid s
    → Map.Each (SlotIsValid s.view pending) (Map.insert seq slot s.slots)
store_slot s seq slot pending fresh others v =
    Map.Each-insert _ _ seq slot s.slots fresh
      (λ j w ne. SlotIsValid-frame s.view s.pending_payloads pending j w (others j ne)) v

pub held_slot :
    (s : HotStuffState) (seq : SequenceNumber) (slot : SlotState)
    → IsValid s
    → Map.get seq s.slots ≡ some slot
    → SlotIsValid s.view s.pending_payloads seq slot
held_slot s seq slot v e = Map.Each-get _ seq s.slots v.slots e

-- A slot written over the one that the map holds, the payloads as they were.
pub rewrite_slot :
    (s : HotStuffState) (seq : SequenceNumber) (slot : SlotState)
    → SlotIsValid s.view s.pending_payloads seq slot
    → IsValid s
    → IsValid (record s { slots = Map.insert seq slot s.slots })
rewrite_slot s seq slot fresh v = record {
  slots = store_slot s seq slot s.pending_payloads fresh (λ j ne. refl) v.slots;
  votes = v.votes;
  views = v.views;
  timer = v.timer;
}
