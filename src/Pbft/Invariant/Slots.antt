-- ===== src/Pbft/Invariant/Slots.antt =====
-- What a PBFT replica needs to stay well formed when one of its slots is written.
use bft_consensus_bench.Base.{◌≤◌, ◌≡◌, refl, false, List, some, arith, ◌==◌}
use bft_consensus_bench.Base.Map
use bft_consensus_bench.Base.Map.{Map}
use bft_consensus_bench.Types.{SequenceNumber, Payload}
use bft_consensus_bench.Consensus.{CommittedEntry}
use bft_consensus_bench.Pbft.State.{SlotState, PbftNode, PbftState}
use bft_consensus_bench.Pbft.Invariant.Defs.{SlotIsValid, SlotsAreValid, IsValid, SlotIsValid-frame}

-- A slot is written; every other slot keeps its payload.
pub store_slot :
    (n : PbftNode) (s : PbftState) (seq : SequenceNumber) (slot : SlotState) (pending : Map Payload)
    (highest : SequenceNumber)
    → SlotIsValid n s.view pending highest seq slot
    → ((j : SequenceNumber) → (j == seq) ≡ false → Map.get j pending ≡ Map.get j s.pending_payloads)
    → s.highest_committed_seq ≤ highest
    → SlotsAreValid n s
    → Map.Each (SlotIsValid n s.view pending highest) (Map.insert seq slot s.slots)
store_slot n s seq slot pending highest fresh others le v =
    Map.Each-insert _ _ seq slot s.slots fresh
      (λ j w ne.
        SlotIsValid-frame n s.view s.pending_payloads pending s.highest_committed_seq highest j w
          (others j ne) le)
      v

-- A slot written over the one that the map holds, the payloads as they were.
pub rewrite_slot :
    (n : PbftNode) (s : PbftState) (seq : SequenceNumber) (slot : SlotState)
    → SlotIsValid n s.view s.pending_payloads s.highest_committed_seq seq slot
    → IsValid n s
    → IsValid n (record s { slots = Map.insert seq slot s.slots })
rewrite_slot n s seq slot fresh v = record {
  slots =
      store_slot n s seq slot s.pending_payloads s.highest_committed_seq fresh (λ j ne. refl)
        (omega arith) v.slots;
  votes = v.votes;
  views = v.views;
  timer = v.timer;
}

-- The slot that the map holds is valid.
pub held_slot :
    (n : PbftNode) (s : PbftState) (seq : SequenceNumber) (slot : SlotState)
    → IsValid n s
    → Map.get seq s.slots ≡ some slot
    → SlotIsValid n s.view s.pending_payloads s.highest_committed_seq seq slot
held_slot n s seq slot v e = Map.Each-get _ seq s.slots v.slots e

-- A commit raises the highest sequence, and takes the payload of its own slot.
pub commit_slot-IsValid :
    (n : PbftNode) (s : PbftState) (seq : SequenceNumber) (slot : SlotState) (pending : Map Payload)
    (highest : SequenceNumber) (entries : List CommittedEntry)
    → SlotIsValid n s.view pending highest seq slot
    → ((j : SequenceNumber) → (j == seq) ≡ false → Map.get j pending ≡ Map.get j s.pending_payloads)
    → s.highest_committed_seq ≤ highest
    → IsValid n s
    → IsValid n (record s {
      slots = Map.insert seq slot s.slots;
      pending_payloads = pending;
      committed = entries;
      highest_committed_seq = highest;
    })
commit_slot-IsValid n s seq slot pending highest entries fresh others le v = record {
  slots = store_slot n s seq slot pending highest fresh others le v.slots;
  votes = v.votes;
  views = v.views;
  timer = v.timer;
}
