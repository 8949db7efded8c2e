-- ===== src/Hotstuff/LeaderRounds/Slots.antt =====
-- The slot of a HotStuff leader, before and after a vote (src/consensus/hotstuff/state.rs).
use bft_consensus_bench.Base.{
  ◌≡◌, refl, Bool, true, false, List, [], ◌∷◌, arith, leb, if◌then◌else◌, length,
}
use bft_consensus_bench.Base.NodeSet
use bft_consensus_bench.Types.{NodeId, ViewNumber, SequenceNumber, Digest}
use bft_consensus_bench.Network.{HotStuffMessage, HotStuffPhaseTag}
use bft_consensus_bench.Hotstuff.State.{Phase, SlotState, HotStuffNode, quorum}
use bft_consensus_bench.Hotstuff.Voting.{ignored, counted, formed, count_vote}
use bft_consensus_bench.Hotstuff.Certificates.{voters_of, in_phase}

-- A vote as its sender makes it: a digest, and the voter's name.
abbrev pub Vote : Type 0
Vote = Digest × NodeId

abbrev pub voters : List Vote → List NodeId
voters [] = []
voters ((d, r) ∷ vs) = r ∷ voters vs

abbrev pub votes : ViewNumber → SequenceNumber → HotStuffPhaseTag → List Vote → List HotStuffMessage
votes view seq tag [] = []
votes view seq tag ((d, r) ∷ vs) = HotStuffMessage.vote view seq d tag r ∷ votes view seq tag vs

-- The slot with other voters in a phase, and the slot that moves on from the phase.
abbrev pub counted_slot : SlotState → HotStuffPhaseTag → List NodeId → SlotState
counted_slot slot HotStuffPhaseTag.prepare vs = record slot { prepare_voters = vs }
counted_slot slot HotStuffPhaseTag.pre_commit vs = record slot { precommit_voters = vs }
counted_slot slot HotStuffPhaseTag.commit vs = record slot { commit_voters = vs }

abbrev pub next_slot : HotStuffNode → SlotState → HotStuffPhaseTag → List NodeId → SlotState
next_slot n slot HotStuffPhaseTag.prepare vs = record slot {
  phase = Phase.pre_commit;
  prepare_voters = vs;
  precommit_voters = NodeSet.insert n.id slot.precommit_voters;
}
next_slot n slot HotStuffPhaseTag.pre_commit vs = record slot {
  phase = Phase.commit;
  precommit_voters = vs;
  commit_voters = NodeSet.insert n.id slot.commit_voters;
}
next_slot n slot HotStuffPhaseTag.commit vs = record slot {
  phase = Phase.decided;
  commit_voters = vs;
}

abbrev pub is_commit_tag : HotStuffPhaseTag → Bool
is_commit_tag HotStuffPhaseTag.commit = true
is_commit_tag _ = false

pub count_vote-in_phase :
    (n : HotStuffNode) (slot : SlotState) (tag : HotStuffPhaseTag) (voter : NodeId)
    → in_phase slot tag ≡ true
    → let vs = NodeSet.insert voter (voters_of slot tag) in
      count_vote n slot tag voter ≡ (
        if leb (quorum n) (length vs)
        then formed (next_slot n slot tag vs) tag (length vs) (is_commit_tag tag)
        else counted (counted_slot slot tag vs))
unfolding count_vote
count_vote-in_phase n slot HotStuffPhaseTag.prepare voter h = ground arith
count_vote-in_phase n slot HotStuffPhaseTag.pre_commit voter h = ground arith
count_vote-in_phase n slot HotStuffPhaseTag.commit voter h = ground arith

pub count_vote-ignored :
    (n : HotStuffNode) (slot : SlotState) (tag : HotStuffPhaseTag) (voter : NodeId)
    → in_phase slot tag ≡ false
    → count_vote n slot tag voter ≡ ignored
unfolding count_vote
count_vote-ignored n slot HotStuffPhaseTag.prepare voter h = ground arith
count_vote-ignored n slot HotStuffPhaseTag.pre_commit voter h = ground arith
count_vote-ignored n slot HotStuffPhaseTag.commit voter h = ground arith

pub counted_slot-in_phase :
    (slot : SlotState) (tag : HotStuffPhaseTag) (vs : List NodeId)
    → in_phase (counted_slot slot tag vs) tag ≡ in_phase slot tag
counted_slot-in_phase slot HotStuffPhaseTag.prepare vs = refl
counted_slot-in_phase slot HotStuffPhaseTag.pre_commit vs = refl
counted_slot-in_phase slot HotStuffPhaseTag.commit vs = refl

pub counted_slot-voters :
    (slot : SlotState) (tag : HotStuffPhaseTag) (vs : List NodeId)
    → voters_of (counted_slot slot tag vs) tag ≡ vs
counted_slot-voters slot HotStuffPhaseTag.prepare vs = refl
counted_slot-voters slot HotStuffPhaseTag.pre_commit vs = refl
counted_slot-voters slot HotStuffPhaseTag.commit vs = refl

pub next_slot-counted :
    (n : HotStuffNode) (slot : SlotState) (tag : HotStuffPhaseTag) (us vs : List NodeId)
    → next_slot n (counted_slot slot tag us) tag vs ≡ next_slot n slot tag vs
next_slot-counted n slot HotStuffPhaseTag.prepare us vs = refl
next_slot-counted n slot HotStuffPhaseTag.pre_commit us vs = refl
next_slot-counted n slot HotStuffPhaseTag.commit us vs = refl

pub next_slot-leaves_phase :
    (n : HotStuffNode) (slot : SlotState) (tag : HotStuffPhaseTag) (vs : List NodeId)
    → in_phase (next_slot n slot tag vs) tag ≡ false
next_slot-leaves_phase n slot HotStuffPhaseTag.prepare vs = refl
next_slot-leaves_phase n slot HotStuffPhaseTag.pre_commit vs = refl
next_slot-leaves_phase n slot HotStuffPhaseTag.commit vs = refl
