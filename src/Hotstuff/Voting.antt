-- ===== src/Hotstuff/Voting.antt =====
-- src/consensus/hotstuff/state.rs: votes and quorum certificates.
use bft_consensus_bench.Base.{
  ℕ, Bool, true, false, not, ◌&&◌, ◌||◌, List, [], ◌∷◌, ◌++◌, none, some, ltb, leb, ◌==◌,
  if◌then◌else◌, length,
}
use bft_consensus_bench.Base.NodeSet
use bft_consensus_bench.Base.Map
use bft_consensus_bench.Types.{NodeId, ViewNumber, SequenceNumber, Digest}
use bft_consensus_bench.Network.{NetworkMessage, HotStuffMessage, HotStuffPhaseTag}
use bft_consensus_bench.Hotstuff.State.{
  Phase, is_prepare, is_pre_commit, is_commit, is_decided, SlotState, HotStuffNode, HotStuffState,
  leader_for_view, quorum, broadcast_hotstuff, phase_ord,
}
use bft_consensus_bench.Hotstuff.Proposals.{send_vote}

-- What a vote does to its slot: nothing, one more voter, or a certificate of that many votes,
-- which commits in the last phase.
pub data VoteOutcome : Type 0 where
  ignored : VoteOutcome
  counted : SlotState → VoteOutcome
  formed :
      SlotState → (qc_phase : HotStuffPhaseTag) (vote_count : ℕ) (do_commit : Bool) → VoteOutcome

unfoldable pub count_vote : HotStuffNode → SlotState → HotStuffPhaseTag → NodeId → VoteOutcome
count_vote n slot HotStuffPhaseTag.prepare voter =
    let voters = NodeSet.insert voter slot.prepare_voters in
    if not (is_prepare slot.phase)
    then ignored
    else if leb (quorum n) (length voters)
    then formed
        (record slot {
          phase = Phase.pre_commit;
          prepare_voters = voters;
          precommit_voters = NodeSet.insert n.id slot.precommit_voters;
        })
        HotStuffPhaseTag.prepare (length voters) false
    else counted (record slot { prepare_voters = voters })
count_vote n slot HotStuffPhaseTag.pre_commit voter =
    let voters = NodeSet.insert voter slot.precommit_voters in
    if not (is_pre_commit slot.phase)
    then ignored
    else if leb (quorum n) (length voters)
    then formed
        (record slot {
          phase = Phase.commit;
          precommit_voters = voters;
          commit_voters = NodeSet.insert n.id slot.commit_voters;
        })
        HotStuffPhaseTag.pre_commit (length voters) false
    else counted (record slot { precommit_voters = voters })
count_vote n slot HotStuffPhaseTag.commit voter =
    let voters = NodeSet.insert voter slot.commit_voters in
    if not (is_commit slot.phase)
    then ignored
    else if leb (quorum n) (length voters)
    then formed (record slot { phase = Phase.decided; commit_voters = voters })
        HotStuffPhaseTag.commit (length voters) true
    else counted (record slot { commit_voters = voters })

-- `pending_payloads.remove(&sequence)`, and the entry that it lets out.
unfoldable pub deliver : HotStuffState → SequenceNumber → HotStuffState
deliver s sequence = elim (Map.get sequence s.pending_payloads) [
  | none ↦ s
  | some payload ↦ record s {
    pending_payloads = Map.remove sequence s.pending_payloads;
    committed = s.committed ++ record { sequence = sequence; payload = payload } ∷ [];
  }
]

unfoldable pub apply_vote :
    HotStuffNode
    → HotStuffState
    → ViewNumber
    → SequenceNumber
    → Digest
    → VoteOutcome
    → HotStuffState × List NetworkMessage
unfolding deliver
apply_vote n s view sequence d ignored = (s, [])
apply_vote n s view sequence d (counted slot) =
    (record s { slots = Map.insert sequence slot s.slots }, [])
apply_vote n s view sequence d (formed slot qc_phase vote_count do_commit) =
    let t = record s {
      slots = Map.insert sequence slot s.slots;
      highest_qc_view = view;
      highest_qc_phase = qc_phase;
    } in
    (
      if do_commit then deliver t sequence else t,
      broadcast_hotstuff n (HotStuffMessage.quorum_certificate view sequence d qc_phase vote_count),
    )

unfoldable pub on_vote :
    HotStuffNode
    → HotStuffState
    → ViewNumber
    → SequenceNumber
    → Digest
    → HotStuffPhaseTag
    → NodeId
    → HotStuffState × List NetworkMessage
unfolding count_vote apply_vote
on_vote n s view sequence d phase voter =
    if not (leader_for_view n view == n.id)
    then (s, [])
    else if not (view == s.view)
    then (s, [])
    else elim (Map.get sequence s.slots) [
      | none ↦ (s, [])
      | some slot ↦ apply_vote n s view sequence d (count_vote n slot phase voter)
    ]

unfoldable pub track_qc : HotStuffState → ViewNumber → HotStuffPhaseTag → HotStuffState
unfolding phase_ord
track_qc s view phase =
    if ltb s.highest_qc_view view
      || (view == s.highest_qc_view && ltb (phase_ord s.highest_qc_phase) (phase_ord phase))
    then record s { highest_qc_view = view; highest_qc_phase = phase }
    else s

-- The slot, if there is one, moves on from the phase that is certified.
unfoldable pub advance_slot :
    HotStuffState → SequenceNumber → (Phase → Bool) → Phase → HotStuffState
advance_slot s sequence is_from to = elim (Map.get sequence s.slots) [
  | none ↦ s
  | some slot ↦
      if is_from slot.phase
      then record s { slots = Map.insert sequence (record slot { phase = to }) s.slots }
      else s
]

unfoldable pub decide : HotStuffState → SequenceNumber → HotStuffState
unfolding deliver
decide s sequence = elim (Map.get sequence s.slots) [
  | none ↦ s
  | some slot ↦
      if not (is_decided slot.phase)
      then deliver
          (record s { slots = Map.insert sequence (record slot { phase = Phase.decided }) s.slots })
          sequence
      else s
]

unfoldable pub follow_qc :
    HotStuffNode
    → HotStuffState
    → ViewNumber
    → SequenceNumber
    → Digest
    → HotStuffPhaseTag
    → HotStuffState × List NetworkMessage
unfolding advance_slot decide send_vote
follow_qc n s view sequence d HotStuffPhaseTag.prepare = (
  advance_slot s sequence is_prepare Phase.pre_commit,
  send_vote n view sequence d HotStuffPhaseTag.pre_commit,
)
follow_qc n s view sequence d HotStuffPhaseTag.pre_commit = (
  advance_slot s sequence is_pre_commit Phase.commit,
  send_vote n view sequence d HotStuffPhaseTag.commit,
)
follow_qc n s view sequence d HotStuffPhaseTag.commit = (decide s sequence, [])

unfoldable pub on_quorum_certificate :
    HotStuffNode
    → HotStuffState
    → ViewNumber
    → SequenceNumber
    → Digest
    → HotStuffPhaseTag
    → ℕ
    → HotStuffState × List NetworkMessage
unfolding track_qc follow_qc
on_quorum_certificate n s view sequence d phase vote_count =
    let t = track_qc s view phase in
    if ltb vote_count (quorum n)
    then (s, [])
    else if not (view == t.view)
    then (t, [])
    else follow_qc n t view sequence d phase
