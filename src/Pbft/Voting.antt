-- ===== src/Pbft/Voting.antt =====
-- src/consensus/pbft/state.rs: proposals, and the handlers of pre-prepare, prepare and commit.
use bft_consensus_bench.Base.{
  true, not, ◌&&◌, ◌||◌, List, [], ◌∷◌, ◌++◌, none, some, ltb, leb, ◌==◌, if◌then◌else◌, add_u64,
  length,
}
use bft_consensus_bench.Base.NodeSet
use bft_consensus_bench.Base.Map
use bft_consensus_bench.Base.Map.{Map}
use bft_consensus_bench.Types.{NodeId, ViewNumber, SequenceNumber, Payload, Digest, Sha256, digest}
use bft_consensus_bench.Network.{NetworkMessage, PbftMessage}
use bft_consensus_bench.Consensus.{ProposeResult, accepted, not_leader}
use bft_consensus_bench.Pbft.State.{
  Phase, is_pre_prepared, is_prepared, is_committed, SlotState, new_slot, PbftNode, PbftState,
  view_change_timeout_ticks, primary_for_view, quorum, prepare_threshold, broadcast_pbft,
}

-- The slot that `propose` and a pre-prepare put in place of whatever the sequence had.
unfoldable pub open_slot : PbftState → ViewNumber → SequenceNumber → Payload → PbftState
unfolding new_slot
open_slot s view sequence payload = record s {
  slots =
      Map.insert sequence (record (new_slot view sequence) { phase = Phase.pre_prepared }) s.slots;
  pending_payloads = Map.insert sequence payload s.pending_payloads;
}

unfoldable pub assign_sequence :
    Sha256 → PbftNode → PbftState → Payload → PbftState × (ProposeResult × List NetworkMessage)
unfolding open_slot
assign_sequence sha256 n s payload =
    let seq = s.next_sequence in
    let d = digest sha256 payload in
    (
      open_slot (record s { next_sequence = add_u64 s.next_sequence 1 }) s.view seq payload,
      (
        accepted,
        broadcast_pbft n (PbftMessage.pre_prepare s.view seq d payload)
            ++ broadcast_pbft n (PbftMessage.prepare s.view seq d n.id),
      ),
    )

unfoldable pub propose :
    Sha256 → PbftNode → PbftState → Payload → PbftState × (ProposeResult × List NetworkMessage)
unfolding assign_sequence
propose sha256 n s payload =
    let primary = primary_for_view n s.view in
    if not (primary == n.id)
    then (s, (not_leader (some primary), []))
    else if s.view_change_in_progress
    then (s, (not_leader none, []))
    else assign_sequence sha256 n s payload

unfoldable pub on_pre_prepare :
    PbftNode
    → PbftState
    → ViewNumber
    → SequenceNumber
    → Digest
    → Payload
    → PbftState × List NetworkMessage
unfolding open_slot
on_pre_prepare n s view sequence d payload =
    if not (view == s.view) || s.view_change_in_progress then (s, []) else (
      open_slot
          (record s { primary_active = true; view_change_timeout = view_change_timeout_ticks }) view
          sequence payload,
      broadcast_pbft n (PbftMessage.prepare view sequence d n.id),
    )

-- A prepare vote on the slot that the map holds.
unfoldable pub vote_prepare :
    PbftNode
    → PbftState
    → SlotState
    → ViewNumber
    → SequenceNumber
    → Digest
    → NodeId
    → PbftState × List NetworkMessage
vote_prepare n s slot view sequence d replica =
    let voters = NodeSet.insert replica slot.prepare_voters in
    if is_pre_prepared slot.phase
    then (if leb (prepare_threshold n) (length voters)
        then (
          record s {
            slots =
                Map.insert sequence
                  (record slot {
                    phase = Phase.prepared;
                    prepare_voters = voters;
                    commit_voters = NodeSet.insert n.id slot.commit_voters;
                  })
                  s.slots;
          },
          broadcast_pbft n (PbftMessage.commit view sequence d n.id),
        )
        else (
          record s {
            slots = Map.insert sequence (record slot { prepare_voters = voters }) s.slots;
          },
          [],
        ))
    else (s, [])

unfoldable pub on_prepare :
    PbftNode
    → PbftState
    → ViewNumber
    → SequenceNumber
    → Digest
    → NodeId
    → PbftState × List NetworkMessage
unfolding vote_prepare
on_prepare n s view sequence d replica =
    if not (view == s.view) then (s, []) else elim (Map.get sequence s.slots) [
      | none ↦ (s, [])
      | some slot ↦ vote_prepare n s slot view sequence d replica
    ]

-- `pending_payloads.remove(&sequence)`, and the entry that it lets out.
unfoldable pub deliver : PbftState → SequenceNumber → PbftState
deliver s sequence = elim (Map.get sequence s.pending_payloads) [
  | none ↦ s
  | some payload ↦ record s {
    pending_payloads = Map.remove sequence s.pending_payloads;
    committed = s.committed ++ record { sequence = sequence; payload = payload } ∷ [];
  }
]

unfoldable pub vote_commit : PbftNode → PbftState → SlotState → SequenceNumber → NodeId → PbftState
unfolding deliver
vote_commit n s slot sequence replica =
    let voters = NodeSet.insert replica slot.commit_voters in
    if is_prepared slot.phase || is_pre_prepared slot.phase
    then (if leb (quorum n) (length voters) && not (is_committed slot.phase)
        then deliver
            (record s {
              slots =
                  Map.insert sequence
                    (record slot { phase = Phase.committed; commit_voters = voters }) s.slots;
              highest_committed_seq =
                  if ltb s.highest_committed_seq sequence
                  then sequence
                  else s.highest_committed_seq;
            })
            sequence
        else record s {
          slots = Map.insert sequence (record slot { commit_voters = voters }) s.slots;
        })
    else s

unfoldable pub on_commit :
    PbftNode
    → PbftState
    → ViewNumber
    → SequenceNumber
    → Digest
    → NodeId
    → PbftState × List NetworkMessage
unfolding vote_commit
on_commit n s view sequence d replica =
    if not (view == s.view) then (s, []) else elim (Map.get sequence s.slots) [
      | none ↦ (s, [])
      | some slot ↦ (vote_commit n s slot sequence replica, [])
    ]
