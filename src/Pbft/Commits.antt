-- ===== src/Pbft/Commits.antt =====
-- When a PBFT replica commits (src/consensus/pbft/state.rs).
use bft_consensus_bench.Base.{
  ◌≤◌, ◌≡◌, ◌⊎◌, inl, inr, true, ◌&&◌, ◌||◌, [], ◌∷◌, ◌++◌, none, some, arith, leb, ◌==◌, length,
  Option-cases, Bool-cases,
}
use bft_consensus_bench.Base.NodeSet
use bft_consensus_bench.Base.Map
use bft_consensus_bench.Types.{NodeId, SequenceNumber, Payload, Digest}
use bft_consensus_bench.Network.{PbftMessage}
use bft_consensus_bench.Pbft.State.{
  Phase, is_prepared, is_pre_prepared, SlotState, PbftNode, PbftState, quorum,
}
use bft_consensus_bench.Pbft.Voting.{on_pre_prepare, on_prepare, deliver, vote_commit, on_commit}
use bft_consensus_bench.Pbft.ViewChange.{on_view_change, on_new_view}
use bft_consensus_bench.Pbft.Node.{handle_pbft}

-- The one entry that a commit vote lets out: the waiting payload, when the vote completes a quorum
-- of distinct commit voters on the open slot of the current view.
pub record CommitsOne (n : PbftNode) (s t : PbftState) (view seq : SequenceNumber)
    (replica : NodeId) (slot : SlotState) (payload : Payload) : Type 0 where
  pub in_view : view ≡ s.view
  pub held : Map.get seq s.slots ≡ some slot
  pub open_phase : (is_prepared slot.phase || is_pre_prepared slot.phase) ≡ true
  pub voted : quorum n ≤ length (NodeSet.insert replica slot.commit_voters)
  pub waited : Map.get seq s.pending_payloads ≡ some payload
  pub entry : t.committed ≡ s.committed ++ record { sequence = seq; payload = payload } ∷ []
  pub closed :
      Map.get seq t.slots
      ≡ some (record slot {
        phase = Phase.committed;
        commit_voters = NodeSet.insert replica slot.commit_voters;
      })
  pub taken : Map.get seq t.pending_payloads ≡ none

abbrev pub Commits : PbftNode → PbftState → PbftState → PbftMessage → Type 0
Commits n s t (PbftMessage.commit view seq d replica) =
    (slot : SlotState) × (payload : Payload) × CommitsOne n s t view seq replica slot payload
Commits n s t _ = ⊥

vote_commit-commits :
    (n : PbftNode) (s : PbftState) (slot : SlotState) (seq : SequenceNumber) (replica : NodeId)
    → Map.get seq s.slots ≡ some slot
    → ((vote_commit n s slot seq replica).committed ≡ s.committed)
      ⊎ ((payload : Payload) × CommitsOne n s
            (vote_commit n s slot seq replica)
            s.view
            seq
            replica
            slot
            payload)
unfolding vote_commit deliver
vote_commit-commits n s slot seq replica held =
    let voters = NodeSet.insert replica slot.commit_voters in
    let decided = record slot { phase = Phase.committed; commit_voters = voters } in
    elim (Option-cases (Map.get seq s.pending_payloads)) [
      | inl e ↦ inl (ground arith)
      | inr (payload, e) ↦
          elim (Bool-cases (
            (is_prepared slot.phase || is_pre_prepared slot.phase)
            && leb (quorum n) (length (NodeSet.insert replica slot.commit_voters)))) [
              | inl ready ↦ inr (
                payload,
                ground (
                  arith,
                  Map.get-insert_self seq decided s.slots,
                  Map.get-remove seq seq s.pending_payloads,
                ),
              )
              | inr early ↦ inl (ground arith)
            ]
    ]

on_commit-Commits :
    (n : PbftNode) (s : PbftState) (view seq : SequenceNumber) (d : Digest) (replica : NodeId)
    → ((on_commit n s view seq d replica).0.committed ≡ s.committed)
      ⊎ Commits n s (on_commit n s view seq d replica).0 (PbftMessage.commit view seq d replica)
unfolding on_commit
on_commit-Commits n s view seq d replica = elim (Option-cases (Map.get seq s.slots)) [
  | inl e ↦ inl (ground arith)
  | inr (slot, e) ↦ elim (Bool-cases (view == s.view)) [
    | inl same ↦ elim (vote_commit-commits n s slot seq replica e) [
      | inl kept ↦ inl (ground arith)
      | inr (payload, c) ↦ inr (slot, payload, ground arith)
    ]
    | inr other ↦ inl (ground arith)
  ]
]

-- A message lets at most one entry out. It does so only as a commit vote of the current view that
-- completes, with its voter counted once, a quorum on the slot that the replica holds open; the
-- entry then has the payload that waited for the sequence, the slot is closed, and the payload is
-- gone. Any other message leaves the committed entries as they were.
pub handle_pbft-Commits :
    (n : PbftNode) (s : PbftState) (m : PbftMessage)
    → ((handle_pbft n s m).0.committed ≡ s.committed) ⊎ Commits n s (handle_pbft n s m).0 m
unfolding handle_pbft on_pre_prepare on_prepare on_view_change on_new_view
handle_pbft-Commits n s (PbftMessage.pre_prepare view seq d p) = inl (ground arith)
handle_pbft-Commits n s (PbftMessage.prepare view seq d replica) = inl (ground arith)
handle_pbft-Commits n s (PbftMessage.commit view seq d replica) =
    on_commit-Commits n s view seq d replica
handle_pbft-Commits n s (PbftMessage.view_change new_view replica last) = inl (ground arith)
handle_pbft-Commits n s (PbftMessage.new_view view next) = inl (ground arith)
