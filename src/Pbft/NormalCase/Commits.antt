-- ===== src/Pbft/NormalCase/Commits.antt =====
-- Commit votes up to the quorum (src/consensus/pbft/state.rs).
use bft_consensus_bench.Base.{
  ◌≤◌, ◌<◌, ◌≡◌, refl, sym, ◌∙◌, subst, ◌⊎◌, inl, inr, true, false, ◌||◌, List, [], ◌∷◌, ◌++◌, some,
  arith, leb, ltb, if◌then◌else◌, length, Bool-cases,
}
use bft_consensus_bench.Base.NodeSet
use bft_consensus_bench.Base.Map
use bft_consensus_bench.Types.{NodeId, SequenceNumber, Payload, Digest}
use bft_consensus_bench.Network.{PbftMessage}
use bft_consensus_bench.Pbft.State.{
  Phase, is_prepared, is_pre_prepared, SlotState, PbftNode, PbftState, quorum,
}
use bft_consensus_bench.Pbft.Voting.{deliver, vote_commit, on_commit}
use bft_consensus_bench.Pbft.Node.{handle_pbft}
use bft_consensus_bench.Pbft.Calls.{handle_all}
use bft_consensus_bench.Pbft.NormalCase.Votes.{
  Vote, voters, commits, put_slot, entry, handle_all-cons, handle_all-nil,
}

commits_late :
    (n : PbftNode) (s : PbftState) (seq : SequenceNumber) (slot : SlotState) (vs : List Vote)
    → Map.get seq s.slots ≡ some slot
    → (is_prepared slot.phase || is_pre_prepared slot.phase) ≡ false
    → handle_all n s (commits s.view seq vs) ≡ s
unfolding on_commit vote_commit handle_pbft
commits_late n s seq slot [] held late = handle_all-nil n s
commits_late n s seq slot ((d, r) ∷ vs) held late =
    handle_all-cons n s s _ _ (ground arith) ∙ commits_late n s seq slot vs held late

abbrev pub commit_counted : SlotState → NodeId → SlotState
commit_counted slot r = record slot { commit_voters = NodeSet.insert r slot.commit_voters }

abbrev pub committed_state : PbftState → SequenceNumber → SlotState → NodeId → Payload → PbftState
committed_state s seq slot r p = record s {
  slots = Map.insert seq (record (commit_counted slot r) { phase = Phase.committed }) s.slots;
  highest_committed_seq = if ltb s.highest_committed_seq seq then seq else s.highest_committed_seq;
  pending_payloads = Map.remove seq s.pending_payloads;
  committed = s.committed ++ entry seq p ∷ [];
}

-- One commit vote on a slot that collects them.
commit_step :
    (n : PbftNode) (seq : SequenceNumber) (s : PbftState) (slot : SlotState) (p : Payload)
    (d : Digest) (r : NodeId)
    → Map.get seq s.slots ≡ some slot
    → (is_prepared slot.phase || is_pre_prepared slot.phase) ≡ true
    → Map.get seq s.pending_payloads ≡ some p
    → (handle_pbft n s (PbftMessage.commit s.view seq d r)).0 ≡ (
        if leb (quorum n) (length (NodeSet.insert r slot.commit_voters))
        then committed_state s seq slot r p
        else put_slot s seq (commit_counted slot r))
unfolding handle_pbft on_commit vote_commit deliver
commit_step n seq s slot p d r held fresh waits = rw (held, on_commit, handle_pbft) (ground arith)

pub record Delivered (seq : SequenceNumber) (p : Payload) (s t : PbftState) : Type 0 where
  pub out : t.committed ≡ s.committed ++ entry seq p ∷ []
  pub after : SlotState
  pub held : Map.get seq t.slots ≡ some after
  pub phase : after.phase ≡ Phase.committed

pub collect_commits :
    (n : PbftNode) (seq : SequenceNumber) (s : PbftState) (slot : SlotState) (p : Payload)
    (vs : List Vote)
    → Map.get seq s.slots ≡ some slot
    → (is_prepared slot.phase || is_pre_prepared slot.phase) ≡ true
    → Map.get seq s.pending_payloads ≡ some p
    → quorum n ≤ length (NodeSet.insert_all (voters vs) slot.commit_voters)
    → (length slot.commit_voters < quorum n) ⊎ (0 < length vs)
    → Delivered seq p s (handle_all n s (commits s.view seq vs))
unfolding NodeSet.insert_all
collect_commits n seq s slot p [] held fresh waits enough more = absurd (ground arith)
collect_commits n seq s slot p ((d, r) ∷ vs) held fresh waits enough more =
    let rest = commits s.view seq vs in
    let m = PbftMessage.commit s.view seq d r in
    let step = commit_step n seq s slot p d r held fresh waits in
    elim (Bool-cases (leb (quorum n) (length (NodeSet.insert r slot.commit_voters)))) [
      | inl reached ↦
          let next = committed_state s seq slot r p in
          let closed = record (commit_counted slot r) { phase = Phase.committed } in
          let path : handle_all n s (m ∷ rest) ≡ next =
            handle_all-cons n s next m rest (rw reached at step)
            ∙ commits_late n next seq closed vs (Map.get-insert_self seq _ s.slots) refl in
          subst (Delivered seq p s) (sym path) (record {
            out = refl;
            after = closed;
            held = Map.get-insert_self seq _ s.slots;
            phase = refl;
          })
      | inr short ↦
          let next = put_slot s seq (commit_counted slot r) in
          let later =
            collect_commits n seq next (commit_counted slot r) p vs
              (Map.get-insert_self seq _ s.slots) fresh waits enough (inl (ground arith)) in
          subst (Delivered seq p s) (sym (handle_all-cons n s next m rest (rw short at step)))
            (record {
              out = later.out;
              after = later.after;
              held = later.held;
              phase = later.phase;
            })
    ]
