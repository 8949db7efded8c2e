-- ===== src/Pbft/NormalCase.antt =====
-- The normal case of PBFT: from a pre-prepare to the commit (src/consensus/pbft/state.rs).
pub mod Votes
mod Prepares
mod Commits
use bft_consensus_bench.Base.{
  ℕ, ◌+◌, ◌*◌, ◌≤◌, ◌<◌, ◌≡◌, refl, sym, ap, ◌∙◌, subst, ◌⊎◌, inl, inr, Bool, true, false, not,
  ◌&&◌, ◌||◌, List, [], ◌∷◌, ◌++◌, map, none, some, arith, leb, ltb, ◌==◌, if◌then◌else◌, length,
  Option-cases, Bool-cases,
}
use bft_consensus_bench.Base.NodeSet
use bft_consensus_bench.Base.Map
use bft_consensus_bench.Types.{NodeId, ViewNumber, SequenceNumber, Payload, Digest}
use bft_consensus_bench.Network.{PbftMessage}
use bft_consensus_bench.Consensus.{CommittedEntry}
use bft_consensus_bench.Pbft.State.{
  Phase, is_prepared, is_pre_prepared, is_committed, SlotState, PbftNode, PbftState, quorum,
  prepare_threshold, new_slot, view_change_timeout_ticks,
}
use bft_consensus_bench.Pbft.Voting.{
  open_slot, on_pre_prepare, vote_prepare, on_prepare, deliver, vote_commit, on_commit,
}
use bft_consensus_bench.Pbft.Node.{handle_pbft}
use bft_consensus_bench.Pbft.Calls.{handle_all}
use bft_consensus_bench.Pbft.NormalCase.Votes.{
  Vote, voters, prepares, commits, put_slot, entry, handle_all-append, handle_all-cons,
  handle_all-nil,
}
use bft_consensus_bench.Pbft.NormalCase.Prepares.{Prepared, collect_prepares}
use bft_consensus_bench.Pbft.NormalCase.Commits.{Delivered, collect_commits}

abbrev fresh_slot : ViewNumber → SequenceNumber → SlotState
fresh_slot view seq = record {
  view = view;
  sequence = seq;
  phase = Phase.pre_prepared;
  prepare_voters = [];
  commit_voters = [];
}

abbrev opened : PbftState → SequenceNumber → Payload → PbftState
opened s seq p = record s {
  primary_active = true;
  view_change_timeout = view_change_timeout_ticks;
  slots = Map.insert seq (fresh_slot s.view seq) s.slots;
  pending_payloads = Map.insert seq p s.pending_payloads;
}

pre_prepare_step :
    (n : PbftNode) (s : PbftState) (seq : SequenceNumber) (d : Digest) (p : Payload)
    → s.view_change_in_progress ≡ false
    → (handle_pbft n s (PbftMessage.pre_prepare s.view seq d p)).0 ≡ opened s seq p
unfolding handle_pbft on_pre_prepare open_slot new_slot
pre_prepare_step n s seq d p calm = ground arith

-- The commit votes, on what the prepare votes have left.
finish :
    (n : PbftNode) (seq : SequenceNumber) (s t : PbftState) (slot : SlotState) (p : Payload)
    (vs : List Vote)
    → slot.commit_voters ≡ []
    → Map.get seq s.pending_payloads ≡ some p
    → Prepared n seq s t slot
    → 0 < length vs
    → quorum n ≤ length (NodeSet.insert_all (voters vs) (n.id ∷ []))
    → (handle_all n t (commits s.view seq vs)).committed ≡ s.committed ++ entry seq p ∷ []
finish n seq s t slot p vs none_yet waits prep some_commit full =
    let own : prep.after.commit_voters ≡ n.id ∷ [] =
      prep.own_vote ∙ ap (NodeSet.insert n.id) none_yet ∙ (unfold NodeSet.insert in refl) in
    let delivered =
      collect_commits n seq t prep.after p vs prep.held (rw prep.phase refl) (rw prep.pending waits)
        (rw own full) (inr some_commit) in
    subst (λ v. (handle_all n t (commits v seq vs)).committed ≡ s.committed ++ entry seq p ∷ [])
      prep.view (delivered.out ∙ ap (λ c. c ++ entry seq p ∷ []) prep.committed)

-- A replica that is in the view, and in no view change, commits the payload of a pre-prepare, and
-- nothing else, once it has received the pre-prepare, then prepare votes of enough distinct
-- replicas, then commit votes that with its own make a quorum of distinct replicas. The digests
-- that the messages carry play no part.
pub normal_case :
    (n : PbftNode) (s : PbftState) (seq : SequenceNumber) (d : Digest) (p : Payload)
    (prepare_votes commit_votes : List Vote)
    → s.view_change_in_progress ≡ false
    → 0 < length prepare_votes
    → prepare_threshold n ≤ length (NodeSet.insert_all (voters prepare_votes) [])
    → 0 < length commit_votes
    → quorum n ≤ length (NodeSet.insert_all (voters commit_votes) (n.id ∷ []))
    → (handle_all n s (
        PbftMessage.pre_prepare s.view seq d p
        ∷ (prepares s.view seq prepare_votes ++ commits s.view seq commit_votes))).committed
      ≡ s.committed ++ entry seq p ∷ []
normal_case n s seq d p prepare_votes commit_votes calm some_prepare enough some_commit full =
    let start = opened s seq p in
    let before = prepares s.view seq prepare_votes in
    let later = commits s.view seq commit_votes in
    let prep =
      collect_prepares n seq start (fresh_slot s.view seq) prepare_votes
        (Map.get-insert_self seq _ s.slots) refl enough (inr some_prepare) in
    let path : handle_all n s (PbftMessage.pre_prepare s.view seq d p ∷ (before ++ later))
        ≡ handle_all n (handle_all n start before) later =
      handle_all-cons n s start _ (before ++ later) (pre_prepare_step n s seq d p calm)
      ∙ handle_all-append n start before later in
    ap (λ t. t.committed) path
    ∙ finish n seq start (handle_all n start before) (fresh_slot s.view seq) p commit_votes refl
        (Map.get-insert_self seq p s.pending_payloads) prep some_commit full
