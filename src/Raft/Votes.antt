-- ===== src/Raft/Votes.antt =====
-- src/consensus/raft/state.rs: terms and votes over runs of a node.
pub mod Methods
use bft_consensus_bench.Base.{
  ℕ, ◌+◌, ◌≤◌, ◌<◌, ◌≡◌, refl, ◌∙◌, sym, subst, Bool, true, none, some, List, [], ◌∷◌, arith,
  u64_mod, inl, inr, Option-cases,
}
use bft_consensus_bench.Types.{NodeId, Payload}
use bft_consensus_bench.Network.{NetworkMessage, ProtocolMessage, RaftMessage, LogEntry}
use bft_consensus_bench.Consensus.{msg_to}
use bft_consensus_bench.Raft.State.{
  RaftNode, RaftState, GenRange, send, reset_election_timeout, init_indices,
}
use bft_consensus_bench.Raft.Election.{
  see_term, grants, on_request_vote, win_election, on_request_vote_response, start_election,
  tick_leader, tick_other, tick,
}
use bft_consensus_bench.Raft.Replication.{
  propose, append_proposal, follow, commit_to, advance_follower, accept_entries, on_append_entries,
  on_success, advance_leader, back_off, on_append_entries_response,
}
use bft_consensus_bench.Raft.Node.{handle_raft, handle_message}
use bft_consensus_bench.Raft.Calls.{Call, proposes, receives, ticks, polls, after, run}
use bft_consensus_bench.Raft.Votes.Methods.{
  KeepsVote, KeepsVote-refl, KeepsVote-trans, on_request_vote-KeepsVote, after-KeepsVote,
}

module _ {Rng : Type 0} where
  module _ (gen_range : GenRange Rng) (n : RaftNode) where
    -- No call of the run starts at the last term, 2 ^ 64 - 1, from which the next would wrap.
    abbrev pub NoWrap : RaftState Rng → List Call → Type 0
    NoWrap s [] = Unit
    NoWrap s (c ∷ calls) =
        (s.current_term + 1 < u64_mod)
        × (elim (after gen_range n s c) [ none ↦ Unit | some t ↦ NoWrap t calls ])

    run-cons :
        (s t u : RaftState Rng) (c : Call) (calls : List Call)
        → after gen_range n s c ≡ some t
        → run gen_range n s (c ∷ calls) ≡ some u
        → run gen_range n t calls ≡ some u
    unfolding run
    run-cons s t u c calls e h = rw e at h

    run-panic :
        (s u : RaftState Rng) (c : Call) (calls : List Call)
        → after gen_range n s c ≡ none
        → run gen_range n s (c ∷ calls) ≡ some u
        → ⊥
    unfolding run
    run-panic s u c calls e h = let bad : none ≡ some u = rw e at h in cc

    run-nil : (s t : RaftState Rng) → run gen_range n s [] ≡ some t → s ≡ t
    unfolding run
    run-nil s t h = cc

    -- Over any run the term does not fall, and within one term a vote stands.
    run-KeepsVote :
        (s t : RaftState Rng) (calls : List Call)
        → NoWrap s calls
        → run gen_range n s calls ≡ some t
        → KeepsVote s t
    run-KeepsVote s t [] small h = subst (KeepsVote s) (run-nil s t h) (KeepsVote-refl s)
    run-KeepsVote s t (c ∷ calls) small h = elim (Option-cases (after gen_range n s c)) [
      | inl e ↦ absurd (run-panic s t c calls e h)
      | inr (u, e) ↦
          let later : NoWrap u calls = rw e at small.1 in
          KeepsVote-trans s u t (after-KeepsVote gen_range n s u c small.0 e)
            (run-KeepsVote u t calls later (run-cons s u t c calls e h))
    ]

    -- The answer to a vote request, granted in the term that the node is then in.
    abbrev pub Grants : RaftState Rng → NodeId → ℕ → NodeId → ℕ → ℕ → Type 0
    Grants s from term candidate index last_term =
        let r = on_request_vote gen_range n s from term candidate index last_term in
        r.1 ≡ send n from (RaftMessage.request_vote_response r.0.current_term true) ∷ []

    pub granted_vote :
        (s : RaftState Rng) (from : NodeId) (term : ℕ) (candidate : NodeId) (index last_term : ℕ)
        → Grants s from term candidate index last_term
        → (on_request_vote gen_range n s from term candidate index last_term).0.voted_for
          ≡ some candidate
    unfolding on_request_vote send msg_to reset_election_timeout
    granted_vote s from term candidate index last_term g = ground arith

    granted_again :
        (s : RaftState Rng) (from : NodeId) (term : ℕ) (candidate : NodeId) (index last_term : ℕ)
        (other : NodeId)
        → Grants s from term candidate index last_term
        → (on_request_vote gen_range n s from term candidate index last_term).0.current_term
          ≡ s.current_term
        → s.voted_for ≡ some other
        → other ≡ candidate
    unfolding on_request_vote send msg_to reset_election_timeout see_term grants
    granted_again s from term candidate index last_term other g same e = ground arith

    -- A node grants its vote to one candidate in a term: if it grants one request, and after any
    -- calls grants another while it is in the same term, both are for the same candidate. No call
    -- between them may start at the last term, which would wrap.
    pub one_vote_per_term :
        (s t : RaftState Rng) (calls : List Call) (from1 : NodeId) (term1 : ℕ) (candidate1 : NodeId)
        (index1 last1 : ℕ) (from2 : NodeId) (term2 : ℕ) (candidate2 : NodeId) (index2 last2 : ℕ)
        → Grants s from1 term1 candidate1 index1 last1
        → NoWrap (on_request_vote gen_range n s from1 term1 candidate1 index1 last1).0 calls
        → run gen_range n
            (on_request_vote gen_range n s from1 term1 candidate1 index1 last1).0
            calls
          ≡ some t
        → Grants t from2 term2 candidate2 index2 last2
        → (on_request_vote gen_range n t from2 term2 candidate2 index2 last2).0.current_term
          ≡ (on_request_vote gen_range n s from1 term1 candidate1 index1 last1).0.current_term
        → candidate1 ≡ candidate2
    one_vote_per_term s t calls f1 t1 c1 i1 l1 f2 t2 c2 i2 l2 g1 small h g2 same =
        let s1 = (on_request_vote gen_range n s f1 t1 c1 i1 l1).0 in
        let kept = run-KeepsVote s1 t calls small h in
        let second = on_request_vote-KeepsVote gen_range n t f2 t2 c2 i2 l2 in
        let term : t.current_term ≡ s1.current_term = omega (arith, kept.term, second.term, same) in
        granted_again t f2 t2 c2 i2 l2 c1 g2 (same ∙ sym term)
          (kept.vote c1 (granted_vote s f1 t1 c1 i1 l1 g1) term)
