-- ===== src/Raft/Votes/Methods.antt =====
-- src/consensus/raft/state.rs: what each method leaves of the term and the vote.
use bft_consensus_bench.Base.{
  ℕ, ◌+◌, ◌≤◌, ◌<◌, ◌≡◌, refl, ◌∙◌, Bool, some, List, arith, u64_mod, inl, inr, Option-cases,
}
use bft_consensus_bench.Types.{NodeId, Payload}
use bft_consensus_bench.Network.{NetworkMessage, ProtocolMessage, RaftMessage, LogEntry}
use bft_consensus_bench.Raft.State.{
  RaftNode, RaftState, GenRange, reset_election_timeout, init_indices,
}
use bft_consensus_bench.Raft.Election.{
  see_term, grants, on_request_vote, win_election, on_request_vote_response, start_election,
  tick_leader, tick_other, tick,
}
use bft_consensus_bench.Raft.Replication.{
  propose, append_proposal, follow, commit_to, advance_follower, accept_entries, on_append_entries,
  on_success, advance_leader, back_off, on_append_entries_response,
}
use bft_consensus_bench.Raft.Node.{handle_raft, handle_message}
use bft_consensus_bench.Raft.Calls.{Call, proposes, receives, ticks, polls, after}

module _ {Rng : Type 0} where
  -- The term has not fallen, and within the term a vote that was cast stands.
  pub record KeepsVote (s t : RaftState Rng) : Type 0 where
    pub term : s.current_term ≤ t.current_term
    pub vote :
        (c : NodeId) → s.voted_for ≡ some c → t.current_term ≡ s.current_term → t.voted_for ≡ some c

  pub KeepsVote-refl : (s : RaftState Rng) → KeepsVote s s
  KeepsVote-refl s = record { term = omega arith; vote = λ c e q. e }

  pub KeepsVote-trans : (s t u : RaftState Rng) → KeepsVote s t → KeepsVote t u → KeepsVote s u
  KeepsVote-trans s t u a b = record {
    term = omega arith;
    vote = λ c e q.
        b.vote c (a.vote c e (omega (arith, a.term, b.term))) (omega (arith, a.term, b.term));
  }

  -- Neither field is touched.
  KeepsVote-same :
      (s t : RaftState Rng)
      → t.current_term ≡ s.current_term
      → t.voted_for ≡ s.voted_for
      → KeepsVote s t
  KeepsVote-same s t et ev = record { term = omega arith; vote = λ c e q. ev ∙ e }

  KeepsVote-later : (s t : RaftState Rng) → s.current_term < t.current_term → KeepsVote s t
  KeepsVote-later s t lt = record { term = omega arith; vote = λ c e q. absurd (omega arith) }

  module _ (gen_range : GenRange Rng) (n : RaftNode) where
    pub on_request_vote-KeepsVote :
        (s : RaftState Rng) (from : NodeId) (term : ℕ) (candidate : NodeId) (index last_term : ℕ)
        → KeepsVote s (on_request_vote gen_range n s from term candidate index last_term).0
    unfolding on_request_vote see_term grants reset_election_timeout
    on_request_vote-KeepsVote s from term candidate index last_term = record {
      term = ground arith;
      vote = λ c e q. ground arith;
    }

    on_request_vote_response-KeepsVote :
        (s : RaftState Rng) (term : ℕ) (granted : Bool)
        → KeepsVote s (on_request_vote_response n s term granted).0
    unfolding on_request_vote_response win_election init_indices
    on_request_vote_response-KeepsVote s term granted = record {
      term = ground arith;
      vote = λ c e q. ground arith;
    }

    commit_to_fields :
        (s t : RaftState Rng) (k : ℕ)
        → commit_to s k ≡ some t
        → (t.current_term ≡ s.current_term) × (t.voted_for ≡ s.voted_for)
    unfolding commit_to
    commit_to_fields s t k h = ground arith

    accept_entries-KeepsVote :
        (s t : RaftState Rng) (from : NodeId) (entries : List LogEntry) (leader_commit : ℕ)
        (out : List NetworkMessage)
        → accept_entries n s from entries leader_commit ≡ some (t, out)
        → (t.current_term ≡ s.current_term) × (t.voted_for ≡ s.voted_for)
    unfolding accept_entries advance_follower commit_to
    accept_entries-KeepsVote s t from entries leader_commit out h = ground arith

    on_append_entries-KeepsVote :
        (s t : RaftState Rng) (from : NodeId) (term : ℕ) (leader : NodeId) (pi pt : ℕ)
        (entries : List LogEntry) (leader_commit : ℕ) (out : List NetworkMessage)
        → on_append_entries gen_range n s from term leader pi pt entries leader_commit
          ≡ some (t, out)
        → KeepsVote s t
    unfolding on_append_entries follow reset_election_timeout
    on_append_entries-KeepsVote s t from term leader pi pt entries leader_commit out h =
        let u = follow gen_range s term leader in
        record {
          term = ground (arith, accept_entries-KeepsVote u t from entries leader_commit out);
          vote =
              λ c e q. ground (arith, accept_entries-KeepsVote u t from entries leader_commit out);
        }

    on_success-fields :
        (s t : RaftState Rng) (from : NodeId) (match_index : ℕ)
        → on_success n s from match_index ≡ some t
        → (t.current_term ≡ s.current_term) × (t.voted_for ≡ s.voted_for)
    unfolding on_success advance_leader commit_to
    on_success-fields s t from match_index h = ground arith

    on_append_entries_response-KeepsVote :
        (s t : RaftState Rng) (from : NodeId) (term : ℕ) (success : Bool) (match_index : ℕ)
        (out : List NetworkMessage)
        → on_append_entries_response n s from term success match_index ≡ some (t, out)
        → KeepsVote s t
    unfolding on_append_entries_response back_off
    on_append_entries_response-KeepsVote s t from term success match_index out h = record {
      term = ground (arith, on_success-fields s t from match_index);
      vote = λ c e q. ground (arith, on_success-fields s t from match_index);
    }

    handle_raft-KeepsVote :
        (s t : RaftState Rng) (from : NodeId) (m : RaftMessage) (out : List NetworkMessage)
        → handle_raft gen_range n s from m ≡ some (t, out)
        → KeepsVote s t
    unfolding handle_raft
    handle_raft-KeepsVote s t from (RaftMessage.request_vote term c i lt) out h =
        ground (arith, on_request_vote-KeepsVote s from term c i lt)
    handle_raft-KeepsVote s t from (RaftMessage.request_vote_response term granted) out h =
        ground (arith, on_request_vote_response-KeepsVote s term granted)
    handle_raft-KeepsVote s t from (RaftMessage.append_entries term l pi pt es c) out h =
        on_append_entries-KeepsVote s t from term l pi pt es c out h
    handle_raft-KeepsVote s t from (RaftMessage.append_entries_response term success mi) out h =
        on_append_entries_response-KeepsVote s t from term success mi out h

    handle_payload-KeepsVote :
        (s t : RaftState Rng) (msg : NetworkMessage) (m : ProtocolMessage)
        (out : List NetworkMessage)
        → msg.payload ≡ m
        → handle_message gen_range n s msg ≡ some (t, out)
        → KeepsVote s t
    unfolding handle_message
    handle_payload-KeepsVote s t msg (ProtocolMessage.raft m) out e h =
        handle_raft-KeepsVote s t msg.from m out (rw (e, handle_message) at h)
    handle_payload-KeepsVote s t msg (ProtocolMessage.pbft m) out e h =
        KeepsVote-same s t (ground arith) (ground arith)
    handle_payload-KeepsVote s t msg (ProtocolMessage.hotstuff m) out e h =
        KeepsVote-same s t (ground arith) (ground arith)

    tick-KeepsVote :
        (s : RaftState Rng) → s.current_term + 1 < u64_mod → KeepsVote s (tick gen_range n s).0
    unfolding tick tick_leader tick_other start_election reset_election_timeout
    tick-KeepsVote s small = record { term = ground arith; vote = λ c e q. ground arith }

    propose-KeepsVote : (s : RaftState Rng) (p : Payload) → KeepsVote s (propose n s p).0
    unfolding propose append_proposal
    propose-KeepsVote s p = KeepsVote-same s (propose n s p).0 (ground arith) (ground arith)

    pub after-KeepsVote :
        (s t : RaftState Rng) (c : Call)
        → s.current_term + 1 < u64_mod
        → after gen_range n s c ≡ some t
        → KeepsVote s t
    unfolding after
    after-KeepsVote s t (proposes p) small h = ground (arith, propose-KeepsVote s p)
    after-KeepsVote s t (receives msg) small h =
        elim (Option-cases (handle_message gen_range n s msg)) [
          | inl e ↦ absurd (ground arith)
          | inr (r, e) ↦ handle_payload-KeepsVote s t msg msg.payload r.1 refl (ground arith)
        ]
    after-KeepsVote s t ticks small h = ground (arith, tick-KeepsVote s small)
    after-KeepsVote s t polls small h = KeepsVote-same s t (ground arith) (ground arith)
