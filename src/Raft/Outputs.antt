-- ===== src/Raft/Outputs.antt =====
-- src/consensus/raft: the outputs of a Raft node are a queue.
use bft_consensus_bench.Base.{
  ℕ, ◌-◌, ◌≡◌, refl, subst, Bool, not, ◌&&◌, ltb, List, some, none, Option, length, arith, inl, inr,
  Option-cases, Bool-cases,
}
use bft_consensus_bench.Types.{NodeId, Payload}
use bft_consensus_bench.Network.{NetworkMessage, ProtocolMessage, RaftMessage}
use bft_consensus_bench.Consensus.Outputs.{Extends, Extends-of_same, some-first, Outputs}
use bft_consensus_bench.Raft.State.{
  is_leader_role, RaftNode, RaftState, GenRange, reset_election_timeout, init_indices,
}
use bft_consensus_bench.Raft.Election.{
  see_term, on_request_vote, win_election, on_request_vote_response, start_election, tick_leader,
  tick_other, tick,
}
use bft_consensus_bench.Raft.Replication.{
  commit_to, append_proposal, propose, find_commit, advance_leader, on_success, back_off,
  on_append_entries_response,
}
use bft_consensus_bench.Raft.Node.{handle_raft, handle_message, poll_committed, raft_consensus}
use bft_consensus_bench.Raft.Commit.{on_append_entries-Advances}
use bft_consensus_bench.Raft.Commit.Steps.{commit_to-Advances}
use bft_consensus_bench.Raft.Commit.Leader.{noted}

module _ {Rng : Type 0} where
  advance_leader-Extends :
      (n : RaftNode) (s t : RaftState Rng)
      → advance_leader n s ≡ some t
      → Extends s.committed t.committed
  unfolding advance_leader
  advance_leader-Extends n s t h =
      elim (Option-cases (find_commit n s (length s.log - s.commit_index))) [
        | inl e ↦ Extends-of_same s.committed t.committed (ground arith)
        | inr (index, e) ↦
            let done : commit_to s index ≡ some t = ground arith in
            (_, (commit_to-Advances s t index done).output)
      ]

  response-Extends :
      (n : RaftNode) (s t : RaftState Rng) (from : NodeId) (term : ℕ) (success : Bool)
      (match_index : ℕ) (out : List NetworkMessage)
      → on_append_entries_response n s from term success match_index ≡ some (t, out)
      → Extends s.committed t.committed
  unfolding on_append_entries_response on_success back_off
  response-Extends n s t from term success match_index out h =
      elim (Bool-cases (not (ltb s.current_term term) && (is_leader_role s.role && success))) [
        | inl counts ↦
            let done : advance_leader n (noted s from match_index) ≡ some t = ground arith in
            advance_leader-Extends n (noted s from match_index) t done
        | inr ignored ↦ Extends-of_same s.committed t.committed (ground arith)
      ]

  module _ (gen_range : GenRange Rng) where
    message-Extends :
        (n : RaftNode) (s t : RaftState Rng) (from : NodeId) (m : RaftMessage)
        (out : List NetworkMessage)
        → handle_raft gen_range n s from m ≡ some (t, out)
        → Extends s.committed t.committed
    unfolding handle_raft on_request_vote see_term reset_election_timeout on_request_vote_response
        win_election init_indices
    message-Extends n s t from (RaftMessage.request_vote term c i lt) out h =
        Extends-of_same s.committed t.committed (ground arith)
    message-Extends n s t from (RaftMessage.request_vote_response term granted) out h =
        Extends-of_same s.committed t.committed (ground arith)
    message-Extends n s t from (RaftMessage.append_entries term l pi pt es c) out h =
        (_, (on_append_entries-Advances gen_range n s t from term l pi pt es c out h).output)
    message-Extends n s t from (RaftMessage.append_entries_response term success mi) out h =
        response-Extends n s t from term success mi out h

    handle_message-Extends :
        (n : RaftNode) (s t : RaftState Rng) (from to : NodeId) (payload : ProtocolMessage)
        (out : List NetworkMessage)
        → handle_message gen_range n s (record { from = from; to = to; payload = payload })
          ≡ some (t, out)
        → Extends s.committed t.committed
    unfolding handle_message
    handle_message-Extends n s t from to (ProtocolMessage.raft m) out h =
        message-Extends n s t from m out h
    handle_message-Extends n s t from to (ProtocolMessage.pbft m) out h =
        Extends-of_same s.committed t.committed (ground arith)
    handle_message-Extends n s t from to (ProtocolMessage.hotstuff m) out h =
        Extends-of_same s.committed t.committed (ground arith)

    propose-Extends :
        (n : RaftNode) (s : RaftState Rng) (p : Payload)
        → Extends s.committed (propose n s p).0.committed
    unfolding propose append_proposal
    propose-Extends n s p = Extends-of_same s.committed (propose n s p).0.committed (ground arith)

    tick-Extends :
        (n : RaftNode) (s : RaftState Rng) → Extends s.committed (tick gen_range n s).0.committed
    unfolding tick tick_leader tick_other start_election reset_election_timeout
    tick-Extends n s = Extends-of_same s.committed (tick gen_range n s).0.committed (ground arith)

    call-Extends :
        (n : RaftNode) (s : RaftState Rng) (r : Option (RaftState Rng × List NetworkMessage))
        (q : RaftNode × RaftState Rng) (out : List NetworkMessage)
        → ((t : RaftState Rng) (o : List NetworkMessage)
            → r ≡ some (t, o)
            → Extends s.committed t.committed)
        → ◌≡◌ {A = Option ((RaftNode × RaftState Rng) × List NetworkMessage)}
            (elim r [ none ↦ none | some (t, o) ↦ some ((n, t), o) ])
            (some (q, out))
        → (q.0.id ≡ n.id) × Extends s.committed q.1.committed
    call-Extends n s none q out f h = cc
    call-Extends n s (some (t, o)) q out f h =
        subst (λ q'. (q'.0.id ≡ n.id) × Extends s.committed q'.1.committed) (some-first _ _ h)
          (refl, f t o refl)

    -- The committed entries of a Raft node are a queue that calls only add to, and that polling
    -- empties.
    pub raft_outputs : Outputs (raft_consensus gen_range)
    unfolding raft_consensus poll_committed
    raft_outputs = record {
      queue = λ p. p.1.committed;
      poll_takes = λ p. refl;
      poll_empties = λ p. refl;
      poll_id = λ p. refl;
      propose_extends = λ p q payload r h.
          subst (λ q'. (q'.0.id ≡ p.0.id) × Extends p.1.committed q'.1.committed) (some-first _ _ h)
            (refl, propose-Extends p.0 p.1 payload);
      handle_extends = λ p q m out h.
          call-Extends p.0 p.1 (handle_message gen_range p.0 p.1 m) q out
            (λ t o e. handle_message-Extends p.0 p.1 t m.from m.to m.payload o e) h;
      tick_extends = λ p q out h.
          subst (λ q'. (q'.0.id ≡ p.0.id) × Extends p.1.committed q'.1.committed) (some-first _ _ h)
            (refl, tick-Extends p.0 p.1);
    }
