-- ===== src/Raft/Timer.antt =====
-- The election timer of a Raft node that hears nothing (src/consensus/raft/state.rs).
use bft_consensus_bench.Base.{
  ℕ, zero, suc, ◌-◌, ◌≡◌, refl, sym, subst, ◌∙◌, ap, false, some, List, [], ◌++◌, map, arith, ◌==◌,
  add_u64, length,
}
use mathlib.Core.List.{append-nil}
use bft_consensus_bench.Network.{NetworkMessage, RaftMessage}
use bft_consensus_bench.Raft.State.{
  Role, is_leader_role, RaftNode, RaftState, GenRange, send, last_log_term, reset_election_timeout,
}
use bft_consensus_bench.Raft.Election.{start_election, tick_other, tick}

module _ {Rng : Type 0} (gen_range : GenRange Rng) (n : RaftNode) where
  -- So many ticks, and all that is sent in them.
  unfoldable pub tick_run : RaftState Rng → ℕ → RaftState Rng × List NetworkMessage
  unfolding tick
  tick_run s zero = (s, [])
  tick_run s (suc k) =
      let (t, out) = tick gen_range n s in let (u, more) = tick_run t k in (u, out ++ more)

  -- A request for a vote in the next term, to every peer.
  abbrev pub requests : RaftState Rng → List NetworkMessage
  requests s =
      map
        (λ peer. send n peer (
          RaftMessage.request_vote (add_u64 s.current_term 1) n.id (length s.log)
            (last_log_term s.log)))
        n.peer_ids

  -- The candidate of the next term, with its own vote.
  pub record StartsElection (s t : RaftState Rng) : Type 0 where
    pub role : t.role ≡ Role.candidate
    pub term : t.current_term ≡ add_u64 s.current_term 1
    pub own_vote : t.voted_for ≡ some n.id
    pub counted : t.votes_received ≡ 1
    pub log : t.log ≡ s.log
    pub committed : t.committed ≡ s.committed

  tick_run-step :
      (s t : RaftState Rng) (k : ℕ) (out : List NetworkMessage)
      → tick gen_range n s ≡ (t, out)
      → (tick_run s (suc k)) ≡ ((tick_run t k).0, out ++ (tick_run t k).1)
  unfolding tick_run
  tick_run-step s t k out e = ap (λ r. ((tick_run r.0 k).0, r.1 ++ (tick_run r.0 k).1)) e

  tick-tick_other :
      (s : RaftState Rng)
      → is_leader_role s.role ≡ false
      → tick gen_range n s ≡ tick_other gen_range n s
  unfolding tick
  tick-tick_other s follows = ground arith

  start_step :
      (s : RaftState Rng)
      → s.election_ticks_remaining ≡ 0
      → is_leader_role s.role ≡ false
      → (tick gen_range n s ≡ (start_election gen_range n s, requests s))
        × StartsElection s (start_election gen_range n s)
  unfolding tick_other start_election reset_election_timeout
  start_step s timeout follows = (
    tick-tick_other s follows ∙ ground arith,
    record {
      role = refl;
      term = refl;
      own_vote = refl;
      counted = refl;
      log = refl;
      committed = refl;
    },
  )

  wait_step :
      (s : RaftState Rng)
      → (s.election_ticks_remaining == 0) ≡ false
      → is_leader_role s.role ≡ false
      → tick gen_range n s
        ≡ (record s { election_ticks_remaining = s.election_ticks_remaining - 1 }, [])
  unfolding tick_other
  wait_step s later follows = tick-tick_other s follows ∙ ground arith

  -- A node that does not lead and hears nothing: with the tick after its election timer has run
  -- out, and not before, it stands for election. It asks every peer for its vote in the next term,
  -- and nothing else has been sent; it is a candidate of that term that has voted for itself and
  -- counts that vote alone; its log and what it has committed are as before.
  pub tick_run-StartsElection :
      (s : RaftState Rng) (k : ℕ)
      → s.election_ticks_remaining ≡ k
      → is_leader_role s.role ≡ false
      → ((tick_run s k).1 ≡ [])
        × ((tick_run s (suc k)).1 ≡ requests s)
        × StartsElection s (tick_run s (suc k)).0
  unfolding tick_run
  tick_run-StartsElection s zero timeout follows =
      let (e, starts) = start_step s timeout follows in
      let path = tick_run-step s (start_election gen_range n s) zero (requests s) e in
      (
        refl,
        ap (λ r. r.1) path ∙ append-nil (requests s),
        subst (StartsElection s) (sym (ap (λ r. r.0) path)) starts,
      )
  tick_run-StartsElection s (suc k) timeout follows =
      let t = record s { election_ticks_remaining = s.election_ticks_remaining - 1 } in
      let e = wait_step s (ground arith) follows in
      let (quiet, sent, starts) = tick_run-StartsElection t k (omega arith) follows in
      let before = tick_run-step s t k [] e in
      let after = tick_run-step s t (suc k) [] e in
      (
        ap (λ r. r.1) before ∙ quiet,
        ap (λ r. r.1) after ∙ sent,
        subst (StartsElection s) (sym (ap (λ r. r.0) after)) (record {
          role = starts.role;
          term = starts.term;
          own_vote = starts.own_vote;
          counted = starts.counted;
          log = starts.log;
          committed = starts.committed;
        }),
      )
