-- ===== src/Raft/Election.antt =====
-- src/consensus/raft/state.rs: votes, and the timers that start elections and heartbeats.
use bft_consensus_bench.Base.{
  ℕ, ◌-◌, Bool, true, false, not, ◌&&◌, ◌||◌, Option, none, some, List, [], ◌∷◌, ltb, leb, ◌==◌,
  if◌then◌else◌, add_u64, length, map,
}
use bft_consensus_bench.Types.{NodeId}
use bft_consensus_bench.Network.{NetworkMessage, RaftMessage}
use bft_consensus_bench.Raft.State.{
  Role, is_candidate_role, RaftNode, RaftState, GenRange, heartbeat_interval, majority, send,
  last_log_term, reset_election_timeout, init_indices, append_entries_to_all,
}

-- `voted_for.is_some() && voted_for != Some(candidate_id)`
abbrev pub voted_for_other : Option NodeId → NodeId → Bool
voted_for_other none candidate = false
voted_for_other (some c) candidate = not (c == candidate)

module _ {Rng : Type 0} where
  unfoldable pub see_term : RaftState Rng → ℕ → RaftState Rng
  see_term s term =
      if ltb s.current_term term
      then record s {
        current_term = term;
        role = Role.follower;
        voted_for = none;
        leader_id = none;
      }
      else s

  -- The candidate's log is at least as long and recent as ours.
  unfoldable pub up_to_date : RaftState Rng → ℕ → ℕ → Bool
  up_to_date s index term =
      let our_last_term = last_log_term s.log in
      if ltb our_last_term term
      then true
      else if term == our_last_term
      then leb (length s.log) index
      else false

  unfoldable pub grants : RaftState Rng → ℕ → NodeId → ℕ → ℕ → Bool
  unfolding up_to_date
  grants s term candidate index last_term =
      if ltb term s.current_term || voted_for_other s.voted_for candidate
      then false
      else up_to_date s index last_term

  module _ (n : RaftNode) where
    unfoldable pub win_election : RaftState Rng → RaftState Rng
    unfolding init_indices
    win_election s =
        init_indices n
          (record s { role = Role.leader; leader_id = some n.id; leader_id_atomic = n.id })

    unfoldable pub on_request_vote_response :
        RaftState Rng → ℕ → Bool → RaftState Rng × List NetworkMessage
    unfolding win_election append_entries_to_all
    on_request_vote_response s term vote_granted =
        let counted = record s { votes_received = add_u64 s.votes_received 1 } in
        if ltb s.current_term term
        then (record s { current_term = term; role = Role.follower }, [])
        else if not (vote_granted && is_candidate_role s.role)
        then (s, [])
        else if leb (majority n) counted.votes_received
        then (win_election counted, append_entries_to_all n (win_election counted))
        else (counted, [])

    unfoldable pub tick_leader : RaftState Rng → RaftState Rng × List NetworkMessage
    tick_leader s =
        let t = record s { heartbeat_ticks_remaining = heartbeat_interval } in
        if s.heartbeat_ticks_remaining == 0
        then (t, append_entries_to_all n t)
        else (record s { heartbeat_ticks_remaining = s.heartbeat_ticks_remaining - 1 }, [])

  module _ (gen_range : GenRange Rng) (n : RaftNode) where
    unfoldable pub on_request_vote :
        RaftState Rng → NodeId → ℕ → NodeId → ℕ → ℕ → RaftState Rng × List NetworkMessage
    unfolding see_term grants reset_election_timeout
    on_request_vote s from term candidate index last_term =
        let t = see_term s term in
        let vote_granted = grants t term candidate index last_term in
        (
          if vote_granted
              then reset_election_timeout gen_range (record t { voted_for = some candidate })
              else t,
          send n from (RaftMessage.request_vote_response t.current_term vote_granted) ∷ [],
        )

    unfoldable pub start_election : RaftState Rng → RaftState Rng
    unfolding reset_election_timeout
    start_election s = reset_election_timeout gen_range (record s {
      current_term = add_u64 s.current_term 1;
      role = Role.candidate;
      voted_for = some n.id;
      votes_received = 1;
      leader_id = none;
    })

    unfoldable pub tick_other : RaftState Rng → RaftState Rng × List NetworkMessage
    unfolding start_election
    tick_other s =
        let t = start_election s in
        if s.election_ticks_remaining == 0
        then (
          t,
          map
              (λ peer.
                send n peer (
                  RaftMessage.request_vote t.current_term n.id (length t.log)
                    (last_log_term t.log)))
              n.peer_ids,
        )
        else (record s { election_ticks_remaining = s.election_ticks_remaining - 1 }, [])

    unfoldable pub tick : RaftState Rng → RaftState Rng × List NetworkMessage
    unfolding tick_leader tick_other
    tick s = elim s.role [ Role.leader ↦ tick_leader n s | _ ↦ tick_other s ]
