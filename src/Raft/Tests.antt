-- ===== src/Raft/Tests.antt =====
-- Concrete nodes and messages of a Raft cluster of three.
use bft_consensus_bench.Base.{
  ℕ, zero, suc, ◌+◌, ◌%◌, ◌<◌, ◌≡◌, ◌↔◌, refl, true, none, some, List, [], ◌∷◌, inl, inr, arith,
  length,
}
use bft_consensus_bench.Base.NodeSet.{contains}
use bft_consensus_bench.Types.{NodeId, Payload}
use bft_consensus_bench.Network.{NetworkMessage, ProtocolMessage, RaftMessage, LogEntry}
use bft_consensus_bench.Raft.State.{
  Role, RaftNode, RaftState, GenRange, majority, send, last_log_term,
}
use bft_consensus_bench.Raft.Election.{on_request_vote, start_election, tick}
use bft_consensus_bench.Raft.Replication.{
  append_all, append_entry, accept_entries, on_append_entries_response,
}
use bft_consensus_bench.Raft.Node.{handle_raft}
use bft_consensus_bench.Raft.Calls.{Call, receives, ticks, after, run}
use bft_consensus_bench.Raft.Timer.{tick_run, requests, StartsElection, tick_run-StartsElection}
use bft_consensus_bench.Raft.Votes.{NoWrap, one_vote_per_term}
use bft_consensus_bench.Raft.Safety.{VotesFor, election_safety}
use bft_consensus_bench.Raft.Commit.{handle_raft-Advances, accept_entries-none_iff}
use bft_consensus_bench.Raft.Commit.Steps.{Advances}
use bft_consensus_bench.Raft.Commit.Leader.{LeaderCommits, noted, success-LeaderCommits}
use bft_consensus_bench.Raft.Elections.{answers, one_voter_elects}
use bft_consensus_bench.Raft.Log.{Replicates, append_all-Replicates}

abbrev pub counting : GenRange ℕ
counting rng low high = (low + rng % 16, rng + 7)

abbrev pub node : RaftNode
node = record { id = 0; cluster_size = 3; peer_ids = 1 ∷ 2 ∷ [] }

abbrev pub fresh : RaftState ℕ
fresh = record {
  leader_id_atomic = 0;
  current_term = 0;
  voted_for = none;
  log = [];
  commit_index = 0;
  role = Role.follower;
  leader_id = none;
  next_index = [];
  match_index = [];
  votes_received = 0;
  election_ticks_remaining = 15;
  heartbeat_ticks_remaining = 0;
  rng = 0;
  committed = [];
}

-- After the vote for node 1 in term 1.
abbrev voted : RaftState ℕ
voted = record fresh { current_term = 1; voted_for = some 1; rng = 7 }

abbrev transfer : Payload
transfer = record { bytes = 7 ∷ [] }

abbrev pub entry : ℕ → ℕ → LogEntry
entry term index = record { term = term; index = index; payload = transfer }

abbrev pub leading : RaftState ℕ
leading = record fresh {
  current_term = 1;
  role = Role.leader;
  log = entry 1 1 ∷ entry 1 2 ∷ [];
  next_index = (1, 1) ∷ (2, 1) ∷ [];
  match_index = (1, 0) ∷ (2, 0) ∷ [];
}

abbrev candidate : RaftState ℕ
candidate = record fresh {
  current_term = 4;
  role = Role.candidate;
  voted_for = some 0;
  votes_received = 1;
}

-- Node 2 asks for the vote in the same term.
abbrev rival : Call
rival =
    receives (record {
      from = 2;
      to = 0;
      payload = ProtocolMessage.raft (RaftMessage.request_vote 1 2 0 0);
    })

abbrev favourite : NodeId
favourite = 1

one_vote_per_term_example : favourite ≡ favourite
unfolding run after on_request_vote send last_log_term
one_vote_per_term_example =
    one_vote_per_term counting node fresh voted (rival ∷ []) 1 1 favourite 0 0 1 1 favourite 0 0
      refl (omega arith, tt) refl refl refl

-- Node 1 stands for election in term 1, and nodes 0 and 2 grant it their votes; node 0 then refuses
-- node 2.
abbrev member : NodeId → RaftNode
member x = record { id = x; cluster_size = 3; peer_ids = [] }

abbrev timed_out : NodeId → RaftState ℕ
timed_out x = record fresh { election_ticks_remaining = 0 }

abbrev asks_vote : NodeId → NetworkMessage
asks_vote to = record {
  from = 1;
  to = to;
  payload = ProtocolMessage.raft (RaftMessage.request_vote 1 1 0 0);
}

abbrev election : NodeId → List Call
election zero = receives (asks_vote 0) ∷ rival ∷ []
election (suc zero) = ticks ∷ []
election (suc (suc x)) = receives (asks_vote (suc (suc x))) ∷ []

votes_at :
    (x : NodeId) (calls : List Call)
    → VotesFor counting (member x) (timed_out x) (receives (asks_vote x) ∷ calls) 1 favourite
unfolding on_request_vote last_log_term
votes_at x calls = inl (
    inl (record {
      msg = asks_vote x;
      asked_term = 1;
      last_index = 0;
      last_term = 0;
      is = refl;
      asks = refl;
      answer = refl;
      within = refl;
    }))

votes_itself : VotesFor counting (member 1) (timed_out 1) (ticks ∷ []) 1 favourite
unfolding start_election tick
votes_itself = inl (inr (record { is = refl; starts = refl; itself = refl; within = refl }))

election-NoWrap : (x : NodeId) → NoWrap counting (member x) (timed_out x) (election x)
unfolding after
election-NoWrap zero = (omega arith, (ground arith, tt))
election-NoWrap (suc zero) = (omega arith, tt)
election-NoWrap (suc (suc x)) = (omega arith, tt)

election_safety_example : favourite ≡ favourite
unfolding majority contains
election_safety_example =
    election_safety counting member timed_out election node 1 favourite favourite (0 ∷ 1 ∷ [])
      (1 ∷ 2 ∷ []) (omega arith) (omega arith) election-NoWrap (refl, (refl, tt)) (refl, (refl, tt))
      (omega arith, (omega arith, tt)) (omega arith, (omega arith, tt)) (omega arith) (omega arith)
      (votes_at 0 (rival ∷ []), (votes_itself, tt)) (votes_itself, (votes_at 2 [], tt))

success-LeaderCommits_example :
    (t : RaftState ℕ) × (on_append_entries_response node leading 1 1 true 2 ≡ some (t, []))
    × LeaderCommits node (noted leading 1 2) t
success-LeaderCommits_example =
    success-LeaderCommits node leading 1 1 2 refl (omega arith) (omega arith)

-- The follower has two entries of term 1, the leader of term 2 replaces the second.
append_all-Replicates_example :
    Replicates
      (entry 1 1 ∷ entry 1 2 ∷ [])
      (append_all (entry 1 1 ∷ entry 1 2 ∷ []) (entry 2 2 ∷ entry 2 3 ∷ []))
      1
      (entry 2 2 ∷ entry 2 3 ∷ [])
append_all-Replicates_example =
    append_all-Replicates (entry 1 1 ∷ entry 1 2 ∷ []) 1 (entry 2 2 ∷ entry 2 3 ∷ [])
      (refl, (refl, tt)) (omega arith) (omega arith) (refl, (refl, tt))

-- The answer is to a request of term 2.
one_voter_elects_example : (answers node candidate 2 1).role ≡ Role.leader
unfolding majority
one_voter_elects_example =
    one_voter_elects node candidate 2 0 refl (omega arith) (omega arith) (omega arith)

abbrev new_entry : RaftMessage
new_entry = RaftMessage.append_entries 1 2 0 0 (entry 1 1 ∷ []) 1

abbrev followed : RaftState ℕ
followed = record fresh {
  leader_id_atomic = 2;
  current_term = 1;
  leader_id = some 2;
  log = entry 1 1 ∷ [];
  commit_index = 1;
  rng = 7;
  committed = record { sequence = 1; payload = transfer } ∷ [];
}

handle_raft-Advances_example : Advances fresh followed
unfolding handle_raft accept_entries append_entry send
handle_raft-Advances_example =
    handle_raft-Advances counting node fresh followed 2 new_entry
      (send node 2 (RaftMessage.append_entries_response 1 true 1) ∷ []) (omega arith) refl

accept_entries-none_iff_example :
    (accept_entries node (record fresh { commit_index = 3 }) 2 (entry 1 1 ∷ []) 4 ≡ none)
    ↔ ((3 < 4) × (length (append_all [] (entry 1 1 ∷ [])) < 3))
accept_entries-none_iff_example =
    accept_entries-none_iff node (record fresh { commit_index = 3 }) 2 (entry 1 1 ∷ []) 4

abbrev quiet : RaftState ℕ
quiet = record voted { log = entry 1 1 ∷ []; election_ticks_remaining = 3 }

tick_run-StartsElection_example :
    ((tick_run counting node quiet 3).1 ≡ [])
    × ((tick_run counting node quiet 4).1 ≡ requests counting node quiet)
    × StartsElection counting node quiet (tick_run counting node quiet 4).0
tick_run-StartsElection_example = tick_run-StartsElection counting node quiet 3 refl refl
