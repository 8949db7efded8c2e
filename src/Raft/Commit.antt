-- ===== src/Raft/Commit.antt =====
-- src/consensus/raft/state.rs: what a Raft node commits.
pub mod Steps
pub mod Leader
use Prim.Native.Nat.{min}
use bft_consensus_bench.Base.{
  ℕ, zero, suc, ◌+◌, ◌-◌, ◌≤◌, ◌<◌, ◌≡◌, refl, sym, subst, ◌⊎◌, inl, inr, ◌↔◌, Bool, true, false,
  not, ◌&&◌, none, some, List, [], ◌++◌, map, arith, ltb, ◌==◌, length, take, drop, Option-cases,
  Bool-cases, ==_iff, add_u64,
}
use mathlib.Core.List.{append-nil}
use bft_consensus_bench.Base.Map
use bft_consensus_bench.Types.{NodeId}
use bft_consensus_bench.Network.{NetworkMessage, RaftMessage, LogEntry}
use bft_consensus_bench.Consensus.{CommittedEntry}
use bft_consensus_bench.Raft.State.{
  Role, is_leader_role, RaftNode, RaftState, GenRange, reset_election_timeout,
}
use bft_consensus_bench.Raft.Replication.{
  slice, to_committed, append_all, PrevCheck, missing, conflict, consistent, check_prev, commit_to,
  follow, advance_follower, accept_entries, on_append_entries, can_commit, find_commit,
  advance_leader, on_success, back_off, on_append_entries_response,
}
use bft_consensus_bench.Raft.State.{init_indices}
use bft_consensus_bench.Raft.Election.{
  see_term, on_request_vote, win_election, on_request_vote_response,
}
use bft_consensus_bench.Raft.Node.{handle_raft}
use bft_consensus_bench.Raft.Commit.Steps.{Advances, commit_to-Advances, Advances-same}
use bft_consensus_bench.Raft.Commit.Leader.{noted, advance_leader-LeaderCommits}

pub check_cases : (c : PrevCheck) → ((c ≡ missing) ⊎ (c ≡ conflict)) ⊎ (c ≡ consistent)
check_cases missing = inl (inl refl)
check_cases conflict = inl (inr refl)
check_cases consistent = inr refl

module _ {Rng : Type 0} where
  accept_entries-Advances :
      (n : RaftNode) (s t : RaftState Rng) (from : NodeId) (entries : List LogEntry)
      (leader_commit : ℕ) (out : List NetworkMessage)
      → accept_entries n s from entries leader_commit ≡ some (t, out)
      → Advances s t
  unfolding accept_entries advance_follower
  accept_entries-Advances n s t from entries leader_commit out h =
      let log = append_all s.log entries in
      let u = record s { log = log } in
      elim (Bool-cases (ltb s.commit_index leader_commit)) [
        | inl ahead ↦
            let a = commit_to-Advances u t (min leader_commit (length log)) (ground arith) in
            record { grows = a.grows; bounded = a.bounded; output = a.output }
        | inr not_ahead ↦ Advances-same s t (ground arith) (ground arith)
      ]

  pub on_append_entries-Advances :
      (gen_range : GenRange Rng) (n : RaftNode) (s t : RaftState Rng) (from : NodeId) (term : ℕ)
      (leader : NodeId) (pi pt : ℕ) (entries : List LogEntry) (leader_commit : ℕ)
      (out : List NetworkMessage)
      → on_append_entries gen_range n s from term leader pi pt entries leader_commit ≡ some (t, out)
      → Advances s t
  unfolding on_append_entries follow reset_election_timeout
  on_append_entries-Advances gen_range n s t from term leader pi pt entries leader_commit out h =
      let u = follow gen_range s term leader in
      elim (Bool-cases (ltb term s.current_term)) [
        | inl old ↦ Advances-same s t (ground arith) (ground arith)
        | inr current ↦ elim (check_cases (check_prev u.log pi pt)) [
          | inl refused ↦ Advances-same s t (ground arith) (ground arith)
          | inr ok ↦
              let a = accept_entries-Advances n u t from entries leader_commit out (ground arith) in
              record { grows = a.grows; bounded = a.bounded; output = a.output }
        ]
      ]

  on_append_entries_response-Advances :
      (n : RaftNode) (s t : RaftState Rng) (from : NodeId) (term : ℕ) (success : Bool)
      (match_index : ℕ) (out : List NetworkMessage)
      → s.commit_index ≤ length s.log
      → on_append_entries_response n s from term success match_index ≡ some (t, out)
      → Advances s t
  unfolding on_append_entries_response on_success back_off
  on_append_entries_response-Advances n s t from term success match_index out inside h =
      let (u, done, c) = advance_leader-LeaderCommits n (noted s from match_index) inside in
      elim (Bool-cases (not (ltb s.current_term term) && (is_leader_role s.role && success))) [
        | inl counts ↦
            let same : u ≡ t = ground arith in
            subst (Advances s) same (record {
              grows = c.advances.grows;
              bounded = c.advances.bounded;
              output = c.advances.output;
            })
        | inr ignored ↦ Advances-same s t (ground arith) (ground arith)
      ]

  -- At a node whose commit index does not lie beyond its log, a message that is handled without a
  -- panic does not lower the commit index, and what comes out of it is exactly the part of the new
  -- log from the old commit index to the new one, in order, under the sequence numbers and with
  -- the payloads of the log.
  pub handle_raft-Advances :
      (gen_range : GenRange Rng) (n : RaftNode) (s t : RaftState Rng) (from : NodeId)
      (m : RaftMessage) (out : List NetworkMessage)
      → s.commit_index ≤ length s.log
      → handle_raft gen_range n s from m ≡ some (t, out)
      → Advances s t
  unfolding handle_raft on_request_vote see_term reset_election_timeout on_request_vote_response
      win_election init_indices
  handle_raft-Advances gen_range n s t from (RaftMessage.request_vote term c i lt) out inside h =
      Advances-same s t (ground arith) (ground arith)
  handle_raft-Advances gen_range n s t from (RaftMessage.request_vote_response term granted) out
        inside h =
      Advances-same s t (ground arith) (ground arith)
  handle_raft-Advances gen_range n s t from (RaftMessage.append_entries term l pi pt es c) out
        inside h =
      on_append_entries-Advances gen_range n s t from term l pi pt es c out h
  handle_raft-Advances gen_range n s t from (RaftMessage.append_entries_response term success mi)
        out inside h =
      on_append_entries_response-Advances n s t from term success mi out inside h

  -- A follower that takes entries panics exactly if the leader's commit index is above its own,
  -- and its log, once the entries are in, ends below its own commit index.
  pub accept_entries-none_iff :
      (n : RaftNode) (s : RaftState Rng) (from : NodeId) (entries : List LogEntry)
      (leader_commit : ℕ)
      → (accept_entries n s from entries leader_commit ≡ none)
        ↔ ((s.commit_index < leader_commit) × (length (append_all s.log entries) < s.commit_index))
  unfolding accept_entries advance_follower commit_to slice
  accept_entries-none_iff n s from entries leader_commit =
      ((λ h. ground arith), (λ h. ground arith))
