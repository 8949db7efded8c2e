-- ===== src/Raft/Replication.antt =====
-- src/consensus/raft/state.rs: proposals, `AppendEntries` and its answer. `none` is a panic.
use Prim.Native.Nat.{min}
use bft_consensus_bench.Base.{
  ℕ, zero, suc, ◌+◌, ◌-◌, Bool, true, false, not, ◌&&◌, Option, none, some, List, [], ◌∷◌, ◌++◌,
  ltb, leb, ◌==◌, if◌then◌else◌, add_u64, sub_u64, length, get_elem?, take, drop, map,
}
use bft_consensus_bench.Base.Map
use bft_consensus_bench.Base.Map.{Map}
use bft_consensus_bench.Types.{NodeId, Payload}
use bft_consensus_bench.Network.{NetworkMessage, RaftMessage, LogEntry}
use bft_consensus_bench.Consensus.{ProposeResult, accepted, not_leader, CommittedEntry}
use bft_consensus_bench.Raft.State.{
  Role, is_leader_role, RaftNode, RaftState, GenRange, majority, send, reset_election_timeout,
  build_append_entries, append_entries_to_all,
}

-- `log[start..end]`, which panics unless `start <= end <= log.len()`.
unfoldable pub slice {ℓ} : {A : Type ℓ} → List A → ℕ → ℕ → Option (List A)
slice xs start end =
    if leb start end && leb end (length xs) then some (take (end - start) (drop start xs)) else none

unfoldable pub to_committed : LogEntry → CommittedEntry
to_committed e = record { sequence = e.index; payload = e.payload }

-- One round of the loop over the new entries: a conflict cuts the log.
unfoldable pub append_entry : List LogEntry → LogEntry → List LogEntry
append_entry log entry =
    let idx = sub_u64 entry.index 1 in
    elim (get_elem? log idx) [
      | none ↦ log ++ entry ∷ []
      | some old ↦ if old.term == entry.term then log else take idx log ++ entry ∷ []
    ]

unfoldable pub append_all : List LogEntry → List LogEntry → List LogEntry
unfolding append_entry
append_all log [] = log
append_all log (entry ∷ entries) = append_all (append_entry log entry) entries

pub data PrevCheck : Type 0 where
  missing conflict consistent : PrevCheck

-- The entry before the new ones, as the leader has it.
unfoldable pub check_prev : List LogEntry → ℕ → ℕ → PrevCheck
check_prev log prev_log_index prev_log_term =
    let found : PrevCheck = elim (get_elem? log (prev_log_index - 1)) [
      | none ↦ missing
      | some entry ↦ if entry.term == prev_log_term then consistent else conflict
    ] in
    if ltb 0 prev_log_index then found else consistent

-- `match_index.values().filter(|&&mi| mi >= n).count()`
unfoldable pub count_reached : ℕ → Map ℕ → ℕ
count_reached n [] = 0
count_reached n ((peer, mi) ∷ m) = if leb n mi then suc (count_reached n m) else count_reached n m

module _ {Rng : Type 0} where
  unfoldable pub commit_to : RaftState Rng → ℕ → Option (RaftState Rng)
  unfolding slice to_committed
  commit_to s new_commit = elim (slice s.log s.commit_index new_commit) [
    | none ↦ none
    | some entries ↦ some (record s {
      commit_index = new_commit;
      committed = s.committed ++ map to_committed entries;
    })
  ]

  unfoldable pub append_proposal : RaftState Rng → Payload → RaftState Rng
  append_proposal s payload = record s {
    log =
        s.log
        ++ record { term = s.current_term; index = add_u64 (length s.log) 1; payload = payload }
          ∷ [];
  }

  unfoldable pub propose :
      RaftNode → RaftState Rng → Payload → RaftState Rng × (ProposeResult × List NetworkMessage)
  unfolding append_proposal append_entries_to_all
  propose n s payload =
      let t = append_proposal s payload in
      if not (is_leader_role s.role)
      then (s, (not_leader s.leader_id, []))
      else (t, (accepted, append_entries_to_all n t))

  -- The sender leads this term: the node follows it.
  unfoldable pub follow : GenRange Rng → RaftState Rng → ℕ → NodeId → RaftState Rng
  unfolding reset_election_timeout
  follow gen_range s term leader_id = reset_election_timeout gen_range (record s {
    current_term = term;
    role = Role.follower;
    leader_id = some leader_id;
    leader_id_atomic = leader_id;
  })

  unfoldable pub answer : RaftNode → RaftState Rng → NodeId → Bool → ℕ → List NetworkMessage
  answer n s from success match_index =
      send n from (RaftMessage.append_entries_response s.current_term success match_index) ∷ []

  unfoldable pub advance_follower : RaftState Rng → ℕ → Option (RaftState Rng)
  unfolding commit_to
  advance_follower s leader_commit =
      if ltb s.commit_index leader_commit
      then commit_to s (min leader_commit (length s.log))
      else some s

  unfoldable pub accept_entries :
      RaftNode
      → RaftState Rng
      → NodeId
      → List LogEntry
      → ℕ
      → Option (RaftState Rng × List NetworkMessage)
  unfolding append_all advance_follower answer
  accept_entries n s from entries leader_commit =
      let log = append_all s.log entries in
      elim (advance_follower (record s { log = log }) leader_commit) [
        | none ↦ none
        | some t ↦ some (t, answer n t from true (length log))
      ]

  unfoldable pub on_append_entries :
      GenRange Rng
      → RaftNode
      → RaftState Rng
      → NodeId
      → ℕ
      → NodeId
      → ℕ
      → ℕ
      → List LogEntry
      → ℕ
      → Option (RaftState Rng × List NetworkMessage)
  unfolding follow check_prev accept_entries answer
  on_append_entries gen_range n s from term leader prev_index prev_term entries leader_commit =
      let t = follow gen_range s term leader in
      let cut = record t { log = take (prev_index - 1) t.log } in
      if ltb term s.current_term
      then some (s, answer n s from false 0)
      else elim (check_prev t.log prev_index prev_term) [
        | missing ↦ some (t, answer n t from false (length t.log))
        | conflict ↦ some (cut, answer n cut from false (length cut.log))
        | consistent ↦ accept_entries n t from entries leader_commit
      ]

  -- The test of one round: the entry is of the current term, and a majority has it.
  unfoldable pub can_commit : RaftNode → RaftState Rng → ℕ → Bool
  unfolding count_reached
  can_commit n s index =
      let current : Bool = elim (get_elem? s.log (index - 1)) [
        | none ↦ true
        | some e ↦ e.term == s.current_term
      ] in
      current && leb (majority n) (count_reached index s.match_index + 1)

  -- The loop over `(commit_index + 1..=log_len).rev()`: `rounds` indices above the commit index
  -- are left.
  unfoldable pub find_commit : RaftNode → RaftState Rng → ℕ → Option ℕ
  find_commit n s zero = none
  find_commit n s (suc rounds) =
      let rest = find_commit n s rounds in
      if can_commit n s (s.commit_index + suc rounds)
      then some (s.commit_index + suc rounds)
      else rest

  unfoldable pub advance_leader : RaftNode → RaftState Rng → Option (RaftState Rng)
  unfolding find_commit commit_to
  advance_leader n s = elim (find_commit n s (length s.log - s.commit_index)) [
    | none ↦ some s
    | some index ↦ commit_to s index
  ]

  unfoldable pub on_success : RaftNode → RaftState Rng → NodeId → ℕ → Option (RaftState Rng)
  unfolding advance_leader
  on_success n s from match_index = advance_leader n (record s {
    match_index = Map.insert from match_index s.match_index;
    next_index = Map.insert from (add_u64 match_index 1) s.next_index;
  })

  -- A refusal moves the follower's `next_index` one back.
  unfoldable pub back_off : RaftState Rng → NodeId → RaftState Rng
  back_off s from =
      let next : ℕ = elim (Map.get from s.next_index) [ none ↦ 1 | some i ↦ i ] in
      if ltb 1 next then record s { next_index = Map.insert from (next - 1) s.next_index } else s

  unfoldable pub on_append_entries_response :
      RaftNode
      → RaftState Rng
      → NodeId
      → ℕ
      → Bool
      → ℕ
      → Option (RaftState Rng × List NetworkMessage)
  unfolding on_success back_off
  on_append_entries_response n s from term success match_index =
      let retry = back_off s from in
      let advanced : Option (RaftState Rng × List NetworkMessage) =
        elim (on_success n s from match_index) [ none ↦ none | some t ↦ some (t, []) ] in
      if ltb s.current_term term
      then some (record s { current_term = term; role = Role.follower }, [])
      else if not (is_leader_role s.role)
      then some (s, [])
      else if success
      then advanced
      else some (retry, build_append_entries n retry from ∷ [])
