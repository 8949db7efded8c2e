-- ===== src/Raft/Commit/Leader.antt =====
-- src/consensus/raft/state.rs: how far a leader commits.
use bft_consensus_bench.Base.{
  ℕ, zero, suc, ◌+◌, ◌-◌, ◌≤◌, ◌<◌, ◌≡◌, refl, ◌⊎◌, inl, inr, true, false, none, some, [], ◌++◌,
  arith, ◌==◌, length, Option-cases, Bool-cases, ==_iff, add_u64, ◌∷◌, leb, keep_if, get_elem?,
}
use bft_consensus_bench.Base.Map
use bft_consensus_bench.Types.{NodeId}
use bft_consensus_bench.Network.{LogEntry}
use bft_consensus_bench.Raft.State.{Role, RaftNode, RaftState, majority}
use bft_consensus_bench.Raft.Replication.{
  slice, commit_to, can_commit, find_commit, advance_leader, count_reached, on_success,
  on_append_entries_response,
}
use bft_consensus_bench.Raft.Log.{get_elem?-none}
use bft_consensus_bench.Raft.Commit.Steps.{Advances, commit_to-Advances, Advances-same, between}

count_reached-length :
    (index : ℕ) (m : Map.Map ℕ)
    → count_reached index m ≡ length (keep_if (λ mi. leb index mi) (Map.values m))
unfolding count_reached Map.values
count_reached-length index [] = refl
count_reached-length index ((peer, mi) ∷ m) = ground (arith, count_reached-length index m)

module _ {Rng : Type 0} where
  -- An entry of the current term that a majority has reached: the leader, and the followers whose
  -- reported index is at or past it.
  pub record Reached (n : RaftNode) (s : RaftState Rng) (index : ℕ) : Type 0 where
    pub entry : LogEntry
    pub held : get_elem? s.log (index - 1) ≡ some entry
    pub current : entry.term ≡ s.current_term
    pub majority_has :
        majority n ≤ length (keep_if (λ mi. leb index mi) (Map.values s.match_index)) + 1

  can_commit-Reached :
      (n : RaftNode) (s : RaftState Rng) (index : ℕ)
      → 0 < index
      → index ≤ length s.log
      → can_commit n s index ≡ true
      → Reached n s index
  unfolding can_commit
  can_commit-Reached n s index pos le h = elim (Option-cases (get_elem? s.log (index - 1))) [
    | inl e ↦ absurd (omega (arith, get_elem?-none s.log (index - 1) e))
    | inr (entry, e) ↦ record {
      entry = entry;
      held = e;
      current = ground arith;
      majority_has = ground (arith, count_reached-length index s.match_index);
    }
  ]

  Reached-can_commit :
      (n : RaftNode) (s : RaftState Rng) (index : ℕ)
      → Reached n s index
      → can_commit n s index ≡ true
  unfolding can_commit
  Reached-can_commit n s index r =
      ground (arith, r.held, r.current, r.majority_has, count_reached-length index s.match_index)

  not-Reached :
      (n : RaftNode) (s : RaftState Rng) (index : ℕ)
      → can_commit n s index ≡ false
      → Reached n s index
      → ⊥
  not-Reached n s index h r = let yes = Reached-can_commit n s index r in cc

  -- The index is the highest of so many above the commit index that may be committed.
  pub record Highest (n : RaftNode) (s : RaftState Rng) (rounds index : ℕ) : Type 0 where
    pub above : s.commit_index < index
    pub within : index ≤ s.commit_index + rounds
    pub allowed : can_commit n s index ≡ true
    pub highest : (j : ℕ) → index < j → j ≤ s.commit_index + rounds → can_commit n s j ≡ false

  find_commit-Highest :
      (n : RaftNode) (s : RaftState Rng) (rounds index : ℕ)
      → find_commit n s rounds ≡ some index
      → Highest n s rounds index
  unfolding find_commit
  find_commit-Highest n s zero index h = cc
  find_commit-Highest n s (suc rounds) index h =
      elim (Bool-cases (can_commit n s (s.commit_index + suc rounds))) [
        | inl here ↦
            let e : index ≡ s.commit_index + suc rounds = ground arith in
            record {
              above = omega arith;
              within = omega arith;
              allowed = rw e here;
              highest = λ j lt le. absurd (omega arith);
            }
        | inr not_here ↦
            let ih = find_commit-Highest n s rounds index (ground arith) in
            record {
              above = ih.above;
              within = omega (arith, ih.within);
              allowed = ih.allowed;
              highest = λ j lt le. elim (Bool-cases (j == s.commit_index + suc rounds)) [
                | inl q ↦ rw ((==_iff _ _).0 q) not_here
                | inr q ↦ ih.highest j lt (ground arith)
              ];
            }
      ]

  find_commit-none :
      (n : RaftNode) (s : RaftState Rng) (rounds j : ℕ)
      → find_commit n s rounds ≡ none
      → s.commit_index < j
      → j ≤ s.commit_index + rounds
      → can_commit n s j ≡ false
  unfolding find_commit
  find_commit-none n s zero j h lt le = absurd (omega arith)
  find_commit-none n s (suc rounds) j h lt le =
      elim (Bool-cases (j == s.commit_index + suc rounds)) [
        | inl q ↦ rw ((==_iff _ _).0 q) (ground arith)
        | inr q ↦ find_commit-none n s rounds j (ground arith) lt (ground arith)
      ]

  -- The step of a leader that looks for the highest index that it may commit.
  pub record LeaderCommits (n : RaftNode) (s t : RaftState Rng) : Type 0 where
    pub advances : Advances s t
    pub best :
        ((t.commit_index ≡ s.commit_index) ⊎ Reached n s t.commit_index)
        × ((j : ℕ) → t.commit_index < j → j ≤ length s.log → Reached n s j → ⊥)

  commit_to-some :
      (s : RaftState Rng) (index : ℕ)
      → s.commit_index < index
      → index ≤ length s.log
      → (t : RaftState Rng) × (commit_to s index ≡ some t) × (t.commit_index ≡ index)
  unfolding commit_to slice
  commit_to-some s index lo hi = (
    record s {
      commit_index = index;
      committed = s.committed ++ between s.log s.commit_index index;
    },
    ground arith,
    refl,
  )

  pub advance_leader-LeaderCommits :
      (n : RaftNode) (s : RaftState Rng)
      → s.commit_index ≤ length s.log
      → (t : RaftState Rng) × (advance_leader n s ≡ some t) × LeaderCommits n s t
  unfolding advance_leader
  advance_leader-LeaderCommits n s inside =
      elim (Option-cases (find_commit n s (length s.log - s.commit_index))) [
        | inl e ↦ (
          s,
          (rw (e, advance_leader)),
          record {
            advances = Advances-same s s refl refl;
            best = (
              inl refl,
              λ j lt le. not-Reached n s j (find_commit-none n s _ j e lt (omega arith)),
            );
          },
        )
        | inr (index, e) ↦
            let h = find_commit-Highest n s _ index e in
            let (t, done, at) = commit_to-some s index h.above (omega (arith, h.within)) in
            (
              t,
              (rw (e, advance_leader) done),
              record {
                advances = commit_to-Advances s t index done;
                best = (
                  inr (
                      rw at (
                        can_commit-Reached n s index (omega (arith, h.above))
                          (omega (arith, h.within)) h.allowed)),
                  λ j lt le.
                      not-Reached n s j (h.highest j (omega (arith, at)) (omega (arith, h.within))),
                );
              },
            )
      ]

  -- The leader after it has noted how far a follower is.
  abbrev pub noted : RaftState Rng → NodeId → ℕ → RaftState Rng
  noted s from match_index = record s {
    match_index = Map.insert from match_index s.match_index;
    next_index = Map.insert from (add_u64 match_index 1) s.next_index;
  }

  -- A leader whose commit index lies within its log never panics on a follower's success. Its new
  -- commit index is the highest index of the log whose entry is of the current term and that a
  -- majority, the leader included, has reached by what the followers reported; where there is none
  -- above the old index, that stays. The entries from the old index to the new one come out, in
  -- the order of the log.
  pub success-LeaderCommits :
      (n : RaftNode) (s : RaftState Rng) (from : NodeId) (term match_index : ℕ)
      → s.role ≡ Role.leader
      → term ≤ s.current_term
      → s.commit_index ≤ length s.log
      → (t : RaftState Rng) × (on_append_entries_response n s from term true match_index
          ≡ some (t, []))
        × LeaderCommits n (noted s from match_index) t
  unfolding on_append_entries_response on_success
  success-LeaderCommits n s from term match_index leads current inside =
      let (t, done, c) = advance_leader-LeaderCommits n (noted s from match_index) inside in
      (t, ground arith, c)
