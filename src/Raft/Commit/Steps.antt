-- ===== src/Raft/Commit/Steps.antt =====
-- src/consensus/raft/state.rs: the entries between two commit indices.
use bft_consensus_bench.Base.{
  ℕ, ◌-◌, ◌≤◌, ◌≡◌, sym, ◌⊎◌, inl, some, List, [], ◌++◌, map, arith, length, take, drop,
}
use mathlib.Core.List.{append-nil}
use bft_consensus_bench.Network.{LogEntry}
use bft_consensus_bench.Consensus.{CommittedEntry}
use bft_consensus_bench.Raft.State.{RaftState}
use bft_consensus_bench.Raft.Replication.{slice, to_committed, commit_to}

-- The entries between the two commit indices, in the order of the log.
abbrev pub between : List LogEntry → ℕ → ℕ → List CommittedEntry
between log old new = map to_committed (take (new - old) (drop old log))

between_self : (log : List LogEntry) (k : ℕ) → between log k k ≡ []
between_self log k = let e : k - k ≡ 0 = omega arith in rw e

module _ {Rng : Type 0} where
  -- The step of a node from `s` to `t`, as far as it commits.
  pub record Advances (s t : RaftState Rng) : Type 0 where
    pub grows : s.commit_index ≤ t.commit_index
    pub bounded : (t.commit_index ≡ s.commit_index) ⊎ (t.commit_index ≤ length t.log)
    pub output : t.committed ≡ s.committed ++ between t.log s.commit_index t.commit_index

  pub commit_to-Advances :
      (s t : RaftState Rng) (index : ℕ) → commit_to s index ≡ some t → Advances s t
  unfolding commit_to slice
  commit_to-Advances s t index h = record {
    grows = ground arith;
    bounded = ground arith;
    output = ground arith;
  }

  pub Advances-same :
      (s t : RaftState Rng)
      → t.commit_index ≡ s.commit_index
      → t.committed ≡ s.committed
      → Advances s t
  Advances-same s t ei ec = record {
    grows = omega arith;
    bounded = inl ei;
    output = rw (ei, ec, between_self t.log s.commit_index) (sym (append-nil s.committed));
  }
