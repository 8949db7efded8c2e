-- ===== src/Raft/CatchUp/Follower.antt =====
-- src/consensus/raft/state.rs: what a follower makes of the entries that its leader sends.
use Prim.Native.Nat.{min}
use bft_consensus_bench.Base.{
  get_elem?-some, ℕ, zero, suc, ◌+◌, ◌-◌, ◌≤◌, ◌<◌, ◌≡◌, refl, ◌∙◌, sym, subst, ◌⊎◌, inl, inr, true,
  false, some, List, arith, ltb, ◌==◌, length, get_elem?, take, drop, sub_u64, u64_mod,
  Option-cases, Bool-cases, ==_iff,
}
use bft_consensus_bench.Base.Map
use bft_consensus_bench.Types.{NodeId}
use bft_consensus_bench.Network.{NetworkMessage, RaftMessage, LogEntry}
use bft_consensus_bench.Raft.State.{
  RaftNode, RaftState, GenRange, send, build_append_entries, reset_election_timeout,
}
use bft_consensus_bench.Raft.Replication.{
  append_all, check_prev, consistent, commit_to, slice, follow, answer, advance_follower,
  accept_entries, on_append_entries,
}
use bft_consensus_bench.Raft.Node.{handle_message, handle_raft}
use bft_consensus_bench.Raft.Commit.{check_cases}
use bft_consensus_bench.Raft.Log.{IsIndexed}
use bft_consensus_bench.Consensus.{msg_to}
use bft_consensus_bench.Raft.Matching.{
  Matches, take-Matches, take_all, length-of_prefix, append_all-Matches,
}

-- The entry of the leader's log before place `prev`, as a message names it.
abbrev pub IsPrev : List LogEntry → ℕ → ℕ → Type 0
IsPrev log prev prev_term =
    (prev ≡ 0) ⊎ ((x : LogEntry) × (get_elem? log (prev - 1) ≡ some x) × (x.term ≡ prev_term))

-- A consistent log is the leader's up to the entry that the check looks at.
consistent-prefix :
    (log log' : List LogEntry) (prev prev_term : ℕ)
    → IsPrev log prev prev_term
    → Matches log log'
    → check_prev log' prev prev_term ≡ consistent
    → take prev log' ≡ take prev log
unfolding check_prev
consistent-prefix log log' prev prev_term (inl e) h c = rw e refl
consistent-prefix log log' zero prev_term (inr (x, here, et)) h c = refl
consistent-prefix log log' (suc k) prev_term (inr (x, here, et)) h c =
    let i : suc k - 1 ≡ k = omega arith in
    elim (Option-cases (get_elem? log' k)) [
      | inl e ↦ absurd (ground arith)
      | inr (y, e) ↦
          let same : (y.term == prev_term) ≡ true = ground arith in
          h k x y (subst (λ j. get_elem? log j ≡ some x) i here) e (et ∙ sym ((==_iff _ _).0 same))
    ]

module _ {Rng : Type 0} where
  -- What a follower in state `t` makes of a leader's message about the entries from `prev` on.
  pub record Refuses (m : RaftNode) (log : List LogEntry) (t t' : RaftState Rng) (prev : ℕ)
      (from : NodeId) (out : List NetworkMessage) : Type 0 where
    pub some_before : 0 < prev
    pub same_commit : t'.commit_index ≡ t.commit_index
    pub answers : out ≡ answer m t' from false (length t'.log)

  pub record Accepts (m : RaftNode) (log : List LogEntry) (t t' : RaftState Rng) (from : NodeId)
      (out : List NetworkMessage) : Type 0 where
    pub has_all : take (length log) t'.log ≡ log
    pub answers : out ≡ answer m t' from true (length t'.log)

  advance_follower-some :
      (t : RaftState Rng) (leader_commit : ℕ)
      → t.commit_index ≤ length t.log
      → (t' : RaftState Rng) × (advance_follower t leader_commit ≡ some t')
        × (t'.log ≡ t.log)
        × (t'.current_term ≡ t.current_term)
  unfolding advance_follower commit_to slice
  advance_follower-some t leader_commit le = elim (Bool-cases (ltb t.commit_index leader_commit)) [
    | inl ahead ↦ elim (Option-cases (commit_to t (min leader_commit (length t.log)))) [
      | inl e ↦ absurd (ground arith)
      | inr (t', e) ↦ (t', ground arith, ground arith, ground arith)
    ]
    | inr behind ↦ (t, ground arith, refl, refl)
  ]

  follower-answers :
      (gen_range : GenRange Rng) (m : RaftNode) (t : RaftState Rng) (from : NodeId) (term : ℕ)
      (leader : NodeId) (prev prev_term leader_commit : ℕ) (log : List LogEntry)
      → t.current_term ≤ term
      → IsIndexed 0 log
      → length log + 1 < u64_mod
      → prev ≤ length log
      → t.commit_index ≤ length log
      → IsPrev log prev prev_term
      → Matches log t.log
      → (t' : RaftState Rng) × (out : List NetworkMessage) × (on_append_entries gen_range m t from
            term leader prev prev_term
            (drop prev log)
            leader_commit
          ≡ some (t', out))
        × Matches log t'.log
        × (t'.current_term ≡ term)
        × (Refuses m log t t' prev from out ⊎ Accepts m log t t' from out)
  unfolding on_append_entries follow reset_election_timeout accept_entries check_prev
  follower-answers gen_range m t from term leader prev prev_term leader_commit log current ix small
        inside committed before h =
      let u = follow gen_range t term leader in
      let cut = record u { log = take (prev - 1) u.log } in
      let up_to_date : ltb term t.current_term ≡ false = ground arith in
      elim (check_cases (check_prev u.log prev prev_term)) [
        | inl (inl e) ↦ (
          u,
          answer m u from false (length u.log),
          ground arith,
          h,
          refl,
          inl (record { some_before = ground arith; same_commit = refl; answers = refl }),
        )
        | inl (inr e) ↦ (
          cut,
          answer m cut from false (length cut.log),
          ground arith,
          take-Matches _ log t.log h,
          refl,
          inl (record { some_before = ground arith; same_commit = refl; answers = refl }),
        )
        | inr e ↦
            let same = consistent-prefix log t.log prev prev_term before h e in
            let (all, h') = append_all-Matches prev log t.log inside small ix same h in
            let full : take (length log) (append_all t.log (drop prev log))
                ≡ take (length log) log =
              all ∙ sym (take_all (length log) log (omega arith)) in
            let long =
              length-of_prefix (length log) log (append_all t.log (drop prev log)) full
                (omega arith) in
            let v = record u { log = append_all t.log (drop prev log) } in
            let (t', done, same_log, same_term) =
              advance_follower-some v leader_commit (omega (arith, long)) in
            (
              t',
              answer m t' from true (length t'.log),
              ground arith,
              subst (Matches log) (sym same_log) h',
              same_term,
              inr (record { has_all = rw same_log all; answers = refl }),
            )
      ]

  -- The message that a leader sends to a follower whose next index is `next`.
  leader-sends :
      (n : RaftNode) (s : RaftState Rng) (peer : NodeId) (next : ℕ)
      → Map.get peer s.next_index ≡ some next
      → 1 ≤ next
      → next ≤ length s.log + 1
      → length s.log + 1 < u64_mod
      → (prev_term : ℕ) × (build_append_entries n s peer
          ≡ send n peer (
              RaftMessage.append_entries s.current_term n.id
                (next - 1)
                prev_term
                (drop (next - 1) s.log)
                s.commit_index))
        × IsPrev s.log (next - 1) prev_term
  unfolding build_append_entries
  leader-sends n s peer next at lo hi small =
      let wraps : sub_u64 next 1 ≡ next - 1 = omega arith in
      elim (Bool-cases (ltb 0 (next - 1))) [
        | inl q ↦
            let (x, here) = get_elem?-some s.log (next - 1 - 1) (ground arith) in
            (x.term, rw (at, wraps, q, here) refl, inr (x, here, refl))
        | inr q ↦ (0, rw (at, wraps, q) refl, inl (ground arith))
      ]

  pub follower-receives :
      (gen_range : GenRange Rng) (n m : RaftNode) (next : ℕ) (s t : RaftState Rng)
      → t.current_term ≤ s.current_term
      → IsIndexed 0 s.log
      → length s.log + 1 < u64_mod
      → t.commit_index ≤ length s.log
      → Map.get m.id s.next_index ≡ some next
      → 1 ≤ next
      → next ≤ length s.log + 1
      → Matches s.log t.log
      → (t' : RaftState Rng) × (out : List NetworkMessage) × (handle_message gen_range m t
            (build_append_entries n s m.id)
          ≡ some (t', out))
        × Matches s.log t'.log
        × (t'.current_term ≡ s.current_term)
        × (Refuses m s.log t t' (next - 1) n.id out ⊎ Accepts m s.log t t' n.id out)
  unfolding handle_message handle_raft send msg_to
  follower-receives gen_range n m next s t cur ix small ct at lo hi h =
      let (pt, sent, before) = leader-sends n s m.id next at lo hi small in
      let (t', out, answered, h', term, how) =
        follower-answers gen_range m t n.id s.current_term n.id (next - 1) pt s.commit_index s.log
          cur ix small (omega arith) ct before h in
      (
        t',
        out,
        subst (λ msg. handle_message gen_range m t msg ≡ some (t', out)) (sym sent) answered,
        h',
        term,
        how,
      )
