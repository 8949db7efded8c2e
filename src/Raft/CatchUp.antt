-- ===== src/Raft/CatchUp.antt =====
-- src/consensus/raft/state.rs: the exchange by which a follower gets the log of its leader.
pub mod Follower
mod Tests
use Prim.Native.Nat.{min}
use bft_consensus_bench.Base.{
  ℕ, zero, suc, ◌+◌, ◌-◌, ◌≤◌, ◌<◌, ◌≡◌, refl, ◌∙◌, sym, ap, subst, ◌⊎◌, inl, inr, Bool, true,
  false, Option, none, some, List, [], ◌∷◌, ◌>>=◌, arith, ltb, ◌==◌, length, get_elem?, take, drop,
  sub_u64, u64_mod, Option-cases, Bool-cases, ==_iff,
}
use bft_consensus_bench.Base.Map
use bft_consensus_bench.Types.{NodeId}
use bft_consensus_bench.Network.{NetworkMessage, RaftMessage, LogEntry}
use bft_consensus_bench.Raft.State.{
  RaftNode, RaftState, GenRange, Role, send, build_append_entries, reset_election_timeout,
}
use bft_consensus_bench.Raft.Replication.{
  append_all, check_prev, missing, conflict, consistent, PrevCheck, commit_to, slice, follow,
  answer, advance_follower, accept_entries, on_append_entries, on_append_entries_response, back_off,
}
use bft_consensus_bench.Raft.Node.{handle_message, handle_raft}
use bft_consensus_bench.Raft.Log.{IsIndexed}
use bft_consensus_bench.Raft.Commit.Leader.{LeaderCommits, noted, success-LeaderCommits}
use bft_consensus_bench.Raft.Commit.Steps.{Advances}
use bft_consensus_bench.Consensus.{msg_to}
use bft_consensus_bench.Raft.Matching.{
  Matches, take-Matches, take_all, length-of_prefix, append_all-Matches,
}
use bft_consensus_bench.Raft.CatchUp.Follower.{Refuses, Accepts, follower-receives}

module _ {Rng : Type 0} where
  -- The messages of a leader to a follower and the answers back, each delivered before the next is
  -- sent, until the leader has nothing more to say; `none` is a panic, or no end within `rounds`.
  unfoldable pub exchange :
      GenRange Rng
      → RaftNode
      → RaftNode
      → ℕ
      → RaftState Rng
      → RaftState Rng
      → List NetworkMessage
      → Option (RaftState Rng × RaftState Rng)
  unfolding handle_message
  exchange gen_range n m rounds s t [] = some (s, t)
  exchange gen_range n m zero s t (msg ∷ msgs) = none
  exchange gen_range n m (suc rounds) s t (msg ∷ msgs) = handle_message gen_range m t msg >>= λ r.
      elim r.1 [
        | [] ↦ some (s, r.0)
        | back ∷ _ ↦
            handle_message gen_range n s back >>= λ q. exchange gen_range n m rounds q.0 r.0 q.1
      ]

  -- What the leader makes of the answers.
  leader-retries :
      (gen_range : GenRange Rng) (n m : RaftNode) (s t : RaftState Rng) (next match_index : ℕ)
      → s.role ≡ Role.leader
      → Map.get m.id s.next_index ≡ some next
      → 1 < next
      → t.current_term ≡ s.current_term
      → let s' = record s { next_index = Map.insert m.id (next - 1) s.next_index } in
        handle_message gen_range n s
          (send m n.id (RaftMessage.append_entries_response t.current_term false match_index))
        ≡ some (s', build_append_entries n s' m.id ∷ [])
  unfolding handle_message handle_raft on_append_entries_response back_off send msg_to
  leader-retries gen_range n m s t next match_index leads at lt same = ground arith

  leader-notes :
      (gen_range : GenRange Rng) (n m : RaftNode) (s t : RaftState Rng) (match_index : ℕ)
      → s.role ≡ Role.leader
      → s.commit_index ≤ length s.log
      → t.current_term ≡ s.current_term
      → (s' : RaftState Rng) × (handle_message gen_range n s
            (send m n.id (RaftMessage.append_entries_response t.current_term true match_index))
          ≡ some (s', []))
        × LeaderCommits n (noted s m.id match_index) s'
  unfolding handle_message handle_raft send msg_to
  leader-notes gen_range n m s t match_index leads inside same =
      success-LeaderCommits n s m.id t.current_term match_index leads (omega arith) inside

  exchange-round :
      (gen_range : GenRange Rng) (n m : RaftNode) (rounds : ℕ) (s s' t t' : RaftState Rng)
      (msg back : NetworkMessage) (more : List NetworkMessage)
      → handle_message gen_range m t msg ≡ some (t', back ∷ [])
      → handle_message gen_range n s back ≡ some (s', more)
      → exchange gen_range n m (suc rounds) s t (msg ∷ [])
        ≡ exchange gen_range n m rounds s' t' more
  unfolding exchange
  exchange-round gen_range n m rounds s s' t t' msg back more e f = rw (e, f) refl

  exchange-ends :
      (gen_range : GenRange Rng) (n m : RaftNode) (rounds : ℕ) (s t : RaftState Rng)
      → exchange gen_range n m rounds s t [] ≡ some (s, t)
  unfolding exchange
  exchange-ends gen_range n m zero s t = refl
  exchange-ends gen_range n m (suc rounds) s t = refl

  -- A leader and a follower after their exchange.
  pub record CatchesUp (s s' t' : RaftState Rng) : Type 0 where
    pub has_all : take (length s.log) t'.log ≡ s.log
    pub matches : Matches s.log t'.log
    pub advances : Advances s s'

  -- After a refusal the exchange goes on with the next index one back.
  refused_round :
      (gen_range : GenRange Rng) (n m : RaftNode) (rounds next : ℕ) (s t t' : RaftState Rng)
      (out : List NetworkMessage)
      → let u = record s { next_index = Map.insert m.id (next - 1) s.next_index } in
        s.role ≡ Role.leader
        → handle_message gen_range m t (build_append_entries n s m.id) ≡ some (t', out)
        → t'.current_term ≡ s.current_term
        → Refuses m s.log t t' (next - 1) n.id out
        → ((s'' : RaftState Rng) × (t'' : RaftState Rng) × (exchange gen_range n m rounds u t'
                (build_append_entries n u m.id ∷ [])
              ≡ some (s'', t''))
            × CatchesUp u s'' t'')
        → Map.get m.id s.next_index ≡ some next
        → (s'' : RaftState Rng) × (t'' : RaftState Rng) × (exchange gen_range n m
              (suc rounds)
              s
              t
              (build_append_entries n s m.id ∷ [])
            ≡ some (s'', t''))
          × CatchesUp s s'' t''
  unfolding answer
  refused_round gen_range n m rounds next s t t' out leads received term r (s'', t'', done, c) at =
      let u = record s { next_index = Map.insert m.id (next - 1) s.next_index } in
      let retried =
        leader-retries gen_range n m s t' next (length t'.log) leads at
          (omega (arith, r.some_before)) term in
      let received' = received ∙ ap (λ o. some (t', o)) r.answers in
      (
        s'',
        t'',
        exchange-round gen_range n m rounds s u t t' (build_append_entries n s m.id) _ _ received'
              retried
            ∙ done,
        record {
          has_all = c.has_all;
          matches = c.matches;
          advances = record {
            grows = c.advances.grows;
            bounded = c.advances.bounded;
            output = c.advances.output;
          };
        },
      )

  -- After a success the leader notes it and says no more.
  accepted_round :
      (gen_range : GenRange Rng) (n m : RaftNode) (rounds : ℕ) (s t t' : RaftState Rng)
      (out : List NetworkMessage)
      → s.role ≡ Role.leader
      → s.commit_index ≤ length s.log
      → handle_message gen_range m t (build_append_entries n s m.id) ≡ some (t', out)
      → t'.current_term ≡ s.current_term
      → Matches s.log t'.log
      → Accepts m s.log t t' n.id out
      → (s' : RaftState Rng) × (t'' : RaftState Rng) × (exchange gen_range n m
            (suc rounds)
            s
            t
            (build_append_entries n s m.id ∷ [])
          ≡ some (s', t''))
        × CatchesUp s s' t''
  unfolding answer
  accepted_round gen_range n m rounds s t t' out leads inside received term h' a =
      let (s', noted_, c) = leader-notes gen_range n m s t' (length t'.log) leads inside term in
      let received' = received ∙ ap (λ o. some (t', o)) a.answers in
      (
        s',
        t',
        exchange-round gen_range n m rounds s s' t t' (build_append_entries n s m.id) _ _ received'
              noted_
            ∙ exchange-ends gen_range n m rounds s' t',
        record {
          has_all = a.has_all;
          matches = h';
          advances = record {
            grows = c.advances.grows;
            bounded = c.advances.bounded;
            output = c.advances.output;
          };
        },
      )

  -- A leader whose log is indexed from 1 sends its log to a follower of no later term whose log
  -- matches the leader's, from the next index that it keeps for the follower. Both commit indices
  -- lie within the leader's log. After at most so many messages of the leader as that next index
  -- says the exchange ends, without a panic: the follower then has the whole log of the leader,
  -- perhaps with more behind it, and its log still matches. The commit index of the leader has not
  -- fallen, and the leader has let out exactly its log from the old one to the new one.
  pub exchange-CatchesUp :
      (gen_range : GenRange Rng) (n m : RaftNode) (rounds next : ℕ) (s t : RaftState Rng)
      → next ≤ rounds
      → s.role ≡ Role.leader
      → t.current_term ≤ s.current_term
      → IsIndexed 0 s.log
      → length s.log + 1 < u64_mod
      → s.commit_index ≤ length s.log
      → t.commit_index ≤ length s.log
      → Map.get m.id s.next_index ≡ some next
      → 1 ≤ next
      → next ≤ length s.log + 1
      → Matches s.log t.log
      → (s' : RaftState Rng) × (t' : RaftState Rng) × (exchange gen_range n m rounds s t
            (build_append_entries n s m.id ∷ [])
          ≡ some (s', t'))
        × CatchesUp s s' t'
  exchange-CatchesUp gen_range n m zero next s t enough leads cur ix small ci ct at lo hi h =
      absurd (omega arith)
  exchange-CatchesUp gen_range n m (suc rounds) next s t enough leads cur ix small ci ct at lo hi
        h =
      let (t', out, received, h', term, how) =
        follower-receives gen_range n m next s t cur ix small ct at lo hi h in
      elim how [
        | inl r ↦
            refused_round gen_range n m rounds next s t t' out leads received term r
              (exchange-CatchesUp gen_range n m rounds (next - 1)
                (record s { next_index = Map.insert m.id (next - 1) s.next_index }) t' (omega arith)
                leads (omega (arith, term)) ix small ci (omega (arith, r.same_commit))
                (Map.get-insert_self m.id (next - 1) s.next_index) (omega (arith, r.some_before))
                (omega arith) h')
              at
        | inr a ↦ accepted_round gen_range n m rounds s t t' out leads ci received term h' a
      ]
