-- ===== src/Raft/Safety.antt =====
-- src/consensus/raft/state.rs: the nodes that vote for two candidates of one term.
use bft_consensus_bench.Base.{
  ℕ, ◌≤◌, ◌<◌, ◌≡◌, refl, ◌∙◌, sym, subst, ap, true, none, some, List, [], ◌∷◌, arith, u64_mod, inl,
  inr, Option-cases, ◌⊎◌, All, length, ◌==◌, Bool-cases, ==_iff,
}
use bft_consensus_bench.Base.NodeSet.{contains, IsDistinct}
use bft_consensus_bench.Types.{NodeId}
use bft_consensus_bench.Network.{NetworkMessage, ProtocolMessage, RaftMessage}
use bft_consensus_bench.Raft.State.{RaftNode, RaftState, GenRange, majority}
use bft_consensus_bench.Raft.Election.{on_request_vote, start_election, tick}
use bft_consensus_bench.Raft.Node.{handle_raft, handle_message}
use bft_consensus_bench.Raft.Calls.{Call, receives, ticks, after}
use bft_consensus_bench.Raft.Votes.{NoWrap, Grants, granted_vote}
use bft_consensus_bench.Raft.Votes.Methods.{KeepsVote, after-KeepsVote}
use bft_consensus_bench.Raft.Elections.{majority_intersection}

module _ {Rng : Type 0} (gen_range : GenRange Rng) (n : RaftNode) where
  -- The call brings a request for the candidate, which is granted in the term.
  pub record GrantedCall (s : RaftState Rng) (call : Call) (term : ℕ) (candidate : NodeId)
      : Type 0 where
    pub msg : NetworkMessage
    pub asked_term : ℕ
    pub last_index : ℕ
    pub last_term : ℕ
    pub is : call ≡ receives msg
    pub asks :
        msg.payload
        ≡ ProtocolMessage.raft (RaftMessage.request_vote asked_term candidate last_index last_term)
    pub answer : Grants gen_range n s msg.from asked_term candidate last_index last_term
    pub within :
        let r = on_request_vote gen_range n s msg.from asked_term candidate last_index last_term in
        r.0.current_term ≡ term

  -- The call is a tick with which the node stands for election in the term, and votes for itself.
  pub record StoodCall (s : RaftState Rng) (call : Call) (term : ℕ) (candidate : NodeId)
      : Type 0 where
    pub is : call ≡ ticks
    pub starts : (tick gen_range n s).0 ≡ start_election gen_range n s
    pub itself : candidate ≡ n.id
    pub within : (start_election gen_range n s).current_term ≡ term

  -- At some call of the run the node votes for the candidate in the term.
  abbrev pub VotesFor : RaftState Rng → List Call → ℕ → NodeId → Type 0
  VotesFor s [] term candidate = ⊥
  VotesFor s (call ∷ calls) term candidate =
      (GrantedCall s call term candidate ⊎ StoodCall s call term candidate)
      ⊎ (elim (after gen_range n s call) [ none ↦ ⊥ | some t ↦ VotesFor t calls term candidate ])

  -- The node is in the term and its vote in it is for the candidate.
  abbrev Holds : RaftState Rng → ℕ → NodeId → Type 0
  Holds t term candidate = (t.current_term ≡ term) × (t.voted_for ≡ some candidate)

  request_after :
      (s : RaftState Rng) (msg : NetworkMessage) (term index last : ℕ) (candidate : NodeId)
      → msg.payload ≡ ProtocolMessage.raft (RaftMessage.request_vote term candidate index last)
      → after gen_range n s (receives msg)
        ≡ some (on_request_vote gen_range n s msg.from term candidate index last).0
  unfolding after handle_message handle_raft
  request_after s msg term index last candidate e = rw e refl

  tick_after : (s : RaftState Rng) → after gen_range n s ticks ≡ some (tick gen_range n s).0
  unfolding after
  tick_after s = refl

  start-Holds :
      (s : RaftState Rng)
      → Holds (start_election gen_range n s) (start_election gen_range n s).current_term n.id
  unfolding start_election
  start-Holds s = ground arith

  votes_now :
      (s : RaftState Rng) (call : Call) (term : ℕ) (candidate : NodeId)
      → GrantedCall s call term candidate ⊎ StoodCall s call term candidate
      → (t : RaftState Rng) × (after gen_range n s call ≡ some t) × Holds t term candidate
  votes_now s call term candidate (inl g) = (
    (on_request_vote gen_range n s g.msg.from g.asked_term candidate g.last_index g.last_term).0,
    rw g.is (request_after s g.msg g.asked_term g.last_index g.last_term candidate g.asks),
    (
      g.within,
      granted_vote gen_range n s g.msg.from g.asked_term candidate g.last_index g.last_term
          g.answer,
    ),
  )
  votes_now s call term candidate (inr g) =
      let (same, own) = start-Holds s in
      (
        start_election gen_range n s,
        rw g.is (tick_after s ∙ ap some g.starts),
        (g.within, own ∙ ap some (sym g.itself)),
      )

  -- The state after the call, and what the rest of a run says from there.
  later :
      (s : RaftState Rng) (call : Call) (calls : List Call)
      → NoWrap gen_range n s (call ∷ calls)
      → (t : RaftState Rng) → after gen_range n s call ≡ some t
      → KeepsVote s t × NoWrap gen_range n t calls
  later s call calls small t e = (after-KeepsVote gen_range n s t call small.0 e, (rw e at small.1))

  -- A vote later in a run is of no earlier term.
  VotesFor-term :
      (s : RaftState Rng) (calls : List Call) (term : ℕ) (candidate : NodeId)
      → NoWrap gen_range n s calls
      → VotesFor s calls term candidate
      → s.current_term ≤ term
  VotesFor-term s [] term candidate small v = elim v [ ]
  VotesFor-term s (call ∷ calls) term candidate small (inl now) =
      let (t, e, holds) = votes_now s call term candidate now in
      omega (arith, (later s call calls small t e).0.term, holds.0)
  VotesFor-term s (call ∷ calls) term candidate small (inr v) =
      elim (Option-cases (after gen_range n s call)) [
        | inl e ↦ absurd (rw e at v)
        | inr (t, e) ↦
            let (kept, small') = later s call calls small t e in
            omega (arith, kept.term, VotesFor-term t calls term candidate small' (rw e at v))
      ]

  -- While a vote stands, the node votes for no other candidate.
  Holds-one :
      (s : RaftState Rng) (calls : List Call) (term : ℕ) (one two : NodeId)
      → NoWrap gen_range n s calls
      → Holds s term one
      → VotesFor s calls term two
      → one ≡ two
  Holds-one s [] term one two small holds v = elim v [ ]
  Holds-one s (call ∷ calls) term one two small holds (inl now) =
      let (t, e, (in_term, voted)) = votes_now s call term two now in
      let kept = (later s call calls small t e).0 in
      let still : t.voted_for ≡ some one = kept.vote one holds.1 (in_term ∙ sym holds.0) in cc
  Holds-one s (call ∷ calls) term one two small holds (inr v) =
      elim (Option-cases (after gen_range n s call)) [
        | inl e ↦ absurd (rw e at v)
        | inr (t, e) ↦
            let (kept, small') = later s call calls small t e in
            let rest : VotesFor t calls term two = rw e at v in
            let upper = VotesFor-term t calls term two small' rest in
            let same : t.current_term ≡ term = omega (arith, kept.term, upper, holds.0) in
            Holds-one t calls term one two small' (same, kept.vote one holds.1 (same ∙ sym holds.0))
              rest
      ]

  VotesFor-one :
      (s : RaftState Rng) (calls : List Call) (term : ℕ) (one two : NodeId)
      → NoWrap gen_range n s calls
      → VotesFor s calls term one
      → VotesFor s calls term two
      → one ≡ two
  VotesFor-one s [] term one two small v w = elim v [ ]
  VotesFor-one s (call ∷ calls) term one two small (inl v) (inl w) =
      let (t, e, (in_term, voted)) = votes_now s call term one v in
      let (t', e', (in_term', voted')) = votes_now s call term two w in cc
  VotesFor-one s (call ∷ calls) term one two small (inl v) (inr w) =
      let (t, e, holds) = votes_now s call term one v in
      Holds-one t calls term one two (later s call calls small t e).1 holds (rw e at w)
  VotesFor-one s (call ∷ calls) term one two small (inr v) (inl w) =
      let (t, e, holds) = votes_now s call term two w in
      sym (Holds-one t calls term two one (later s call calls small t e).1 holds (rw e at v))
  VotesFor-one s (call ∷ calls) term one two small (inr v) (inr w) =
      elim (Option-cases (after gen_range n s call)) [
        | inl e ↦ absurd (rw e at v)
        | inr (t, e) ↦
            VotesFor-one t calls term one two (later s call calls small t e).1 (rw e at v)
              (rw e at w)
      ]

All-contains :
    (P : NodeId → Type 0) (x : NodeId) (xs : List NodeId) → contains x xs ≡ true → All P xs → P x
unfolding contains
All-contains P x [] h a = absurd (ground arith)
All-contains P x (y ∷ ys) h (p, a) = elim (Bool-cases (x == y)) [
  | inl e ↦ subst P (sym ((==_iff _ _).0 e)) p
  | inr ne ↦ All-contains P x ys (ground arith) a
]

module _ {Rng : Type 0} (gen_range : GenRange Rng) (node : NodeId → RaftNode)
    (start : NodeId → RaftState Rng) (calls : NodeId → List Call) where
  -- In the run of each of these nodes, the node votes for the candidate in the term.
  abbrev pub VotersFor : ℕ → NodeId → List NodeId → Type 0
  VotersFor term candidate =
      All (λ x. VotesFor gen_range (node x) (start x) (calls x) term candidate)

  -- Election safety: whatever calls the nodes of a cluster handle, two candidates that in one term
  -- have the votes of a majority each, granted to requests or cast by a node for itself when it
  -- stands, are the same. Each voter is counted once, each stands below the size of the cluster,
  -- which is positive and below 2 ^ 64, and no call starts at the last term, which would wrap.
  pub election_safety :
      (n : RaftNode) (term : ℕ) (one two : NodeId) (voters_one voters_two : List NodeId)
      → 0 < n.cluster_size
      → n.cluster_size < u64_mod
      → ((x : NodeId) → NoWrap gen_range (node x) (start x) (calls x))
      → IsDistinct voters_one
      → IsDistinct voters_two
      → All (λ x. x < n.cluster_size) voters_one
      → All (λ x. x < n.cluster_size) voters_two
      → majority n ≤ length voters_one
      → majority n ≤ length voters_two
      → VotersFor term one voters_one
      → VotersFor term two voters_two
      → one ≡ two
  election_safety n term one two vs ws pos small_size small d1 d2 a1 a2 m1 m2 for_one for_two =
      let ((x, in1, in2), rest) = majority_intersection n vs ws pos small_size d1 d2 a1 a2 m1 m2 in
      VotesFor-one gen_range (node x) (start x) (calls x) term one two (small x)
        (All-contains _ x vs in1 for_one) (All-contains _ x ws in2 for_two)
