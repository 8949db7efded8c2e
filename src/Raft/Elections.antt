-- ===== src/Raft/Elections.antt =====
-- src/consensus/raft/state.rs: majorities, and how elections are won.
use bft_consensus_bench.Base.{
  ℕ, zero, suc, ◌+◌, ◌≤◌, ◌<◌, ◌≡◌, Bool, true, List, [], arith, length, All, u64_mod, add_u64, ◌⊎◌,
}
use bft_consensus_bench.Base.NodeSet.{contains, IsDistinct}
use bft_consensus_bench.Base.Count.{honest_overlap}
use bft_consensus_bench.Types.{NodeId}
use bft_consensus_bench.Raft.State.{
  Role, RaftNode, RaftState, majority, fault_tolerance, init_indices,
}
use bft_consensus_bench.Raft.Election.{win_election, on_request_vote_response}

-- Two majorities of a cluster share a node, and the nodes that are left when as many as the
-- tolerance crash are still a majority.
pub majority_intersection :
    (n : RaftNode) (one two : List NodeId)
    → 0 < n.cluster_size
    → n.cluster_size < u64_mod
    → IsDistinct one
    → IsDistinct two
    → All (λ x. x < n.cluster_size) one
    → All (λ x. x < n.cluster_size) two
    → majority n ≤ length one
    → majority n ≤ length two
    → ((x : NodeId) × (contains x one ≡ true) × (contains x two ≡ true))
      × (majority n + fault_tolerance n ≤ n.cluster_size)
unfolding majority fault_tolerance
majority_intersection n one two pos small d1 d2 a1 a2 m1 m2 =
    let (x, lt, in1, in2, ok) =
      honest_overlap n.cluster_size one two [] d1 d2 a1 a2 (omega arith) in
    ((x, in1, in2), omega arith)

module _ {Rng : Type 0} (n : RaftNode) where
  -- The same answer again and again.
  unfoldable pub answers : RaftState Rng → ℕ → ℕ → RaftState Rng
  answers s term zero = s
  answers s term (suc k) = answers (on_request_vote_response n s term true).0 term k

  -- A node becomes leader by an answer only if it is a candidate, the answer grants the vote, and
  -- with it the votes counted in this election reach a majority.
  response-leads :
      (s : RaftState Rng) (term : ℕ) (granted : Bool)
      → (on_request_vote_response n s term granted).0.role ≡ Role.leader
      → (s.role ≡ Role.leader)
        ⊎ ((s.role ≡ Role.candidate)
            × ((granted ≡ true) × (majority n ≤ add_u64 s.votes_received 1)))
  unfolding on_request_vote_response win_election init_indices
  response-leads s term granted h = ground arith

  -- The answers carry no voter, and their term may be an old one: a candidate that lacks some votes
  -- (`suc k`, at least one) is made leader by as many copies of one granted answer of its own or of
  -- any earlier term, in a cluster whose majority is below 2 ^ 64.
  pub one_voter_elects :
      (s : RaftState Rng) (term k : ℕ)
      → s.role ≡ Role.candidate
      → term ≤ s.current_term
      → majority n < u64_mod
      → s.votes_received + suc k ≡ majority n
      → (answers s term (suc k)).role ≡ Role.leader
  unfolding answers on_request_vote_response win_election init_indices
  one_voter_elects s term zero cand old small lacks = ground arith
  one_voter_elects s term (suc k) cand old small lacks =
      let next = record s { votes_received = add_u64 s.votes_received 1 } in
      ground (arith, one_voter_elects next term k)
