-- ===== src/Cluster/Runs.antt =====
-- Runs of small clusters.
use bft_consensus_bench.Base.{ℕ, ◌+◌, ◌%◌, ◌≡◌, refl, Option, some, ◌>>=◌, [], ◌∷◌, ltb, length}
use bft_consensus_bench.Base.NodeSet
use bft_consensus_bench.Base.Map
use bft_consensus_bench.Pbft
use bft_consensus_bench.Hotstuff
use bft_consensus_bench.Cluster.CommitLog
use bft_consensus_bench.Types.{payload_eq, Payload, Sha256}
use bft_consensus_bench.Consensus.{broadcast, peer_ids, ConsensusNode, ProposeResult, accepted}
use bft_consensus_bench.Pbft.Node.{pbft_consensus}
use bft_consensus_bench.Hotstuff.Node.{hotstuff_consensus}
use bft_consensus_bench.Raft.State.{GenRange}
use bft_consensus_bench.Cluster.Fault.{with_rng, has_pair, is_byzantine, Rolls}
use bft_consensus_bench.Cluster.CommitLog.{InvariantResult, pass, fail}
use bft_consensus_bench.Cluster.State.{Cluster, check_invariants}
use bft_consensus_bench.Cluster.Delivery.{run_to_completion}
use bft_consensus_bench.Cluster.Sim.{propose, collect_and_record_commits}
use bft_consensus_bench.Cluster.Setup.{new_pbft, new_hotstuff}

-- No drops; the generator counts.
abbrev pub no_rolls : Rolls ℕ ℕ
no_rolls = record { zero_rate = 0; clamp = λ r. r; lt_rate = ltb; gen = λ rng. (rng, rng + 1) }

abbrev counting : GenRange ℕ
counting rng low high = (low + rng % 16, rng + 7)

abbrev pub sum_digest : Sha256
sum_digest bytes = length bytes ∷ bytes

abbrev pub hello : Payload
hello = record { bytes = 104 ∷ 105 ∷ [] }

abbrev passes : InvariantResult
passes = record {
  agreement = pass;
  validity = pass;
  integrity = pass;
  termination = pass;
  total_order = pass;
}

-- The messages sent, and the invariants, after one proposal has run its course.
unfoldable observe :
    {Node : Type 0}
    → ConsensusNode Node
    → Cluster Node ℕ ℕ
    → Option (ProposeResult × (ℕ × InvariantResult))
unfolding propose run_to_completion collect_and_record_commits check_invariants
observe protocol c = do
  (c1, r) ← propose protocol c hello
  (c2, steps) ← run_to_completion protocol no_rolls sum_digest 100 c1
  some (r, (c2.stats.messages_sent, check_invariants (collect_and_record_commits protocol c2).0 1))

-- Four PBFT replicas: 3 pre-prepares, and from each replica 3 prepares and 3 commits. Every node
-- has committed, and all invariants hold.
pbft_cluster_commits :
    observe (pbft_consensus sum_digest) (new_pbft no_rolls 4 0) ≡ some (accepted, (27, passes))
unfolding observe pbft_consensus new_pbft NodeSet.contains with_rng Pbft.State.primary_for_view
    Pbft.State.init Pbft.State.new Pbft.State.broadcast_pbft broadcast peer_ids has_pair Map.get
    is_byzantine Map.insert Pbft.State.prepare_threshold NodeSet.insert Pbft.State.quorum
    CommitLog.check CommitLog.record_commits CommitLog.record_proposal payload_eq CommitLog.new
pbft_cluster_commits = refl

-- Four HotStuff replicas: 3 messages to the followers, and 3 back, per round; the leader's own
-- votes are not sent.
hotstuff_cluster_commits :
    observe (hotstuff_consensus sum_digest) (new_hotstuff no_rolls 4 0)
    ≡ some (accepted, (21, passes))
unfolding observe hotstuff_consensus new_hotstuff NodeSet.contains with_rng
    Hotstuff.State.leader_for_view Hotstuff.State.init Hotstuff.State.new
    Hotstuff.State.broadcast_hotstuff broadcast peer_ids has_pair Map.get is_byzantine Map.insert
    NodeSet.insert Hotstuff.State.quorum CommitLog.check CommitLog.record_commits
    CommitLog.record_proposal payload_eq CommitLog.new Hotstuff.State.phase_ord
hotstuff_cluster_commits = refl
