-- ===== src/Hotstuff/LeaderRounds/Tests.antt =====
-- A round of a HotStuff cluster of four: node 1 votes twice in each phase, node 2 once.
use bft_consensus_bench.Base.{◌≡◌, refl, List, [], ◌∷◌, ◌++◌, arith}
use bft_consensus_bench.Base.NodeSet
use bft_consensus_bench.Network.{HotStuffPhaseTag}
use bft_consensus_bench.Consensus.{accepted}
use bft_consensus_bench.Hotstuff.State.{quorum, leader_for_view}
use bft_consensus_bench.Hotstuff.Proposals.{propose}
use bft_consensus_bench.Hotstuff.Calls.{handle_all}
use bft_consensus_bench.Hotstuff.LeaderRounds.{LeaderCommits, proposal, qc, full_round}
use bft_consensus_bench.Hotstuff.LeaderRounds.Slots.{Vote, votes}
use bft_consensus_bench.Hotstuff.LeaderRounds.Votes.{entry}
use bft_consensus_bench.Hotstuff.Tests.{leader, follower, fresh, transfer, some_digest, copy_digest}

abbrev three_votes : List Vote
three_votes = (some_digest, 1) ∷ (some_digest, 1) ∷ (some_digest, 2) ∷ []

full_round_example :
    let proposed = propose copy_digest leader fresh transfer in
    let collected = handle_all leader proposed.0 (
      votes 0 1 HotStuffPhaseTag.prepare three_votes
      ++ votes 0 1 HotStuffPhaseTag.pre_commit three_votes
      ++ votes 0 1 HotStuffPhaseTag.commit three_votes) in
    (proposed.1.0 ≡ accepted)
    × (c : LeaderCommits copy_digest leader fresh transfer collected.0
        (proposed.1.1 ++ collected.1))
    × ((handle_all follower fresh (
          proposal copy_digest fresh transfer
          ∷ qc 0 1 HotStuffPhaseTag.prepare c.c1
          ∷ qc 0 1 HotStuffPhaseTag.pre_commit c.c2
          ∷ qc 0 1 HotStuffPhaseTag.commit c.c3
          ∷ [])).0.committed
        ≡ entry 1 transfer ∷ [])
unfolding quorum leader_for_view NodeSet.insert_all NodeSet.insert NodeSet.contains
full_round_example =
    full_round copy_digest leader fresh transfer three_votes three_votes three_votes follower fresh
      refl (omega arith) (omega arith) (omega arith) (omega arith) refl (omega arith)
