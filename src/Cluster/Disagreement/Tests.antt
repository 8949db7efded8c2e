-- ===== src/Cluster/Disagreement/Tests.antt =====
-- A cluster of four whose primary equivocates between replicas 2 and 1.
use bft_consensus_bench.Base.{ℕ, ◌≡◌, ◌≢◌, refl, true, List, [], ◌∷◌, ◌++◌, arith}
use bft_consensus_bench.Base.NodeSet
use bft_consensus_bench.Base.Map
use bft_consensus_bench.Types.{Digest}
use bft_consensus_bench.Network.{PbftMessage}
use bft_consensus_bench.Pbft.State.{new, init, quorum, prepare_threshold}
use bft_consensus_bench.Pbft.NormalCase.Votes.{Vote, prepares, commits, entry}
use bft_consensus_bench.Cluster.Fault.{FaultConfig, ByzantineBehavior}
use bft_consensus_bench.Cluster.Tamper.{alter}
use bft_consensus_bench.Cluster.CommitLog
use bft_consensus_bench.Cluster.CommitLog.{pass, check_agreement, record_commits}
use bft_consensus_bench.Cluster.Runs.{sum_digest, hello}
use bft_consensus_bench.Cluster.Disagreement.{Ready, serves, equivocation_splits}

abbrev faults : FaultConfig ℕ ℕ
faults = record {
  drop_rate = 0;
  partitions = [];
  isolated_nodes = [];
  byzantine_nodes = (0, ByzantineBehavior.equivocate ∷ []) ∷ [];
  rng = 0;
}

abbrev some_digest : Digest
some_digest = record { bytes = 1 ∷ [] }

abbrev three_votes : List Vote
three_votes = (some_digest, 1) ∷ (some_digest, 2) ∷ (some_digest, 3) ∷ []

replica-Ready :
    (id : ℕ)
    → NodeSet.contains id (1 ∷ 2 ∷ []) ≡ true
    → Ready (new id 4) init three_votes three_votes
unfolding new init quorum prepare_threshold NodeSet.insert_all NodeSet.insert NodeSet.contains
replica-Ready id h = record {
  calm = refl;
  empty = refl;
  prepared = omega arith;
  full = ground arith;
}

equivocation_splits_example :
    let vs = prepares 0 1 three_votes ++ commits 0 1 three_votes in
    let at_two =
      serves sum_digest faults 0
        (new 2 4)
        init
        (PbftMessage.pre_prepare 0 1 some_digest hello)
        vs in
    let at_one =
      serves sum_digest faults 0
        (new 1 4)
        init
        (PbftMessage.pre_prepare 0 1 some_digest hello)
        vs in
    (at_two ≡ entry 1 hello ∷ [])
    × (at_one ≡ entry 1 (alter hello) ∷ [])
    × (check_agreement
          (record_commits (record_commits CommitLog.new 2 at_two) 1 at_one)
          (2 ∷ 1 ∷ [])
        ≢ pass)
unfolding init new Map.get NodeSet.contains
equivocation_splits_example =
    equivocation_splits sum_digest faults 0 (new 2 4) (new 1 4) init init 1 some_digest hello
      three_votes three_votes refl refl refl refl (omega arith) (omega arith) (replica-Ready 2 refl)
      (replica-Ready 1 refl)
