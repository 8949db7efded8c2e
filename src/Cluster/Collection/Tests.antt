-- ===== src/Cluster/Collection/Tests.antt =====
-- Clusters of four, through a proposal and its messages.
use bft_consensus_bench.Base.{
  ℕ, ◌≡◌, ◌⊎◌, refl, Bool, true, false, Option, none, some, List, [], ◌∷◌,
}
use bft_consensus_bench.Base.NodeSet
use bft_consensus_bench.Base.Map
use bft_consensus_bench.Pbft
use bft_consensus_bench.Pbft.State.{PbftNode, PbftState}
use bft_consensus_bench.Pbft.Node.{pbft_consensus}
use bft_consensus_bench.Pbft.Outputs.{pbft_outputs}
use bft_consensus_bench.Consensus.{broadcast, peer_ids}
use bft_consensus_bench.Cluster.Fault.{with_rng, has_pair, is_byzantine}
use bft_consensus_bench.Cluster.State.{Cluster, record_all}
use bft_consensus_bench.Cluster.Setup.{new_pbft}
use bft_consensus_bench.Cluster.Sim.{collect_and_record_commits}
use bft_consensus_bench.Cluster.Runs.{no_rolls, sum_digest, hello}
use bft_consensus_bench.Cluster.Collection.{run_ops-Collected}
use bft_consensus_bench.Cluster.Collection.Calls.{
  Op, proposes, ticks, runs, collects, some_drains, run_ops,
}
use bft_consensus_bench.Cluster.Collection.Views.{AppendOnly, all_delivered, logs}
use bft_consensus_bench.Cluster.CommitLog.{CommitLog}
use bft_consensus_bench.Cluster.Collection.Polling.{AreEmpty, ids}

abbrev PbftCluster : Type 0
PbftCluster = Cluster (PbftNode × PbftState) ℕ ℕ

abbrev start : PbftCluster
start = new_pbft no_rolls 4 0

abbrev ops : List (Op ℕ ℕ)
ops = proposes hello ∷ runs 2 ∷ collects ∷ runs 9 ∷ ticks ∷ []

abbrev Outcome : Type 0
Outcome = PbftCluster × CommitLog

abbrev or_else : Option Outcome → Outcome
or_else none = (start, start.commit_log)
or_else (some r) = r

abbrev outcome : Option Outcome
outcome = run_ops (pbft_consensus sum_digest) no_rolls sum_digest start start.commit_log ops

abbrev end_ : PbftCluster
end_ = (or_else outcome).0

abbrev returned : CommitLog
returned = (or_else outcome).1

abbrev is_some : Option Outcome → Bool
is_some none = false
is_some (some d) = true

or_else-some : (o : Option Outcome) → is_some o ≡ true → o ≡ some (or_else o)
or_else-some none h = cc
or_else-some (some d) h = refl

ops_return : is_some outcome ≡ true
unfolding run_ops pbft_consensus new_pbft NodeSet.contains with_rng Pbft.State.primary_for_view
    Pbft.State.init Pbft.State.new Pbft.State.broadcast_pbft broadcast peer_ids has_pair Map.get
    is_byzantine Map.insert Pbft.State.prepare_threshold NodeSet.insert Pbft.State.quorum
ops_return = refl

start-IsDistinct :
    NodeSet.IsDistinct (ids (pbft_consensus sum_digest) (pbft_outputs sum_digest) start.nodes)
unfolding pbft_consensus new_pbft NodeSet.contains Pbft.State.new
start-IsDistinct = (refl, (refl, (refl, (refl, tt))))

run_ops-Collected_example :
    let (e, results) = collect_and_record_commits (pbft_consensus sum_digest) end_ in
    AppendOnly
      (all_delivered (pbft_consensus sum_digest) (pbft_outputs sum_digest) start start.commit_log)
      (all_delivered (pbft_consensus sum_digest) (pbft_outputs sum_digest) end_ returned)
    × AreEmpty (pbft_consensus sum_digest) (pbft_outputs sum_digest) e.nodes
    × (logs
          (pbft_consensus sum_digest)
          (pbft_outputs sum_digest)
          (record_all returned results)
          e.nodes
        ≡ all_delivered (pbft_consensus sum_digest) (pbft_outputs sum_digest) end_ returned)
    × ((some_drains ops ≡ true)
        ⊎ (logs (pbft_consensus sum_digest) (pbft_outputs sum_digest) e.commit_log e.nodes
            ≡ all_delivered (pbft_consensus sum_digest) (pbft_outputs sum_digest) end_ returned))
run_ops-Collected_example =
    run_ops-Collected (pbft_consensus sum_digest) no_rolls sum_digest (pbft_outputs sum_digest)
      start end_ returned ops start-IsDistinct (or_else-some outcome ops_return)
