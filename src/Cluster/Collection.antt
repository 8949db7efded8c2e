-- ===== src/Cluster/Collection.antt =====
-- src/cluster/mod.rs: from the nodes to the log of the commits, for every protocol whose outputs are
-- queues.
pub mod Growth
pub mod Deliveries
pub mod Proposals
pub mod Polling
pub mod Waiting
pub mod Calls
pub mod Effects
pub mod Views
mod Tests
use bft_consensus_bench.Base.{
  ℕ, ◌≡◌, refl, sym, ◌∙◌, ap, subst, List, [], ◌∷◌, ◌++◌, some, none, Option, Bool, true, false,
  ◌⊎◌, ◌||◌, if◌then◌else◌, Bool-cases, ◌>>=◌, arith, inl, inr, Option-cases,
}
use mathlib.Core.List.{append_assoc, append-nil}
use bft_consensus_bench.Base.NodeSet.{IsDistinct}
use bft_consensus_bench.Base.Map
use bft_consensus_bench.Types.{NodeId, Payload, Sha256}
use bft_consensus_bench.Consensus.{ConsensusNode, CommittedEntry}
use bft_consensus_bench.Consensus.Outputs.{Extends, Extends-of_same, Extends-trans, Outputs}
use bft_consensus_bench.Cluster.Fault.{Rolls, FaultConfig}
use bft_consensus_bench.Cluster.CommitLog.{CommitLog}
use bft_consensus_bench.Cluster.State.{Cluster, set_faults, record_all, poll_nodes}
use bft_consensus_bench.Cluster.Delivery.{step, run_to_completion}
use bft_consensus_bench.Cluster.Sim.{
  propose, tick, collect_committed, collect_and_record_commits, wait_for_leader, reachable_leader,
}
use bft_consensus_bench.Cluster.Collection.Growth.{Grows, Quiet, Quiet-of_same, Quiet-trans}
use bft_consensus_bench.Cluster.Collection.Deliveries.{step-Quiet, run_to_completion-Quiet}
use bft_consensus_bench.Cluster.Collection.Proposals.{propose-Quiet, tick-Quiet, noted}
use bft_consensus_bench.Cluster.Collection.Polling.{
  logged, ids, delivered, poll-ids, AreEmpty, poll-AreEmpty, poll-delivered,
}
use bft_consensus_bench.Cluster.Collection.Calls.{
  Op, proposes, ticks, steps, runs, waits, collects, drains, sets_faults, is_drain, some_drains,
  after, run_ops,
}
use bft_consensus_bench.Cluster.CommitLog.{record_commits}
use bft_consensus_bench.Cluster.Collection.Effects.{Silent, Polls, Effect, after-Effect}
use bft_consensus_bench.Cluster.Collection.Views.{
  AppendOnly, AppendOnly-refl, AppendOnly-trans, all_delivered, logs, delivered-AreEmpty, Refines,
  Quiet-Refines, poll-Refines,
}

record_all-commits :
    (log log' : CommitLog) (results : List (NodeId × List CommittedEntry))
    → log.commits ≡ log'.commits
    → (record_all log results).commits ≡ (record_all log' results).commits
unfolding record_all record_commits
record_all-commits log log' [] e = e
record_all-commits log log' ((node, es) ∷ results) e =
    record_all-commits (record_commits log node es) (record_commits log' node es) results
      (rw e refl)

logs-commits :
    {Node : Type 0} (protocol : ConsensusNode Node) (outputs : Outputs protocol)
    (log log' : CommitLog) (ns : List Node)
    → log.commits ≡ log'.commits
    → logs protocol outputs log ns ≡ logs protocol outputs log' ns
unfolding logged
logs-commits protocol outputs log log' [] e = refl
logs-commits protocol outputs log log' (n ∷ ns) e =
    let rest = logs-commits protocol outputs log log' ns e in ground (arith, rest, e)

module _ {Node Rng Rate : Type 0} (protocol : ConsensusNode Node) (rolls : Rolls Rng Rate)
    (sha256 : Sha256) (outputs : Outputs protocol) where
  -- The log and the caller have the same of every node.
  abbrev pub IsRecorded : Cluster Node Rng Rate → CommitLog → Type 0
  IsRecorded c given = given.commits ≡ c.commit_log.commits

  after-Refines :
      (c d : Cluster Node Rng Rate) (given given' : CommitLog) (op : Op Rng Rate)
      → IsDistinct (ids protocol outputs c.nodes)
      → after protocol rolls sha256 c given op ≡ some (d, given')
      → Refines protocol outputs c given d given'
        × (is_drain op ≡ false → IsRecorded c given → IsRecorded d given')
  after-Refines c d given given' op distinct h =
      elim (after-Effect protocol rolls sha256 outputs c d given given' op h) [
        | inl (s, no_drain) ↦
            let q = Quiet-Refines protocol outputs s.start d given s.quiet in
            (
              record {
                same_ids = q.same_ids ∙ ap (ids protocol outputs) s.same_nodes;
                append_only =
                    subst
                      (λ l.
                        AppendOnly (all_delivered protocol outputs c given)
                          (delivered protocol outputs l d.nodes))
                      (sym s.nothing_given)
                      (subst
                        (λ ns.
                          AppendOnly (delivered protocol outputs given ns)
                            (delivered protocol outputs given d.nodes))
                        s.same_nodes q.append_only);
              },
              λ no r.
                  ap (λ (l : CommitLog). l.commits) s.nothing_given
                  ∙ r
                  ∙ sym s.same_commits
                  ∙ sym (ap (λ (l : CommitLog). l.commits) s.quiet.same_log),
            )
        | inr (p, kind) ↦ (
          subst (Refines protocol outputs c given d) (sym p.gives)
              (poll-Refines protocol outputs c d given distinct p.nodes).0,
          λ no r. elim kind [
            | inl drain ↦ cc
            | inr (none_, log) ↦
                ap (λ (l : CommitLog). l.commits) p.gives
                ∙ record_all-commits given c.commit_log (poll_nodes protocol c.nodes).1 r
                ∙ sym (ap (λ (l : CommitLog). l.commits) log)
          ],
        )
      ]

  run_ops-Refines :
      (c d : Cluster Node Rng Rate) (given given' : CommitLog) (ops : List (Op Rng Rate))
      → IsDistinct (ids protocol outputs c.nodes)
      → run_ops protocol rolls sha256 c given ops ≡ some (d, given')
      → Refines protocol outputs c given d given'
        × (some_drains ops ≡ false → IsRecorded c given → IsRecorded d given')
  unfolding run_ops
  run_ops-Refines c d given given' [] distinct h =
      let same : Path (Cluster Node Rng Rate × CommitLog) (c, given) (d, given') = cc in
      subst
        (λ r.
          Refines protocol outputs c given r.0 r.1
          × (false ≡ false → IsRecorded c given → IsRecorded r.0 r.1))
        same (record { same_ids = refl; append_only = AppendOnly-refl _ }, (λ no r. r))
  run_ops-Refines c d given given' (op ∷ ops) distinct h =
      elim (Option-cases (after protocol rolls sha256 c given op)) [
        | inl e ↦ absurd (ground arith)
        | inr ((c1, given1), e) ↦
            let (one, keep) = after-Refines c c1 given given1 op distinct e in
            let (rest, keep') =
              run_ops-Refines c1 d given1 given' ops (subst IsDistinct (sym one.same_ids) distinct)
                (ground arith) in
            (
              record {
                same_ids = rest.same_ids ∙ one.same_ids;
                append_only = AppendOnly-trans _ _ _ one.append_only rest.append_only;
              },
              λ no r. keep' (ground arith) (keep (ground arith) r),
            )
      ]

  -- Take a cluster of any protocol whose outputs are queues, its nodes with distinct ids. Let any
  -- calls that change it be made on it: proposals, ticks, steps, runs, waits for a leader,
  -- collections that record in the log and collections that do not, changes of the faults, without a
  -- panic. Let `given` be what the log had at first of each node, followed by what the collections of
  -- both kinds returned of it. Then that and the node's queue behind it are what the log and the
  -- queue were before with more behind it: the calls lose, repeat and reorder nothing. One more
  -- recording collection leaves that as it is and empties every queue, so that all of it has then
  -- been given to the caller. And the log itself has it, unless some collection did not record.
  pub run_ops-Collected :
      (c d : Cluster Node Rng Rate) (given : CommitLog) (ops : List (Op Rng Rate))
      → IsDistinct (ids protocol outputs c.nodes)
      → run_ops protocol rolls sha256 c c.commit_log ops ≡ some (d, given)
      → let (e, results) = collect_and_record_commits protocol d in
        AppendOnly
          (all_delivered protocol outputs c c.commit_log)
          (all_delivered protocol outputs d given)
        × AreEmpty protocol outputs e.nodes
        × (logs protocol outputs (record_all given results) e.nodes
            ≡ all_delivered protocol outputs d given)
        × ((some_drains ops ≡ true)
            ⊎ (logs protocol outputs e.commit_log e.nodes ≡ all_delivered protocol outputs d given))
  unfolding collect_and_record_commits collect_committed
  run_ops-Collected c d given ops distinct h =
      let e = (collect_and_record_commits protocol d).0 in
      let results = (poll_nodes protocol d.nodes).1 in
      let all = record_all given results in
      let (run_, recorded) = run_ops-Refines c d c.commit_log given ops distinct h in
      let (kept, (same, empty)) =
        poll-Refines protocol outputs d e given (subst IsDistinct (sym run_.same_ids) distinct)
          refl in
      let got = sym (delivered-AreEmpty protocol outputs all e.nodes empty) ∙ same in
      (
        run_.append_only,
        empty,
        got,
        elim (Bool-cases (some_drains ops)) [
          | inl drained ↦ inl drained
          | inr recording ↦ inr (
              logs-commits protocol outputs e.commit_log all e.nodes
                (sym (record_all-commits given d.commit_log results (recorded recording refl)))
              ∙ got)
        ],
      )
