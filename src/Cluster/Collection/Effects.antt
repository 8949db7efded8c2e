-- ===== src/Cluster/Collection/Effects.antt =====
-- src/cluster/mod.rs: the three kinds of calls, by what they do to the queues and the log.
use bft_consensus_bench.Base.{
  ◌≡◌, refl, sym, ap, subst, some, true, false, ◌⊎◌, arith, inl, inr, Option-cases,
}
use bft_consensus_bench.Types.{Sha256}
use bft_consensus_bench.Consensus.{ConsensusNode}
use bft_consensus_bench.Consensus.Outputs.{Outputs}
use bft_consensus_bench.Cluster.Fault.{Rolls}
use bft_consensus_bench.Cluster.CommitLog.{CommitLog, record_proposal}
use bft_consensus_bench.Cluster.State.{Cluster, set_faults, record_all, poll_nodes}
use bft_consensus_bench.Cluster.Delivery.{step, run_to_completion}
use bft_consensus_bench.Cluster.Sim.{
  propose, tick, collect_committed, collect_and_record_commits, wait_for_leader,
}
use bft_consensus_bench.Cluster.Collection.Growth.{Quiet, Quiet-of_same}
use bft_consensus_bench.Cluster.Collection.Deliveries.{step-Quiet, run_to_completion-Quiet}
use bft_consensus_bench.Cluster.Collection.Proposals.{propose-Quiet, tick-Quiet, noted}
use bft_consensus_bench.Cluster.Collection.Waiting.{wait_for_leader-Quiet}
use bft_consensus_bench.Cluster.Collection.Calls.{
  Op, proposes, ticks, steps, runs, waits, collects, drains, sets_faults, is_drain, after,
}

module _ {Node Rng Rate : Type 0} (protocol : ConsensusNode Node) (rolls : Rolls Rng Rate)
    (sha256 : Sha256) (outputs : Outputs protocol) where
  -- The call collects nothing: from the nodes and the commits of the cluster `c` on, queues only grow.
  pub record Silent (c : Cluster Node Rng Rate) (given : CommitLog) (d : Cluster Node Rng Rate)
      (given' : CommitLog) : Type 0 where
    pub start : Cluster Node Rng Rate
    pub same_nodes : start.nodes ≡ c.nodes
    pub same_commits : start.commit_log.commits ≡ c.commit_log.commits
    pub quiet : Quiet protocol outputs start d
    pub nothing_given : given' ≡ given

  Silent-of_Quiet :
      (c start c' d : Cluster Node Rng Rate) (given given' : CommitLog)
      → start.nodes ≡ c.nodes
      → start.commit_log.commits ≡ c.commit_log.commits
      → Quiet protocol outputs start c'
      → c' ≡ d
      → given ≡ given'
      → Silent c given d given'
  Silent-of_Quiet c start c' d given given' e f q same same' = record {
    start = start;
    same_nodes = e;
    same_commits = f;
    quiet = subst (Quiet protocol outputs start) same q;
    nothing_given = sym same';
  }

  -- The call polls every node, and gives the caller what it polled.
  pub record Polls (c : Cluster Node Rng Rate) (given : CommitLog) (d : Cluster Node Rng Rate)
      (given' : CommitLog) : Type 0 where
    pub nodes : d.nodes ≡ (poll_nodes protocol c.nodes).0
    pub gives : given' ≡ record_all given (poll_nodes protocol c.nodes).1

  abbrev pub Effect :
      Cluster Node Rng Rate → CommitLog → Op Rng Rate → Cluster Node Rng Rate → CommitLog → Type 0
  Effect c given op d given' =
      (Silent c given d given' × (is_drain op ≡ false))
      ⊎ (Polls c given d given'
          × ((is_drain op ≡ true)
              ⊎ ((is_drain op ≡ false)
                  × (d.commit_log ≡ record_all c.commit_log (poll_nodes protocol c.nodes).1))))

  pub after-Effect :
      (c d : Cluster Node Rng Rate) (given given' : CommitLog) (op : Op Rng Rate)
      → after protocol rolls sha256 c given op ≡ some (d, given')
      → Effect c given op d given'
  unfolding after set_faults collect_and_record_commits collect_committed record_proposal
  after-Effect c d given given' (proposes p) h = elim (Option-cases (propose protocol c p)) [
    | inl e ↦ absurd (ground arith)
    | inr ((c', r), e) ↦
        let q = propose-Quiet protocol outputs c c' p r e in
        inl (
          Silent-of_Quiet c (noted protocol outputs c p) c' d given given' refl refl q
              (ground arith) (ground arith),
          refl,
        )
  ]
  after-Effect c d given given' ticks h = elim (Option-cases (tick protocol c)) [
    | inl e ↦ absurd (ground arith)
    | inr (c', e) ↦
        let q = tick-Quiet protocol outputs c c' e in
        inl (Silent-of_Quiet c c c' d given given' refl refl q (ground arith) (ground arith), refl)
  ]
  after-Effect c d given given' steps h = elim (Option-cases (step protocol rolls sha256 c)) [
    | inl e ↦ absurd (ground arith)
    | inr (c', e) ↦
        let q = step-Quiet protocol outputs rolls sha256 c c' e in
        inl (Silent-of_Quiet c c c' d given given' refl refl q (ground arith) (ground arith), refl)
  ]
  after-Effect c d given given' (runs bound) h =
      elim (Option-cases (run_to_completion protocol rolls sha256 bound c)) [
        | inl e ↦ absurd (ground arith)
        | inr ((c', k), e) ↦
            let q = run_to_completion-Quiet protocol outputs rolls sha256 bound k c c' e in
            inl (
              Silent-of_Quiet c c c' d given given' refl refl q (ground arith) (ground arith),
              refl,
            )
      ]
  after-Effect c d given given' (waits bound) h =
      elim (Option-cases (wait_for_leader protocol rolls sha256 bound c)) [
        | inl e ↦ absurd (ground arith)
        | inr ((c', l), e) ↦
            let q = wait_for_leader-Quiet protocol rolls sha256 outputs bound c c' l e in
            inl (
              Silent-of_Quiet c c c' d given given' refl refl q (ground arith) (ground arith),
              refl,
            )
      ]
  after-Effect c d given given' collects h =
      let log = record_all c.commit_log (poll_nodes protocol c.nodes).1 in
      let c' = record c { nodes = (poll_nodes protocol c.nodes).0; commit_log = log } in
      let same : c' ≡ d = ground arith in
      inr (
        record { nodes = ap (λ x. x.nodes) (sym same); gives = ground arith },
        inr (refl, ap (λ x. x.commit_log) (sym same)),
      )
  after-Effect c d given given' drains h =
      let c' = record c { nodes = (poll_nodes protocol c.nodes).0 } in
      let same : c' ≡ d = ground arith in
      inr (record { nodes = ap (λ x. x.nodes) (sym same); gives = ground arith }, inl refl)
  after-Effect c d given given' (sets_faults faults) h =
      let q = Quiet-of_same protocol outputs c (record c { faults = faults }) refl refl in
      inl (
        Silent-of_Quiet c c (record c { faults = faults }) d given given' refl refl q (ground arith)
            (ground arith),
        refl,
      )
