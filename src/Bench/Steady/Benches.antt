-- ===== src/Bench/Steady/Benches.antt =====
-- src/bin/bench_report.rs: a run over a calm cluster never fails its assertion.
use bft_consensus_bench.Base.{
  ℕ, zero, suc, ◌≡◌, refl, ◌∙◌, ap, subst, List, [], ◌∷◌, ◌++◌, some, Option, length, arith, inl,
  inr, List-cases, All, All-append,
}
use bft_consensus_bench.Base.NodeSet
use bft_consensus_bench.Types.{Payload, Sha256}
use bft_consensus_bench.Network.{NetworkMessage, ProtocolMessage}
use bft_consensus_bench.Consensus.{ConsensusNode, accepted}
use bft_consensus_bench.Cluster.Fault.{Rolls, FaultConfig, is_isolated, with_byzantine}
use bft_consensus_bench.Cluster.CommitLog
use bft_consensus_bench.Cluster.State.{Cluster, enqueue}
use bft_consensus_bench.Cluster.Sim.{propose_at, propose_from, propose}
use bft_consensus_bench.Bench.Text.{Label, warmup_label, numbered}
use bft_consensus_bench.Bench.Report.{num_proposals, warmup_proposals}
use bft_consensus_bench.Bench.Runs.{
  Clock, Behaviors, with_all, warm_up, assert_accepted, measure, to_result, bench,
}
use bft_consensus_bench.Bench.Steady.Messages.{Steady}
use bft_consensus_bench.Bench.Steady.Routing.{HeadZero, CalmCluster, run-CalmCluster}

-- A call returns.
abbrev pub Returns : {A : Type 0} → Option A → Type 0
Returns {A} o = (a : A) × (o ≡ some a)

pub with_all-isolated :
    {Rng Rate : Type 0} (f : FaultConfig Rng Rate) (bs : Behaviors)
    → (with_all f bs).isolated_nodes ≡ f.isolated_nodes
unfolding with_all with_byzantine
with_all-isolated f [] = refl
with_all-isolated f ((node, beh) ∷ bs) = with_all-isolated (with_byzantine f node beh) bs

module _ {Node Rng Rate : Type 0} (protocol : ConsensusNode Node) (sha256 : Sha256)
    (Calm : Node → Type 0) (Usual : ProtocolMessage → Type 0)
    (steady : Steady protocol sha256 Calm Usual) (rolls : Rolls Rng Rate) where
  abbrev IsCalm : Cluster Node Rng Rate → Type 0
  IsCalm = CalmCluster protocol sha256 Calm Usual steady

  -- Node 0 is asked first, and accepts.
  propose_from-first :
      (c : Cluster Node Rng Rate) (n n' : Node) (ns : List Node) (p : Payload)
      (out : List NetworkMessage)
      → c.nodes ≡ n ∷ ns
      → c.faults.isolated_nodes ≡ []
      → protocol.propose n p ≡ some (n', (accepted, out))
      → propose_from protocol c p 0 (suc (length ns))
        ≡ some (record c { nodes = n' ∷ ns; pending = c.pending ++ out }, accepted)
  unfolding propose_from propose_at enqueue is_isolated NodeSet.contains
  propose_from-first c n n' ns p out e f done = ground arith

  propose-IsCalm :
      (c : Cluster Node Rng Rate) (p : Payload)
      → IsCalm c
      → (d : Cluster Node Rng Rate) × (propose protocol c p ≡ some (d, accepted)) × IsCalm d
  unfolding propose CommitLog.record_proposal
  propose-IsCalm c p k = elim (List-cases c.nodes) [
    | inl e ↦ absurd (subst (HeadZero protocol sha256 Calm Usual steady) e k.head)
    | inr (n, ns, e) ↦
        let noted = record c { commit_log = CommitLog.record_proposal c.commit_log p } in
        let head = subst (HeadZero protocol sha256 Calm Usual steady) e k.head in
        let calm = subst (All Calm) e k.calm in
        let (n', out, done, same, calm', usual) = steady.proposes n p calm.0 head in
        let first = propose_from-first noted n n' ns p out e k.connected done in
        (
          record noted { nodes = n' ∷ ns; pending = c.pending ++ out },
          ap (λ l. propose_from protocol noted p 0 l) (ap length e) ∙ first,
          record {
            head = same ∙ head;
            calm = (calm', calm.1);
            connected = k.connected;
            usual = All-append _ c.pending out k.usual usual;
          },
        )
  ]

  warm_up-IsCalm :
      (max_steps i left : ℕ) (c : Cluster Node Rng Rate)
      → IsCalm c
      → (d : Cluster Node Rng Rate) × (warm_up protocol rolls sha256 max_steps i left c ≡ some d)
        × IsCalm d
  unfolding warm_up
  warm_up-IsCalm max_steps i zero c k = (c, refl, k)
  warm_up-IsCalm max_steps i (suc left) c k =
      let (c1, done1, k1) = propose-IsCalm c (numbered warmup_label i) k in
      let (c2, steps, done2, k2) =
        run-CalmCluster protocol sha256 Calm Usual steady rolls max_steps c1 k1 in
      let (d, done, kd) = warm_up-IsCalm max_steps (suc i) left c2 k2 in
      (d, rw (done1, warm_up) (rw done2 done), kd)

  measure-IsCalm :
      (label : Label) (max_steps i left : ℕ) (c : Cluster Node Rng Rate)
      → IsCalm c
      → (d : Cluster Node Rng Rate) × (measure protocol rolls sha256 label max_steps i left c
          ≡ some d)
        × IsCalm d
  unfolding measure assert_accepted
  measure-IsCalm label max_steps i zero c k = (c, refl, k)
  measure-IsCalm label max_steps i (suc left) c k =
      let (c1, done1, k1) = propose-IsCalm c (numbered label i) k in
      let (c2, steps, done2, k2) =
        run-CalmCluster protocol sha256 Calm Usual steady rolls max_steps c1 k1 in
      let (d, done, kd) = measure-IsCalm label max_steps (suc i) left c2 k2 in
      (d, rw (done1, measure) (rw done2 done), kd)

  -- A run returns, and its result is read off a calm cluster.
  pub bench-returns :
      {Time Float : Type 0} (clock : Clock Time Float) (label : Label) (max_steps : ℕ)
      (warm c : Cluster Node Rng Rate) (elapsed : Time)
      → IsCalm warm
      → IsCalm c
      → (d : Cluster Node Rng Rate) × (bench protocol rolls sha256 clock label max_steps warm c
            elapsed
          ≡ some (to_result protocol rolls sha256 clock d elapsed))
        × (measure protocol rolls sha256 label max_steps 0 num_proposals c ≡ some d)
  unfolding bench
  bench-returns clock label max_steps warm c elapsed kw k =
      let (w, warmed, kw') = warm_up-IsCalm max_steps 0 warmup_proposals warm kw in
      let (d, done, kd) = measure-IsCalm label max_steps 0 num_proposals c k in
      (d, rw (warmed, bench) (rw done refl), done)
