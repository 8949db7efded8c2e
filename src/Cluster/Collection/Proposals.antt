-- ===== src/Cluster/Collection/Proposals.antt =====
-- src/cluster/mod.rs: proposals and ticks keep the queues of the nodes.
use bft_consensus_bench.Base.{
  ℕ, zero, suc, ◌≡◌, ◌⊎◌, refl, sym, subst, List, some, none, get_elem?, set, length, arith, inl,
  inr, Option-cases, Bool-cases,
}
use bft_consensus_bench.Types.{NodeId, Payload}
use bft_consensus_bench.Network.{NetworkMessage}
use bft_consensus_bench.Consensus.{ConsensusNode, ProposeResult, accepted, not_leader}
use bft_consensus_bench.Consensus.Outputs.{Outputs}
use bft_consensus_bench.Cluster.Fault.{is_isolated}
use bft_consensus_bench.Cluster.CommitLog
use bft_consensus_bench.Cluster.State.{Cluster, enqueue, tick_nodes, position}
use bft_consensus_bench.Cluster.Sim.{propose_at, redirect, propose_from, propose, tick}
use bft_consensus_bench.Cluster.Collection.Growth.{
  Grows, set-Grows, tick_nodes-Grows, Quiet, Quiet-of_same, Quiet-trans,
}

answer_cases :
    (r : ProposeResult)
    → (r ≡ accepted) ⊎ ((r ≡ not_leader none) ⊎ ((l : NodeId) × (r ≡ not_leader (some l))))
answer_cases accepted = inl refl
answer_cases (not_leader none) = inr (inl refl)
answer_cases (not_leader (some l)) = inr (inr (l, refl))

module _ {Node Rng Rate : Type 0} (protocol : ConsensusNode Node) (outputs : Outputs protocol) where
  propose_at-Quiet :
      (c d : Cluster Node Rng Rate) (i : ℕ) (p : Payload) (r : ProposeResult × List NetworkMessage)
      → propose_at protocol c i p ≡ some (d, r)
      → Quiet protocol outputs c d
  unfolding propose_at
  propose_at-Quiet c d i p r h = elim (Option-cases (get_elem? c.nodes i)) [
    | inl e ↦ absurd (ground arith)
    | inr (n, e) ↦ elim (Option-cases (protocol.propose n p)) [
      | inl e' ↦ absurd (ground arith)
      | inr ((n', o), e') ↦
          let same : d.nodes ≡ set c.nodes i n' = ground arith in
          record {
            grows =
                subst (Grows protocol outputs c.nodes) (sym same) (
                  set-Grows protocol outputs c.nodes i n n' e
                    (outputs.propose_extends n n' p o e'));
            same_log = ground arith;
          }
    ]
  ]

  enqueue-Quiet :
      (c d : Cluster Node Rng Rate) (out : List NetworkMessage)
      → Quiet protocol outputs c d
      → Quiet protocol outputs c (enqueue d out)
  unfolding enqueue
  enqueue-Quiet c d out q =
      Quiet-trans protocol outputs c d (enqueue d out) q
        (Quiet-of_same protocol outputs d (enqueue d out) refl refl)

  redirect-Quiet :
      (c d : Cluster Node Rng Rate) (i : ℕ) (p : Payload) (r : ProposeResult)
      → redirect protocol c i p ≡ some (d, r)
      → Quiet protocol outputs c d
  unfolding redirect
  redirect-Quiet c d i p r h = elim (Option-cases (propose_at protocol c i p)) [
    | inl e ↦ absurd (ground arith)
    | inr ((c', (r', out)), e) ↦
        let same : enqueue c' out ≡ d = ground arith in
        subst (Quiet protocol outputs c) same
          (enqueue-Quiet c c' out (propose_at-Quiet c c' i p (r', out) e))
  ]

  propose_from-Quiet :
      (c d : Cluster Node Rng Rate) (p : Payload) (i left : ℕ) (r : ProposeResult)
      → propose_from protocol c p i left ≡ some (d, r)
      → Quiet protocol outputs c d
  unfolding propose_from
  propose_from-Quiet c d p i zero r h =
      Quiet-of_same protocol outputs c d (ground arith) (ground arith)
  propose_from-Quiet c d p i (suc left) r h = elim (Option-cases (get_elem? c.nodes i)) [
    | inl e ↦ absurd (ground arith)
    | inr (n, e) ↦ elim (Bool-cases (is_isolated c.faults (protocol.id n))) [
      | inl isolated ↦ propose_from-Quiet c d p (suc i) left r (ground arith)
      | inr reachable ↦ elim (Option-cases (propose_at protocol c i p)) [
        | inl e' ↦ absurd (ground arith)
        | inr ((c', (answer, out)), e') ↦
            let start = propose_at-Quiet c c' i p (answer, out) e' in
            elim (answer_cases answer) [
              | inl yes_ ↦
                  let same : enqueue c' out ≡ d = ground arith in
                  subst (Quiet protocol outputs c) same (enqueue-Quiet c c' out start)
              | inr (inl nobody) ↦
                  Quiet-trans protocol outputs c c' d start
                    (propose_from-Quiet c' d p (suc i) left r (ground arith))
              | inr (inr (l, other)) ↦ elim (Option-cases (position protocol l c'.nodes)) [
                | inl gone ↦
                    Quiet-trans protocol outputs c c' d start
                      (propose_from-Quiet c' d p (suc i) left r (ground arith))
                | inr (idx, found) ↦
                    Quiet-trans protocol outputs c c' d start
                      (redirect-Quiet c' d idx p r (ground arith))
              ]
            ]
      ]
    ]
  ]

  -- The cluster that has noted the proposal in its log.
  abbrev pub noted : Cluster Node Rng Rate → Payload → Cluster Node Rng Rate
  noted c p = record c { commit_log = CommitLog.record_proposal c.commit_log p }

  pub propose-Quiet :
      (c d : Cluster Node Rng Rate) (p : Payload) (r : ProposeResult)
      → propose protocol c p ≡ some (d, r)
      → Quiet protocol outputs (noted c p) d
  unfolding propose
  propose-Quiet c d p r h = propose_from-Quiet (noted c p) d p 0 (length c.nodes) r h

  pub tick-Quiet :
      (c d : Cluster Node Rng Rate) → tick protocol c ≡ some d → Quiet protocol outputs c d
  unfolding tick
  tick-Quiet c d h = elim (Option-cases (tick_nodes protocol c.nodes)) [
    | inl e ↦ absurd (ground arith)
    | inr ((ns, out), e) ↦
        let ticked = record c { nodes = ns } in
        let same : enqueue ticked out ≡ d = ground arith in
        subst (Quiet protocol outputs c) same (
          enqueue-Quiet c ticked out (record {
            grows = tick_nodes-Grows protocol outputs c.nodes ns out e;
            same_log = refl;
          }))
  ]
