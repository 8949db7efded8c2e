-- ===== src/Bench/Proposals.antt =====
-- src/bin/bench_report.rs: the proposals of a benchmark run.
use bft_consensus_bench.Base.{
  ℕ, zero, suc, ◌+◌, ◌≡◌, sym, ◌∙◌, ap, List, [], ◌∷◌, ◌++◌, some, map, range, length, drop,
  get_elem?, arith, inl, inr, Option-cases,
}
use mathlib.Core.List.{append_assoc, append-nil}
use bft_consensus_bench.Types.{Payload, Sha256}
use bft_consensus_bench.Consensus.{ConsensusNode, ProposeResult, accepted, not_leader}
use bft_consensus_bench.Consensus.Outputs.{Outputs}
use bft_consensus_bench.Cluster.Fault.{Rolls}
use bft_consensus_bench.Cluster.CommitLog.{CommitLog, record_proposal}
use bft_consensus_bench.Cluster.State.{Cluster}
use bft_consensus_bench.Cluster.Delivery.{run_to_completion}
use bft_consensus_bench.Cluster.Sim.{propose}
use bft_consensus_bench.Cluster.Collection.Deliveries.{run_to_completion-Quiet}
use bft_consensus_bench.Cluster.Collection.Proposals.{propose-Quiet}
use bft_consensus_bench.Bench.Text.{Label, numbered, value, numbered-value}
use bft_consensus_bench.Bench.Runs.{assert_accepted, measure}

-- The payloads with the numbers from `start` on.
abbrev pub payloads : Label → (start n : ℕ) → List Payload
payloads label start n = map (numbered label) (range start n)

-- No payload stands at two places.
abbrev pub AllDiffer : List Payload → Type 0
AllDiffer ps = (i j : ℕ) (p : Payload) → get_elem? ps i ≡ some p → get_elem? ps j ≡ some p → i ≡ j

payloads-at :
    (label : Label) (start n i : ℕ) (p : Payload)
    → get_elem? (payloads label start n) i ≡ some p
    → p ≡ numbered label (start + i)
payloads-at label start zero i p h = cc
payloads-at label start (suc n) zero p h =
    let e : numbered label start ≡ p = cc in sym e ∙ ap (numbered label) (omega arith)
payloads-at label start (suc n) (suc i) p h =
    payloads-at label (start + 1) n i p h ∙ ap (numbered label) (omega arith)

numbered-inj : (label : Label) (i j : ℕ) → numbered label i ≡ numbered label j → i ≡ j
numbered-inj label i j e =
    sym (numbered-value label i)
    ∙ ap (λ (p : Payload). value 0 (drop (length label) p.bytes)) e
    ∙ numbered-value label j

payloads-AllDiffer : (label : Label) (start n : ℕ) → AllDiffer (payloads label start n)
payloads-AllDiffer label start n i j p hi hj =
    let same =
      numbered-inj label (start + i) (start + j)
        (sym (payloads-at label start n i p hi) ∙ payloads-at label start n j p hj) in
    omega (arith, same)

module _ {Node Rng Rate : Type 0} (protocol : ConsensusNode Node) (outputs : Outputs protocol)
    (rolls : Rolls Rng Rate) (sha256 : Sha256) where
  propose-proposed :
      (c d : Cluster Node Rng Rate) (p : Payload) (r : ProposeResult)
      → propose protocol c p ≡ some (d, r)
      → d.commit_log.proposed ≡ c.commit_log.proposed ++ p ∷ []
  unfolding record_proposal
  propose-proposed c d p r h =
      ap (λ (l : CommitLog). l.proposed) (propose-Quiet protocol outputs c d p r h).same_log

  -- A measured run of `left` proposals that returns has noted as proposed, behind what was proposed
  -- before, exactly the payloads of its label with the numbers from `i` on, one after the other, and
  -- no two of these are the same. The protocol is one whose outputs are queues.
  pub measure-proposes :
      (label : Label) (max_steps i left : ℕ) (c d : Cluster Node Rng Rate)
      → measure protocol rolls sha256 label max_steps i left c ≡ some d
      → (d.commit_log.proposed ≡ c.commit_log.proposed ++ payloads label i left)
        × AllDiffer (payloads label i left)
  unfolding measure assert_accepted
  measure-proposes label max_steps i zero c d h = (
    (let same : c ≡ d = cc in
        ap (λ (x : Cluster Node Rng Rate). x.commit_log.proposed) (sym same) ∙ sym (append-nil _)),
    payloads-AllDiffer label i zero,
  )
  measure-proposes label max_steps i (suc left) c d h =
      elim (Option-cases (propose protocol c (numbered label i))) [
        | inl e ↦ absurd (ground arith)
        | inr ((c1, not_leader hint), e) ↦ absurd (ground arith)
        | inr ((c1, accepted), e) ↦
            elim (Option-cases (run_to_completion protocol rolls sha256 max_steps c1)) [
              | inl e' ↦ absurd (ground arith)
              | inr ((c2, k), e') ↦
                  let first = propose-proposed c c1 (numbered label i) accepted e in
                  let quiet =
                    run_to_completion-Quiet protocol outputs rolls sha256 max_steps k c1 c2 e' in
                  let kept = ap (λ (l : CommitLog). l.proposed) quiet.same_log in
                  let (rest, differ) =
                    measure-proposes label max_steps (i + 1) left c2 d (ground arith) in
                  (
                    rest
                        ∙ ap (λ ps. ps ++ payloads label (i + 1) left) (kept ∙ first)
                        ∙ append_assoc c.commit_log.proposed (numbered label i ∷ [])
                            (payloads label (i + 1) left),
                    payloads-AllDiffer label i (suc left),
                  )
            ]
      ]
