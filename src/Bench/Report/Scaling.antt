-- ===== src/Bench/Report/Scaling.antt =====
-- src/bin/bench_report.rs: the chart of the scaling indexes three results of each protocol.
use bft_consensus_bench.Base.{
  ℕ, suc, ◌<◌, ◌≡◌, refl, ◌∙◌, ap, List, [], ◌∷◌, some, Option, map, arith, length, get_elem?-some,
  keep_if, inl, inr, Option-cases, Bool-cases, length-map,
}
use bft_consensus_bench.Bench.Report.{
  Protocol, same_protocol, BenchResult, RunResult, Ratios, results_of, scaling_row, scaling_rows,
  num_proposals,
}
use bft_consensus_bench.Bench.Jobs.{
  Job, clean, pbft_byzantine, hotstuff_byzantine, run_jobs, to_run, clean_jobs, byzantine_jobs,
  main_results,
}

-- The protocol of a run.
abbrev job_protocol : Job → Protocol
job_protocol (clean p n) = p
job_protocol (pbft_byzantine n seed behaviors) = Protocol.pbft
job_protocol (hotstuff_byzantine n seed behaviors) = Protocol.hotstuff

-- A protocol, and its messages per proposal for each size.
abbrev pub ScalingRow : Type 0 → Type 0
ScalingRow Float = Protocol × (Float × Float × Float)

abbrev count_of : Protocol → List Protocol → ℕ
count_of p ps = length (keep_if (λ q. same_protocol q p) ps)

module _ {Float : Type 0} where
  to_run-protocol : (job : Job) (b : BenchResult Float) → (to_run job b).protocol ≡ job_protocol job
  unfolding to_run
  to_run-protocol (clean p n) b = refl
  to_run-protocol (pbft_byzantine n seed behaviors) b = refl
  to_run-protocol (hotstuff_byzantine n seed behaviors) b = refl

  run_jobs-protocols :
      (perform : ℕ → Job → Option (BenchResult Float)) (i : ℕ) (jobs : List Job)
      (rs : List (RunResult Float))
      → run_jobs perform i jobs ≡ some rs
      → map (λ r. r.protocol) rs ≡ map job_protocol jobs
  unfolding run_jobs
  run_jobs-protocols perform i [] rs h = let e : rs ≡ [] = ground arith in rw e refl
  run_jobs-protocols perform i (job ∷ jobs) rs h = elim (Option-cases (perform i job)) [
    | inl e ↦ absurd (ground arith)
    | inr (b, e) ↦ elim (Option-cases (run_jobs perform (suc i) jobs)) [
      | inl e' ↦ absurd (ground arith)
      | inr (rest, e') ↦
          let same : rs ≡ to_run job b ∷ rest = ground arith in
          let tail = run_jobs-protocols perform (suc i) jobs rest e' in
          let head = to_run-protocol job b in
          ap (map (λ r. r.protocol)) same
          ∙ ap (λ q. q ∷ map (λ r. r.protocol) rest) head
          ∙ ap (λ qs. job_protocol job ∷ qs) tail
    ]
  ]

  results_of-length :
      (ratios : Ratios Float) (p : Protocol) (rs : List (RunResult Float))
      → length (results_of ratios p rs) ≡ count_of p (map (λ r. r.protocol) rs)
  unfolding results_of
  results_of-length ratios p [] = refl
  results_of-length ratios p (r ∷ rs) =
      let rest = results_of-length ratios p rs in
      elim (Bool-cases (same_protocol r.protocol p)) [
        | inl q ↦ ground (arith, q, rest)
        | inr q ↦ ground (arith, q, rest)
      ]

  scaling_row-some :
      (ratios : Ratios Float) (p : Protocol) (rs : List (RunResult Float))
      → 2 < length (results_of ratios p rs)
      → (row : Protocol × (Float × Float × Float)) × (scaling_row ratios p rs ≡ some row)
  unfolding scaling_row
  scaling_row-some ratios p rs lt =
      let vals =
        map (λ (r : RunResult Float). ratios.quotient r.bench.total_messages num_proposals)
          (results_of ratios p rs) in
      let long : 2 < length vals = omega (
        arith,
        length-map (λ (r : RunResult Float). ratios.quotient r.bench.total_messages num_proposals)
            (results_of ratios p rs),
      ) in
      let (v0, e0) = get_elem?-some vals 0 (omega arith) in
      let (v1, e1) = get_elem?-some vals 1 (omega arith) in
      let (v2, e2) = get_elem?-some vals 2 (omega arith) in
      ((p, (v0, v1, v2)), ground (arith, e0, e1, e2))

  -- Whatever the runs return, once `main` has all of its results the scaling chart has its three
  -- rows: it neither returns early nor indexes past the end.
  pub scaling_rows-some :
      (ratios : Ratios Float) (perform : ℕ → Job → Option (BenchResult Float))
      (rs bs : List (RunResult Float))
      → main_results perform ≡ some (rs, bs)
      → (a : ScalingRow Float) × (b : ScalingRow Float) × (c : ScalingRow Float) × (scaling_rows
            ratios rs
          ≡ some (a ∷ b ∷ c ∷ []))
  unfolding main_results clean_jobs scaling_rows
  scaling_rows-some ratios perform rs bs h =
      let jobs = clean_jobs (3 ∷ 5 ∷ 7 ∷ []) in
      elim (Option-cases (run_jobs perform 0 jobs)) [
        | inl e ↦ absurd (ground arith)
        | inr (rs', e) ↦ elim (Option-cases (run_jobs perform (length jobs) byzantine_jobs)) [
          | inl e' ↦ absurd (ground arith)
          | inr (bs', e') ↦
              let same : rs' ≡ rs = ground arith in
              let ps = run_jobs-protocols perform 0 jobs rs (e ∙ ap some same) in
              let three : (p : Protocol)
                  → count_of p (map job_protocol jobs) ≡ 3
                  → 2 < length (results_of ratios p rs) =
                λ p k. omega (arith, results_of-length ratios p rs, ap (count_of p) ps, k) in
              let (a, ea) = scaling_row-some ratios Protocol.pbft rs (three Protocol.pbft refl) in
              let (b, eb) =
                scaling_row-some ratios Protocol.hotstuff rs (three Protocol.hotstuff refl) in
              let (c, ec) = scaling_row-some ratios Protocol.raft rs (three Protocol.raft refl) in
              let p2 = three Protocol.pbft refl in
              let r2 = three Protocol.raft refl in (a, b, c, ground (arith, ea, eb, ec, p2, r2))
        ]
      ]
