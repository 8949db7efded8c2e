-- ===== src/Cluster/Delivery/Completion.antt =====
-- src/cluster/mod.rs: how `run_to_completion` ends.
use bft_consensus_bench.Base.{
  ℕ, zero, suc, ◌≤◌, ◌≡◌, refl, ap, ◌⊎◌, inl, inr, List, [], ◌∷◌, ◌++◌, some, arith, Bool-cases,
  add_u64, List-cases,
}
use bft_consensus_bench.Types.{Sha256}
use bft_consensus_bench.Network.{NetworkMessage}
use bft_consensus_bench.Consensus.{ConsensusNode}
use bft_consensus_bench.Cluster.Fault.{Rolls, is_byzantine, should_deliver}
use bft_consensus_bench.Cluster.Tamper.Drops.{tamper-cases}
use bft_consensus_bench.Cluster.State.{Cluster, enqueue}
use bft_consensus_bench.Cluster.Delivery.{route, route_all, step, run_to_completion}
use bft_consensus_bench.Cluster.Delivery.Counts.{
  Handles, sent_one, tampered_one, deliver_one-Delivers, route-dropped, route-swallowed,
  route-delivered,
}

module _ {Node Rng Rate : Type 0} (protocol : ConsensusNode Node) (handles : Handles protocol)
    (rolls : Rolls Rng Rate) (sha256 : Sha256) where
  route-returns :
      (c : Cluster Node Rng Rate) (msg : NetworkMessage)
      → (r : Cluster Node Rng Rate × List NetworkMessage) × (route protocol rolls sha256 c msg
          ≡ some r)
  route-returns c msg =
      let faults = (should_deliver rolls c.faults msg).1 in
      elim (Bool-cases (should_deliver rolls c.faults msg).0) [
        | inr stops ↦ (_, route-dropped protocol handles rolls sha256 c msg stops)
        | inl passes ↦ elim (tamper-cases sha256 faults msg) [
          | inl (drop, left) ↦ (_, route-swallowed protocol handles rolls sha256 c msg passes left)
          | inr (keep, m, r, left) ↦
              let start =
                tampered_one protocol handles rolls sha256 (is_byzantine faults msg.from)
                  (sent_one protocol handles rolls sha256 c msg) in
              let ((c', out), done, d) = deliver_one-Delivers protocol handles start m in
              (_, route-delivered protocol handles rolls sha256 c c' msg m out passes left done)
        ]
      ]

  route_all-returns :
      (c : Cluster Node Rng Rate) (msgs : List NetworkMessage)
      → (r : Cluster Node Rng Rate × List NetworkMessage) × (route_all protocol rolls sha256 c msgs
          ≡ some r)
  unfolding route_all
  route_all-returns c [] = ((c, []), refl)
  route_all-returns c (msg ∷ msgs) =
      let ((c1, out), done1) = route-returns c msg in
      let ((c2, rest), done2) = route_all-returns c1 msgs in
      ((c2, out ++ rest), rw (done1, route_all) (rw done2 refl))

  step-returns :
      (c : Cluster Node Rng Rate)
      → (c' : Cluster Node Rng Rate) × (step protocol rolls sha256 c ≡ some c')
  unfolding step
  step-returns c =
      let ((c1, out), done) = route_all-returns (record c { pending = [] }) c.pending in
      let stats = record c1.stats { total_steps = add_u64 c1.stats.total_steps 1 } in
      (enqueue (record c1 { stats = stats }) out, rw (done, step) refl)

  -- How a run of at most so many steps ends.
  pub record Completes (c : Cluster Node Rng Rate) (max_steps : ℕ) : Type 0 where
    pub after : Cluster Node Rng Rate
    pub steps : ℕ
    pub returns : run_to_completion protocol rolls sha256 max_steps c ≡ some (after, steps)
    pub within : steps ≤ max_steps
    pub quiet : (after.pending ≡ []) ⊎ (steps ≡ max_steps)

  run-quiet :
      (max_steps : ℕ) (c : Cluster Node Rng Rate)
      → c.pending ≡ []
      → run_to_completion protocol rolls sha256 (suc max_steps) c ≡ some (c, 0)
  unfolding run_to_completion
  run-quiet max_steps c e = ground arith

  run-step :
      (max_steps steps : ℕ) (c c1 after : Cluster Node Rng Rate) (msg : NetworkMessage)
      (msgs : List NetworkMessage)
      → c.pending ≡ msg ∷ msgs
      → step protocol rolls sha256 c ≡ some c1
      → run_to_completion protocol rolls sha256 max_steps c1 ≡ some (after, steps)
      → run_to_completion protocol rolls sha256 (suc max_steps) c ≡ some (after, suc steps)
  unfolding run_to_completion
  run-step max_steps steps c c1 after msg msgs e done rest =
      rw (e, run_to_completion) (rw done (rw rest refl))

  -- With handlers that do not panic, a run returns after at most the given number of steps, and it
  -- stops short of that number only when no message is pending.
  pub run_to_completion-Completes :
      (max_steps : ℕ) (c : Cluster Node Rng Rate) → Completes c max_steps
  unfolding run_to_completion
  run_to_completion-Completes zero c = record {
    after = c;
    steps = 0;
    returns = refl;
    within = omega arith;
    quiet = inr refl;
  }
  run_to_completion-Completes (suc max_steps) c = elim (List-cases c.pending) [
    | inl e ↦ record {
      after = c;
      steps = 0;
      returns = run-quiet max_steps c e;
      within = omega arith;
      quiet = inl e;
    }
    | inr (msg, msgs, e) ↦
        let (c1, done) = step-returns c in
        let rest = run_to_completion-Completes max_steps c1 in
        record {
          after = rest.after;
          steps = suc rest.steps;
          returns = run-step max_steps rest.steps c c1 rest.after msg msgs e done rest.returns;
          within = omega (arith, rest.within);
          quiet = elim rest.quiet [ inl q ↦ inl q | inr q ↦ inr (ap suc q) ];
        }
  ]
