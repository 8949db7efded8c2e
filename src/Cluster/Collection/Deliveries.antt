-- ===== src/Cluster/Collection/Deliveries.antt =====
-- src/cluster/mod.rs: deliveries, proposals and ticks keep the queues of the nodes.
use bft_consensus_bench.Base.{
  ℕ, zero, suc, ◌≡◌, refl, sym, subst, Bool, if◌then◌else◌, List, [], ◌∷◌, some, get_elem?, set,
  arith, inl, inr, Option-cases, Bool-cases, List-cases, add_u64,
}
use bft_consensus_bench.Types.{Sha256}
use bft_consensus_bench.Network.{NetworkMessage}
use bft_consensus_bench.Consensus.{ConsensusNode}
use bft_consensus_bench.Consensus.Outputs.{Outputs}
use bft_consensus_bench.Cluster.Fault.{Rolls, is_byzantine, should_deliver}
use bft_consensus_bench.Cluster.Tamper.{tamper}
use bft_consensus_bench.Cluster.State.{Cluster, enqueue, position}
use bft_consensus_bench.Cluster.Delivery.{
  deliver_one, deliver_all, count_drop, route, route_all, step, run_to_completion,
}
use bft_consensus_bench.Cluster.Collection.Growth.{
  Grows, set-Grows, Quiet, Quiet-of_same, Quiet-trans,
}

module _ {Node Rng Rate : Type 0} (protocol : ConsensusNode Node) (outputs : Outputs protocol) where
  deliver_one-Quiet :
      (c d : Cluster Node Rng Rate) (msg : NetworkMessage) (out : List NetworkMessage)
      → deliver_one protocol c msg ≡ some (d, out)
      → Quiet protocol outputs c d
  unfolding deliver_one
  deliver_one-Quiet c d msg out h = elim (Option-cases (position protocol msg.to c.nodes)) [
    | inl e ↦ Quiet-of_same protocol outputs c d (ground arith) (ground arith)
    | inr (i, e) ↦ elim (Option-cases (get_elem? c.nodes i)) [
      | inl e' ↦ absurd (ground arith)
      | inr (n, e') ↦ elim (Option-cases (protocol.handle_message n msg)) [
        | inl e'' ↦ absurd (ground arith)
        | inr ((n', o), e'') ↦
            let same : d.nodes ≡ set c.nodes i n' = ground arith in
            record {
              grows = subst (Grows protocol outputs c.nodes) (sym same) (
                  set-Grows protocol outputs c.nodes i n n' e'
                    (outputs.handle_extends n n' msg o e''));
              same_log = ground arith;
            }
      ]
    ]
  ]

  -- Two calls in a row, the second on what the first left.
  deliver_all-Quiet :
      (byzantine : Bool) (c d : Cluster Node Rng Rate) (msgs out : List NetworkMessage)
      → deliver_all protocol byzantine c msgs ≡ some (d, out)
      → Quiet protocol outputs c d
  unfolding deliver_all
  deliver_all-Quiet byzantine c d [] out h =
      Quiet-of_same protocol outputs c d (ground arith) (ground arith)
  deliver_all-Quiet byzantine c d (m ∷ ms) out h =
      let b : Cluster Node Rng Rate =
        if byzantine
        then record c {
          stats = record c.stats { messages_tampered = add_u64 c.stats.messages_tampered 1 };
        }
        else c in
      let start : Quiet protocol outputs c b =
        Quiet-of_same protocol outputs c b (ground arith) (ground arith) in
      elim (Option-cases (deliver_one protocol b m)) [
        | inl e ↦ absurd (ground arith)
        | inr ((c', o), e) ↦ elim (Option-cases (deliver_all protocol byzantine c' ms)) [
          | inl e' ↦ absurd (ground arith)
          | inr ((c'', rest), e') ↦
              let same : c'' ≡ d = ground arith in
              subst (Quiet protocol outputs c) same (
                Quiet-trans protocol outputs c b c'' start (
                  Quiet-trans protocol outputs b c' c'' (deliver_one-Quiet b c' m o e)
                    (deliver_all-Quiet byzantine c' c'' ms rest e')))
        ]
      ]

  module _ (rolls : Rolls Rng Rate) (sha256 : Sha256) where
    route-Quiet :
        (c d : Cluster Node Rng Rate) (msg : NetworkMessage) (out : List NetworkMessage)
        → route protocol rolls sha256 c msg ≡ some (d, out)
        → Quiet protocol outputs c d
    unfolding route count_drop
    route-Quiet c d msg out h =
        let deliver = (should_deliver rolls c.faults msg).0 in
        let faults = (should_deliver rolls c.faults msg).1 in
        let sent = record c {
          faults = faults;
          stats = record c.stats { messages_sent = add_u64 c.stats.messages_sent 1 };
        } in
        let start : Quiet protocol outputs c sent =
          Quiet-of_same protocol outputs c sent refl refl in
        elim (Bool-cases deliver) [
          | inr stopped ↦ Quiet-of_same protocol outputs c d (ground arith) (ground arith)
          | inl passes ↦ elim (List-cases (tamper sha256 faults msg)) [
            | inl e ↦ Quiet-of_same protocol outputs c d (ground arith) (ground arith)
            | inr (m, ms, e) ↦
                let delivered : deliver_all protocol (is_byzantine faults msg.from) sent (m ∷ ms)
                    ≡ some (d, out) =
                  ground arith in
                Quiet-trans protocol outputs c sent d start
                  (deliver_all-Quiet (is_byzantine faults msg.from) sent d (m ∷ ms) out delivered)
          ]
        ]

    route_all-Quiet :
        (c d : Cluster Node Rng Rate) (msgs out : List NetworkMessage)
        → route_all protocol rolls sha256 c msgs ≡ some (d, out)
        → Quiet protocol outputs c d
    unfolding route_all
    route_all-Quiet c d [] out h = Quiet-of_same protocol outputs c d (ground arith) (ground arith)
    route_all-Quiet c d (m ∷ ms) out h = elim (Option-cases (route protocol rolls sha256 c m)) [
      | inl e ↦ absurd (ground arith)
      | inr ((c', o), e) ↦ elim (Option-cases (route_all protocol rolls sha256 c' ms)) [
        | inl e' ↦ absurd (ground arith)
        | inr ((c'', rest), e') ↦
            let same : c'' ≡ d = ground arith in
            subst (Quiet protocol outputs c) same (
              Quiet-trans protocol outputs c c' c'' (route-Quiet c c' m o e)
                (route_all-Quiet c' c'' ms rest e'))
      ]
    ]

    pub step-Quiet :
        (c d : Cluster Node Rng Rate)
        → step protocol rolls sha256 c ≡ some d
        → Quiet protocol outputs c d
    unfolding step enqueue
    step-Quiet c d h =
        let cleared = record c { pending = [] } in
        elim (Option-cases (route_all protocol rolls sha256 cleared c.pending)) [
          | inl e ↦ absurd (ground arith)
          | inr ((c', out), e) ↦
              Quiet-trans protocol outputs c cleared d
                (Quiet-of_same protocol outputs c cleared refl refl)
                (Quiet-trans protocol outputs cleared c' d
                  (route_all-Quiet cleared c' c.pending out e)
                  (Quiet-of_same protocol outputs c' d (ground arith) (ground arith)))
        ]

    pub run_to_completion-Quiet :
        (max_steps steps : ℕ) (c d : Cluster Node Rng Rate)
        → run_to_completion protocol rolls sha256 max_steps c ≡ some (d, steps)
        → Quiet protocol outputs c d
    unfolding run_to_completion
    run_to_completion-Quiet zero steps c d h =
        Quiet-of_same protocol outputs c d (ground arith) (ground arith)
    run_to_completion-Quiet (suc max_steps) steps c d h = elim (List-cases c.pending) [
      | inl e ↦ Quiet-of_same protocol outputs c d (ground arith) (ground arith)
      | inr (m, ms, e) ↦ elim (Option-cases (step protocol rolls sha256 c)) [
        | inl e' ↦ absurd (ground arith)
        | inr (c', e') ↦
            elim (Option-cases (run_to_completion protocol rolls sha256 max_steps c')) [
              | inl e'' ↦ absurd (ground arith)
              | inr ((c'', k), e'') ↦
                  let same : c'' ≡ d = ground arith in
                  subst (Quiet protocol outputs c) same (
                    Quiet-trans protocol outputs c c' c'' (step-Quiet c c' e')
                      (run_to_completion-Quiet max_steps k c' c'' e''))
            ]
      ]
    ]
