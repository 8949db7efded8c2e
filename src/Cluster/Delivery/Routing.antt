-- ===== src/Cluster/Delivery/Routing.antt =====
-- src/cluster/mod.rs: one message of a step, and what is counted of it.
use bft_consensus_bench.Base.{
  ◌+◌, ◌<◌, ◌≡◌, refl, ◌∙◌, ap, Bool, true, false, List, [], some, inl, inr, ◌⊎◌, arith, set,
  add_u64, u64_mod, Option-cases, Bool-cases,
}
use mathlib.Core.List.{append-nil}
use bft_consensus_bench.Types.{Sha256}
use bft_consensus_bench.Network.{NetworkMessage}
use bft_consensus_bench.Consensus.{ConsensusNode}
use bft_consensus_bench.Cluster.Fault.{Rolls, is_byzantine, should_deliver}
use bft_consensus_bench.Cluster.Tamper.Drops.{tamper-cases}
use bft_consensus_bench.Cluster.State.{Cluster, position}
use bft_consensus_bench.Cluster.Delivery.{deliver_one, count_drop, route}
use bft_consensus_bench.Cluster.Delivery.Position.{position-finds}
use bft_consensus_bench.Cluster.Delivery.Counts.{
  Handles, Counted, sent_one, tampered_one, route-dropped, route-swallowed, route-delivered,
}
use bft_consensus_bench.Cluster.Delivery.Fates.{
  Fate, lost, nowhere, handled, drops_of, deliveries_of, FateIs, Acts,
}

module _ {Node Rng Rate : Type 0} (protocol : ConsensusNode Node) (handles : Handles protocol) where
  -- What a delivery leaves as it was, and what it counts.
  record Delivered (c c' : Cluster Node Rng Rate) (fate : Fate) (out : List NetworkMessage)
      : Type 0 where
    faults : c'.faults ≡ c.faults
    pending : c'.pending ≡ c.pending
    acts : Acts protocol c.nodes fate c'.nodes out
    sent : c'.stats.messages_sent ≡ c.stats.messages_sent
    dropped : c'.stats.messages_dropped ≡ c.stats.messages_dropped
    delivered :
        c.stats.messages_delivered + 1 < u64_mod
        → c'.stats.messages_delivered ≡ c.stats.messages_delivered + deliveries_of fate
    steps : c'.stats.total_steps ≡ c.stats.total_steps

  deliver_one-Delivered :
      (c : Cluster Node Rng Rate) (m : NetworkMessage)
      → (c' : Cluster Node Rng Rate) × (out : List NetworkMessage) × (deliver_one protocol c m
          ≡ some (c', out))
        × (Delivered c c' (nowhere m) out ⊎ Delivered c c' (handled m) out)
  unfolding deliver_one
  deliver_one-Delivered c m = elim (Option-cases (position protocol m.to c.nodes)) [
    | inl e ↦ (
      c,
      [],
      (rw (e, deliver_one) refl),
      inl (record {
        faults = refl;
        pending = refl;
        acts = (e, refl, refl);
        sent = refl;
        dropped = refl;
        delivered = λ small. omega arith;
        steps = refl;
      }),
    )
    | inr (i, e) ↦
        let (n, at, own) = position-finds protocol m.to c.nodes i e in
        let ((n', out), done) = handles n m in
        (
          record c {
            nodes = set c.nodes i n';
            stats = record c.stats { messages_delivered = add_u64 c.stats.messages_delivered 1 };
          },
          out,
          ground arith,
          inr (record {
            faults = refl;
            pending = refl;
            acts = (i, n, n', at, own, done, refl);
            sent = refl;
            dropped = refl;
            delivered = λ small. omega arith;
            steps = refl;
          }),
        )
  ]

  module _ (rolls : Rolls Rng Rate) (sha256 : Sha256) where
    -- One message routed.
    pub record Routed (c c' : Cluster Node Rng Rate) (msg : NetworkMessage) (fate : Fate)
        (out : List NetworkMessage) : Type 0 where
      pub faults : c'.faults ≡ (should_deliver rolls c.faults msg).1
      pub pending : c'.pending ≡ c.pending
      pub is : FateIs rolls sha256 c.faults msg fate
      pub acts : Acts protocol c.nodes fate c'.nodes out
      pub sent : c'.stats.messages_sent ≡ c.stats.messages_sent + 1
      pub dropped : c'.stats.messages_dropped ≡ c.stats.messages_dropped + drops_of fate
      pub delivered : c'.stats.messages_delivered ≡ c.stats.messages_delivered + deliveries_of fate
      pub steps : c'.stats.total_steps ≡ c.stats.total_steps

    count_drop-Routed :
        (c : Cluster Node Rng Rate) (msg : NetworkMessage)
        → c.stats.messages_sent + 1 < u64_mod
        → Counted c
        → FateIs rolls sha256 c.faults msg lost
        → Routed c
            (count_drop protocol rolls sha256 (sent_one protocol handles rolls sha256 c msg))
            msg
            lost
            []
    unfolding count_drop
    count_drop-Routed c msg small counted is = record {
      faults = refl;
      pending = refl;
      is = is;
      acts = (refl, refl);
      sent = omega arith;
      dropped = omega arith;
      delivered = omega arith;
      steps = refl;
    }

    Delivered-Routed :
        (c c' : Cluster Node Rng Rate) (msg : NetworkMessage) (fate : Fate)
        (out : List NetworkMessage)
        → c.stats.messages_sent + 1 < u64_mod
        → Counted c
        → FateIs rolls sha256 c.faults msg fate
        → drops_of fate ≡ 0
        → (byzantine : Bool)
        → Delivered
            (tampered_one protocol handles rolls sha256 byzantine
              (sent_one protocol handles rolls sha256 c msg))
            c'
            fate
            out
        → Routed c c' msg fate out
    Delivered-Routed c c' msg fate out small counted is none_lost true d = record {
      faults = d.faults;
      pending = d.pending;
      is = is;
      acts = d.acts;
      sent = omega (arith, d.sent);
      dropped = omega (arith, d.dropped, none_lost);
      delivered = d.delivered (omega arith);
      steps = d.steps;
    }
    Delivered-Routed c c' msg fate out small counted is none_lost false d = record {
      faults = d.faults;
      pending = d.pending;
      is = is;
      acts = d.acts;
      sent = omega (arith, d.sent);
      dropped = omega (arith, d.dropped, none_lost);
      delivered = d.delivered (omega arith);
      steps = d.steps;
    }

    pub route-Routed :
        (c : Cluster Node Rng Rate) (msg : NetworkMessage)
        → c.stats.messages_sent + 1 < u64_mod
        → Counted c
        → (c' : Cluster Node Rng Rate) × (out : List NetworkMessage) × (fate : Fate) × (route
              protocol rolls sha256 c msg
            ≡ some (c', out))
          × Routed c c' msg fate out
    route-Routed c msg small counted =
        let f = (should_deliver rolls c.faults msg).1 in
        let sent = sent_one protocol handles rolls sha256 c msg in
        let dropped = count_drop protocol rolls sha256 sent in
        elim (Bool-cases (should_deliver rolls c.faults msg).0) [
          | inr stops ↦ (
            dropped,
            [],
            lost,
            route-dropped protocol handles rolls sha256 c msg stops,
            count_drop-Routed c msg small counted (inl stops),
          )
          | inl passes ↦ elim (tamper-cases sha256 f msg) [
            | inl (drop, left) ↦ (
              dropped,
              [],
              lost,
              route-swallowed protocol handles rolls sha256 c msg passes left,
              count_drop-Routed c msg small counted (inr drop),
            )
            | inr (keep, m, r, left) ↦
                let byzantine = is_byzantine f msg.from in
                let (c', out, done, d) =
                  deliver_one-Delivered (tampered_one protocol handles rolls sha256 byzantine sent)
                    m in
                let routes =
                  route-delivered protocol handles rolls sha256 c c' msg m out passes left done
                  ∙ ap (λ o. some (c', o)) (append-nil out) in
                elim d [
                  | inl gone ↦ (
                    c',
                    out,
                    nowhere m,
                    routes,
                    Delivered-Routed c c' msg (nowhere m) out small counted (passes, left) refl
                        byzantine gone,
                  )
                  | inr there ↦ (
                    c',
                    out,
                    handled m,
                    routes,
                    Delivered-Routed c c' msg (handled m) out small counted (passes, left) refl
                        byzantine there,
                  )
                ]
          ]
        ]
