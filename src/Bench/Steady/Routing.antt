-- ===== src/Bench/Steady/Routing.antt =====
-- src/cluster/mod.rs: a step of a cluster whose nodes are calm and whose messages are usual.
use bft_consensus_bench.Base.{
  ℕ, zero, suc, ◌≡◌, refl, sym, ◌∙◌, ap, subst, Bool, if◌then◌else◌, List, [], ◌∷◌, ◌++◌, some,
  Option, get_elem?, set, arith, inl, inr, Option-cases, Bool-cases, List-cases, add_u64, All,
  All-append,
}
use bft_consensus_bench.Types.{Sha256}
use bft_consensus_bench.Network.{NetworkMessage, ProtocolMessage}
use bft_consensus_bench.Consensus.{ConsensusNode}
use bft_consensus_bench.Cluster.Fault.{Rolls, FaultConfig, is_byzantine, should_deliver}
use bft_consensus_bench.Cluster.Tamper.{tamper}
use bft_consensus_bench.Bench.Steady.Messages.{AllUsual, Steady, tamper-AllUsual}
use bft_consensus_bench.Cluster.State.{Cluster, enqueue, position}
use bft_consensus_bench.Cluster.Delivery.{
  deliver_one, deliver_all, count_drop, route, route_all, step, run_to_completion,
}
use bft_consensus_bench.Cluster.Delivery.Position.{position-finds}

module _ {Node : Type 0} (protocol : ConsensusNode Node) (sha256 : Sha256) (Calm : Node → Type 0)
    (Usual : ProtocolMessage → Type 0) (steady : Steady protocol sha256 Calm Usual) where
  -- Node 0 stands first.
  abbrev pub HeadZero : List Node → Type 0
  HeadZero [] = ⊥
  HeadZero (n ∷ ns) = protocol.id n ≡ 0

  set-HeadZero :
      (ns : List Node) (i : ℕ) (n n' : Node)
      → get_elem? ns i ≡ some n
      → protocol.id n' ≡ protocol.id n
      → HeadZero ns
      → HeadZero (set ns i n')
  set-HeadZero [] i n n' e f h = h
  set-HeadZero (k ∷ ns) zero n n' e f h = let same : n ≡ k = cc in f ∙ ap protocol.id same ∙ h
  set-HeadZero (k ∷ ns) (suc i) n n' e f h = h

  All-get : (ns : List Node) (i : ℕ) (n : Node) → get_elem? ns i ≡ some n → All Calm ns → Calm n
  All-get [] i n e h = cc
  All-get (k ∷ ns) zero n e h = let same : k ≡ n = cc in subst Calm same h.0
  All-get (k ∷ ns) (suc i) n e h = All-get ns i n e h.1

  All-set : (ns : List Node) (i : ℕ) (n : Node) → Calm n → All Calm ns → All Calm (set ns i n)
  All-set [] i n c h = h
  All-set (k ∷ ns) zero n c h = (c, h.1)
  All-set (k ∷ ns) (suc i) n c h = (h.0, All-set ns i n c h.1)

  module _ {Rng Rate : Type 0} where
    -- Calm nodes of which node 0 is not cut off, and usual messages on their way.
    pub record CalmCluster (c : Cluster Node Rng Rate) : Type 0 where
      pub head : HeadZero c.nodes
      pub calm : All Calm c.nodes
      pub connected : c.faults.isolated_nodes ≡ []
      pub usual : AllUsual Usual c.pending

    -- A call that returns, and leaves the nodes calm and usual messages to send.
    abbrev pub Returns : Option (Cluster Node Rng Rate × List NetworkMessage) → Type 0
    Returns r =
        (d : Cluster Node Rng Rate) × (out : List NetworkMessage) × (r ≡ some (d, out))
        × CalmCluster d
        × AllUsual Usual out

    deliver_one-Returns :
        (c : Cluster Node Rng Rate) (m : NetworkMessage)
        → CalmCluster c
        → Usual m.payload
        → Returns (deliver_one protocol c m)
    unfolding deliver_one
    deliver_one-Returns c m k u = elim (Option-cases (position protocol m.to c.nodes)) [
      | inl e ↦ (c, [], (rw (e, deliver_one) refl), k, tt)
      | inr (i, e) ↦
          let (n, at, own) = position-finds protocol m.to c.nodes i e in
          let (n', out, done, same, calm, usual) =
            steady.handles n m (All-get c.nodes i n at k.calm) u in
          (
            record c {
              nodes = set c.nodes i n';
              stats = record c.stats { messages_delivered = add_u64 c.stats.messages_delivered 1 };
            },
            out,
            ground arith,
            record {
              head = set-HeadZero c.nodes i n n' at same k.head;
              calm = All-set c.nodes i n' calm k.calm;
              connected = k.connected;
              usual = k.usual;
            },
            usual,
          )
    ]

    -- The nodes and the isolated ones are what matters.
    CalmCluster-of_same :
        (c d : Cluster Node Rng Rate)
        → d.nodes ≡ c.nodes
        → d.faults.isolated_nodes ≡ c.faults.isolated_nodes
        → d.pending ≡ c.pending
        → CalmCluster c
        → CalmCluster d
    CalmCluster-of_same c d e f g k = record {
      head = subst HeadZero (sym e) k.head;
      calm = subst (All Calm) (sym e) k.calm;
      connected = f ∙ k.connected;
      usual = subst (AllUsual Usual) (sym g) k.usual;
    }

    deliver_all-Returns :
        (byzantine : Bool) (c : Cluster Node Rng Rate) (ms : List NetworkMessage)
        → CalmCluster c
        → AllUsual Usual ms
        → Returns (deliver_all protocol byzantine c ms)
    unfolding deliver_all
    deliver_all-Returns byzantine c [] k u = (c, [], refl, k, tt)
    deliver_all-Returns byzantine c (m ∷ ms) k (u, us) =
        let b : Cluster Node Rng Rate =
          if byzantine
          then record c {
            stats = record c.stats { messages_tampered = add_u64 c.stats.messages_tampered 1 };
          }
          else c in
        let (c1, out, done, k1, u1) =
          deliver_one-Returns b m
            (CalmCluster-of_same c b (ground arith) (ground arith) (ground arith) k) u in
        let (c2, rest, done', k2, u2) = deliver_all-Returns byzantine c1 ms k1 us in
        (c2, out ++ rest, rw (done, deliver_all) (rw done' refl), k2, All-append _ out rest u1 u2)

    module _ (rolls : Rolls Rng Rate) where
      should_deliver-isolated :
          (f : FaultConfig Rng Rate) (m : NetworkMessage)
          → (should_deliver rolls f m).1.isolated_nodes ≡ f.isolated_nodes
      unfolding should_deliver
      should_deliver-isolated f m = ground arith

      route-Returns :
          (c : Cluster Node Rng Rate) (m : NetworkMessage)
          → CalmCluster c
          → Usual m.payload
          → Returns (route protocol rolls sha256 c m)
      unfolding route count_drop
      route-Returns c m k u =
          let faults = (should_deliver rolls c.faults m).1 in
          let sent = record c {
            faults = faults;
            stats = record c.stats { messages_sent = add_u64 c.stats.messages_sent 1 };
          } in
          let dropped = record sent {
            stats = record sent.stats { messages_dropped = add_u64 sent.stats.messages_dropped 1 };
          } in
          let same = should_deliver-isolated c.faults m in
          let k' = CalmCluster-of_same c sent refl same refl k in
          elim (Bool-cases (should_deliver rolls c.faults m).0) [
            | inr stops ↦
                (dropped, [], ground arith, CalmCluster-of_same c dropped refl same refl k, tt)
            | inl passes ↦ elim (List-cases (tamper sha256 faults m)) [
              | inl e ↦
                  (dropped, [], ground arith, CalmCluster-of_same c dropped refl same refl k, tt)
              | inr (x, xs, e) ↦
                  let left : AllUsual Usual (x ∷ xs) =
                    subst (AllUsual Usual) e
                      (tamper-AllUsual protocol sha256 Calm Usual steady faults m u) in
                  let (d, out, done, kd, ud) =
                    deliver_all-Returns (is_byzantine faults m.from) sent (x ∷ xs) k' left in
                  (d, out, ground arith, kd, ud)
            ]
          ]

      route_all-Returns :
          (c : Cluster Node Rng Rate) (ms : List NetworkMessage)
          → CalmCluster c
          → AllUsual Usual ms
          → Returns (route_all protocol rolls sha256 c ms)
      unfolding route_all
      route_all-Returns c [] k u = (c, [], refl, k, tt)
      route_all-Returns c (m ∷ ms) k (u, us) =
          let (c1, out, done, k1, u1) = route-Returns c m k u in
          let (c2, rest, done', k2, u2) = route_all-Returns c1 ms k1 us in
          (c2, out ++ rest, rw (done, route_all) (rw done' refl), k2, All-append _ out rest u1 u2)

      step-CalmCluster :
          (c : Cluster Node Rng Rate)
          → CalmCluster c
          → (d : Cluster Node Rng Rate) × (step protocol rolls sha256 c ≡ some d) × CalmCluster d
      unfolding step enqueue
      step-CalmCluster c k =
          let cleared = record c { pending = [] } in
          let (c1, out, done, k1, u1) =
            route_all-Returns cleared c.pending
              (record { head = k.head; calm = k.calm; connected = k.connected; usual = tt })
              k.usual in
          let stats = record c1.stats { total_steps = add_u64 c1.stats.total_steps 1 } in
          let d = record c1 { pending = c1.pending ++ out; stats = stats } in
          (
            d,
            rw (done, step) refl,
            record {
              head = k1.head;
              calm = k1.calm;
              connected = k1.connected;
              usual = All-append _ c1.pending out k1.usual u1;
            },
          )

      run-next :
          (max_steps steps : ℕ) (c c1 d : Cluster Node Rng Rate) (m : NetworkMessage)
          (ms : List NetworkMessage)
          → c.pending ≡ m ∷ ms
          → step protocol rolls sha256 c ≡ some c1
          → run_to_completion protocol rolls sha256 max_steps c1 ≡ some (d, steps)
          → run_to_completion protocol rolls sha256 (suc max_steps) c ≡ some (d, suc steps)
      unfolding run_to_completion
      run-next max_steps steps c c1 d m ms e done rest =
          rw (e, run_to_completion) (rw done (rw rest refl))

      pub run-CalmCluster :
          (max_steps : ℕ) (c : Cluster Node Rng Rate)
          → CalmCluster c
          → (d : Cluster Node Rng Rate) × (steps : ℕ) × (run_to_completion protocol rolls sha256
                max_steps c
              ≡ some (d, steps))
            × CalmCluster d
      unfolding run_to_completion
      run-CalmCluster zero c k = (c, 0, refl, k)
      run-CalmCluster (suc max_steps) c k = elim (List-cases c.pending) [
        | inl e ↦ (c, 0, ground arith, k)
        | inr (m, ms, e) ↦
            let (c1, done, k1) = step-CalmCluster c k in
            let (d, steps, done', kd) = run-CalmCluster max_steps c1 k1 in
            (d, suc steps, run-next max_steps steps c c1 d m ms e done done', kd)
      ]
