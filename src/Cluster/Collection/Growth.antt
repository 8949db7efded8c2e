-- ===== src/Cluster/Collection/Growth.antt =====
-- src/cluster/mod.rs: what the calls of a cluster do to the queues of its nodes.
use bft_consensus_bench.Base.{
  ℕ, zero, suc, ◌≡◌, refl, sym, ◌∙◌, subst, List, [], ◌∷◌, some, get_elem?, set, arith, inl, inr,
  Option-cases,
}
use bft_consensus_bench.Network.{NetworkMessage}
use bft_consensus_bench.Consensus.{ConsensusNode}
use bft_consensus_bench.Consensus.Outputs.{Extends, Extends-of_same, Extends-trans, Outputs}
use bft_consensus_bench.Cluster.State.{Cluster, tick_nodes}

module _ {Node : Type 0} (protocol : ConsensusNode Node) (outputs : Outputs protocol) where
  -- Node by node: the same id, and the same queue with more behind it.
  abbrev pub Grows : List Node → List Node → Type 0
  Grows [] [] = Unit
  Grows [] (m ∷ ms) = ⊥
  Grows (n ∷ ns) [] = ⊥
  Grows (n ∷ ns) (m ∷ ms) =
      ((protocol.id m ≡ protocol.id n) × Extends (outputs.queue n) (outputs.queue m)) × Grows ns ms

  pub Grows-refl : (ns : List Node) → Grows ns ns
  Grows-refl [] = tt
  Grows-refl (n ∷ ns) = ((refl, Extends-of_same _ _ refl), Grows-refl ns)

  pub Grows-trans : (ns ms ks : List Node) → Grows ns ms → Grows ms ks → Grows ns ks
  Grows-trans [] [] [] g h = tt
  Grows-trans [] [] (k ∷ ks) g h = h
  Grows-trans [] (m ∷ ms) ks g h = elim g [ ]
  Grows-trans (n ∷ ns) [] ks g h = elim g [ ]
  Grows-trans (n ∷ ns) (m ∷ ms) [] g h = h
  Grows-trans (n ∷ ns) (m ∷ ms) (k ∷ ks) ((e, x), g) ((e', x'), h) =
      ((e' ∙ e, Extends-trans _ _ _ x x'), Grows-trans ns ms ks g h)

  pub set-Grows :
      (ns : List Node) (i : ℕ) (n n' : Node)
      → get_elem? ns i ≡ some n
      → (protocol.id n' ≡ protocol.id n) × Extends (outputs.queue n) (outputs.queue n')
      → Grows ns (set ns i n')
  set-Grows [] i n n' e g = cc
  set-Grows (k ∷ ns) zero n n' e g =
      let same : n ≡ k = cc in
      (
        subst (λ m. (protocol.id n' ≡ protocol.id m) × Extends (outputs.queue m) (outputs.queue n'))
            same g,
        Grows-refl ns,
      )
  set-Grows (k ∷ ns) (suc i) n n' e g = ((refl, Extends-of_same _ _ refl), set-Grows ns i n n' e g)

  pub tick_nodes-Grows :
      (ns ms : List Node) (out : List NetworkMessage)
      → tick_nodes protocol ns ≡ some (ms, out)
      → Grows ns ms
  unfolding tick_nodes
  tick_nodes-Grows [] ms out h =
      let none_left : ms ≡ [] = ground arith in subst (Grows []) (sym none_left) tt
  tick_nodes-Grows (n ∷ ns) ms out h = elim (Option-cases (protocol.tick n)) [
    | inl e ↦ absurd (ground arith)
    | inr ((n', o), e) ↦ elim (Option-cases (tick_nodes protocol ns)) [
      | inl e' ↦ absurd (ground arith)
      | inr ((ns', rest), e') ↦
          let same : ms ≡ n' ∷ ns' = ground arith in
          subst (Grows (n ∷ ns)) (sym same)
            (outputs.tick_extends n n' o e, tick_nodes-Grows ns ns' rest e')
    ]
  ]

  module _ {Rng Rate : Type 0} where
    -- The nodes have grown, and the log of commits is as before.
    pub record Quiet (c d : Cluster Node Rng Rate) : Type 0 where
      pub grows : Grows c.nodes d.nodes
      pub same_log : d.commit_log ≡ c.commit_log

    pub Quiet-of_same :
        (c d : Cluster Node Rng Rate) → d.nodes ≡ c.nodes → d.commit_log ≡ c.commit_log → Quiet c d
    Quiet-of_same c d e f = record {
      grows = subst (Grows c.nodes) (sym e) (Grows-refl c.nodes);
      same_log = f;
    }

    pub Quiet-trans : (c d e : Cluster Node Rng Rate) → Quiet c d → Quiet d e → Quiet c e
    Quiet-trans c d e q r = record {
      grows = Grows-trans c.nodes d.nodes e.nodes q.grows r.grows;
      same_log = r.same_log ∙ q.same_log;
    }
