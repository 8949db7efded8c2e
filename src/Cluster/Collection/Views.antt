-- ===== src/Cluster/Collection/Views.antt =====
-- src/cluster/mod.rs: what the caller and the log of a cluster have of each node.
use bft_consensus_bench.Base.{◌≡◌, refl, sym, ◌∙◌, ap, subst, List, [], ◌∷◌, ◌++◌, arith}
use mathlib.Core.List.{append_assoc, append-nil}
use bft_consensus_bench.Base.NodeSet.{IsDistinct}
use bft_consensus_bench.Consensus.{ConsensusNode, CommittedEntry}
use bft_consensus_bench.Consensus.Outputs.{Extends, Extends-of_same, Extends-trans, Outputs}
use bft_consensus_bench.Cluster.CommitLog.{CommitLog}
use bft_consensus_bench.Cluster.State.{Cluster, record_all, poll_nodes}
use bft_consensus_bench.Cluster.Collection.Growth.{Grows, Quiet}
use bft_consensus_bench.Cluster.Collection.Polling.{
  logged, ids, delivered, poll-ids, AreEmpty, poll-AreEmpty, poll-delivered,
}

-- The abstract view of a cluster is one list of entries per node, which only grows at its end.
abbrev pub AppendOnly : List (List CommittedEntry) → List (List CommittedEntry) → Type 0
AppendOnly [] [] = Unit
AppendOnly [] (y ∷ ys) = ⊥
AppendOnly (x ∷ xs) [] = ⊥
AppendOnly (x ∷ xs) (y ∷ ys) = Extends x y × AppendOnly xs ys

pub AppendOnly-refl : (xs : List (List CommittedEntry)) → AppendOnly xs xs
AppendOnly-refl [] = tt
AppendOnly-refl (x ∷ xs) = (Extends-of_same x x refl, AppendOnly-refl xs)

pub AppendOnly-trans :
    (xs ys zs : List (List CommittedEntry)) → AppendOnly xs ys → AppendOnly ys zs → AppendOnly xs zs
AppendOnly-trans [] [] zs g h = h
AppendOnly-trans [] (y ∷ ys) zs g h = elim g [ ]
AppendOnly-trans (x ∷ xs) [] zs g h = elim g [ ]
AppendOnly-trans (x ∷ xs) (y ∷ ys) [] g h = h
AppendOnly-trans (x ∷ xs) (y ∷ ys) (z ∷ zs) (e, g) (f, h) =
    (Extends-trans x y z e f, AppendOnly-trans xs ys zs g h)

module _ {Node : Type 0} (protocol : ConsensusNode Node) (outputs : Outputs protocol) where
  -- What each node has committed: what was given of it, then its queue.
  abbrev pub all_delivered :
      {Rng Rate : Type 0} → Cluster Node Rng Rate → CommitLog → List (List CommittedEntry)
  all_delivered c given = delivered protocol outputs given c.nodes

  -- The log alone, for each node.
  abbrev pub logs : CommitLog → List Node → List (List CommittedEntry)
  logs log [] = []
  logs log (n ∷ ns) = logged log (protocol.id n) ∷ logs log ns

  pub delivered-AreEmpty :
      (log : CommitLog) (ns : List Node)
      → AreEmpty protocol outputs ns
      → delivered protocol outputs log ns ≡ logs log ns
  delivered-AreEmpty log [] h = refl
  delivered-AreEmpty log (n ∷ ns) (e, h) =
      let rest = delivered-AreEmpty log ns h in
      let head : logged log (protocol.id n) ++ outputs.queue n ≡ logged log (protocol.id n) =
        ap (λ q. logged log (protocol.id n) ++ q) e ∙ append-nil _ in
      ground (arith, rest, head)

  -- The nodes keep their ids, and each node's entries only grow at the end.
  pub record Refines {Rng Rate : Type 0} (c : Cluster Node Rng Rate) (given : CommitLog)
      (d : Cluster Node Rng Rate) (given' : CommitLog) : Type 0 where
    pub same_ids : ids protocol outputs d.nodes ≡ ids protocol outputs c.nodes
    pub append_only : AppendOnly (all_delivered c given) (all_delivered d given')

  Grows-Refines :
      (log : CommitLog) (ns ms : List Node)
      → Grows protocol outputs ns ms
      → (ids protocol outputs ms ≡ ids protocol outputs ns)
        × AppendOnly (delivered protocol outputs log ns) (delivered protocol outputs log ms)
  unfolding logged
  Grows-Refines log [] [] g = (refl, tt)
  Grows-Refines log [] (m ∷ ms) g = elim g [ ]
  Grows-Refines log (n ∷ ns) [] g = elim g [ ]
  Grows-Refines log (n ∷ ns) (m ∷ ms) ((same, (more, grown)), g) =
      let (rest_ids, rest) = Grows-Refines log ns ms g in
      let old : logged log (protocol.id m) ≡ logged log (protocol.id n) = ground (arith, same) in
      (
        ground (arith, same, rest_ids),
        (
          (
            more,
            ground (arith, old, grown)
                ∙ sym (append_assoc (logged log (protocol.id n)) (outputs.queue n) more),
          ),
          rest,
        ),
      )

  pub Quiet-Refines :
      {Rng Rate : Type 0} (c d : Cluster Node Rng Rate) (given : CommitLog)
      → Quiet protocol outputs c d
      → Refines c given d given
  Quiet-Refines c d given q =
      let (same, grown) = Grows-Refines given c.nodes d.nodes q.grows in
      record { same_ids = same; append_only = grown }

  -- A collection, recorded or not, moves entries and changes nothing in the abstract view.
  pub poll-Refines :
      {Rng Rate : Type 0} (c d : Cluster Node Rng Rate) (given : CommitLog)
      → IsDistinct (ids protocol outputs c.nodes)
      → d.nodes ≡ (poll_nodes protocol c.nodes).0
      → Refines c given d (record_all given (poll_nodes protocol c.nodes).1)
        × ((all_delivered d (record_all given (poll_nodes protocol c.nodes).1)
              ≡ all_delivered c given)
            × AreEmpty protocol outputs d.nodes)
  poll-Refines c d given distinct e =
      let same =
        ap (delivered protocol outputs (record_all given (poll_nodes protocol c.nodes).1)) e
        ∙ poll-delivered protocol outputs given c.nodes distinct in
      (
        record {
          same_ids = ap (ids protocol outputs) e ∙ poll-ids protocol outputs c.nodes;
          append_only = subst (AppendOnly (all_delivered c given)) (sym same) (AppendOnly-refl _);
        },
        (same, subst (AreEmpty protocol outputs) (sym e) (poll-AreEmpty protocol outputs c.nodes)),
      )
