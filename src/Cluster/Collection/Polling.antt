-- ===== src/Cluster/Collection/Polling.antt =====
-- src/cluster/mod.rs: the collection moves each node's queue behind its entries of the log.
use bft_consensus_bench.Base.{
  ◌≡◌, refl, sym, ◌∙◌, ap, false, ◌==◌, if◌then◌else◌, List, [], ◌∷◌, ◌++◌, some, none, arith, inl,
  inr, List-cases, ==_self,
}
use mathlib.Core.List.{append-nil}
use bft_consensus_bench.Base.NodeSet
use bft_consensus_bench.Base.NodeSet.{IsDistinct}
use bft_consensus_bench.Base.Map
use bft_consensus_bench.Types.{NodeId}
use bft_consensus_bench.Consensus.{ConsensusNode, CommittedEntry}
use bft_consensus_bench.Consensus.Outputs.{Outputs}
use bft_consensus_bench.Cluster.CommitLog
use bft_consensus_bench.Cluster.CommitLog.{CommitLog}
use bft_consensus_bench.Cluster.State.{record_all, poll_nodes}

-- The entries of a node in the log.
unfoldable pub logged : CommitLog → NodeId → List CommittedEntry
logged log id = elim (Map.get id log.commits) [ none ↦ [] | some es ↦ es ]

record_commits-logged :
    (log : CommitLog) (node id : NodeId) (es : List CommittedEntry)
    → logged (CommitLog.record_commits log node es) id
      ≡ (if node == id then logged log node ++ es else logged log id)
unfolding logged CommitLog.record_commits
record_commits-logged log node id es =
    ground (arith, Map.get-insert node id (logged log node ++ es) log.commits)

module _ {Node : Type 0} (protocol : ConsensusNode Node) (outputs : Outputs protocol) where
  abbrev pub ids : List Node → List NodeId
  ids [] = []
  ids (n ∷ ns) = protocol.id n ∷ ids ns

  -- What each node has committed: its entries of the log, then its queue.
  abbrev pub delivered : CommitLog → List Node → List (List CommittedEntry)
  delivered log [] = []
  delivered log (n ∷ ns) = (logged log (protocol.id n) ++ outputs.queue n) ∷ delivered log ns

  -- A log that differs at no node of the list.
  delivered-record_other :
      (log : CommitLog) (node : NodeId) (es : List CommittedEntry) (ns : List Node)
      → NodeSet.contains node (ids ns) ≡ false
      → delivered (CommitLog.record_commits log node es) ns ≡ delivered log ns
  unfolding NodeSet.contains
  delivered-record_other log node es [] h = refl
  delivered-record_other log node es (n ∷ ns) h =
      let other : (node == protocol.id n) ≡ false = ground arith in
      let rest = delivered-record_other log node es ns (ground arith) in
      let head = record_commits-logged log node (protocol.id n) es in
      ground (arith, rest, head, other)

  record_polled-other :
      (log : CommitLog) (id : NodeId) (ns : List Node)
      → NodeSet.contains id (ids ns) ≡ false
      → logged (record_all log (poll_nodes protocol ns).1) id ≡ logged log id
  unfolding poll_nodes record_all NodeSet.contains
  record_polled-other log id [] h = refl
  record_polled-other log id (n ∷ ns) h =
      let es = (protocol.poll_committed n).1 in
      let other : (protocol.id n == id) ≡ false = ground arith in
      let head = record_commits-logged log (protocol.id n) id es in
      elim (List-cases es) [
        | inl e ↦ let rest = record_polled-other log id ns (ground arith) in ground (arith, rest, e)
        | inr (x, xs, e) ↦
            let rest =
              record_polled-other (CommitLog.record_commits log (protocol.id n) es) id ns
                (ground arith) in
            ground (arith, rest, head, other, e)
      ]

  pub poll-ids : (ns : List Node) → ids (poll_nodes protocol ns).0 ≡ ids ns
  unfolding poll_nodes
  poll-ids [] = refl
  poll-ids (n ∷ ns) =
      let first = outputs.poll_id n in let rest = poll-ids ns in ground (arith, first, rest)

  -- Every queue is empty.
  abbrev pub AreEmpty : List Node → Type 0
  AreEmpty [] = Unit
  AreEmpty (n ∷ ns) = (outputs.queue n ≡ []) × AreEmpty ns

  pub poll-AreEmpty : (ns : List Node) → AreEmpty (poll_nodes protocol ns).0
  unfolding poll_nodes
  poll-AreEmpty [] = tt
  poll-AreEmpty (n ∷ ns) = (outputs.poll_empties n, poll-AreEmpty ns)

  -- The node at the head, polled, when its entries of the log are known.
  polled_head :
      (log : CommitLog) (n : Node) (es : List CommittedEntry)
      → logged log (protocol.id n) ≡ es
      → logged log (protocol.id (protocol.poll_committed n).0)
          ++ outputs.queue (protocol.poll_committed n).0
        ≡ es
  polled_head log n es e =
      ap (λ q. logged log (protocol.id (protocol.poll_committed n).0) ++ q) (outputs.poll_empties n)
      ∙ append-nil _
      ∙ ap (logged log) (outputs.poll_id n)
      ∙ e

  pub poll-delivered :
      (log : CommitLog) (ns : List Node)
      → IsDistinct (ids ns)
      → delivered (record_all log (poll_nodes protocol ns).1) (poll_nodes protocol ns).0
        ≡ delivered log ns
  unfolding poll_nodes record_all
  poll-delivered log [] d = refl
  poll-delivered log (n ∷ ns) (fresh, d) =
      let es = (protocol.poll_committed n).1 in
      let taken : es ≡ outputs.queue n = outputs.poll_takes n in
      let id = protocol.id n in
      elim (List-cases es) [
        | inl e ↦
            let after = record_all log (poll_nodes protocol ns).1 in
            let rest = poll-delivered log ns d in
            let old : logged log id ≡ logged log id ++ outputs.queue n =
              sym (append-nil _) ∙ ap (λ q. logged log id ++ q) (sym e ∙ taken) in
            let head =
              polled_head after n (logged log id ++ outputs.queue n)
                (record_polled-other log id ns fresh ∙ old) in
            ground (arith, rest, head, e)
        | inr (x, xs, e) ↦
            let noted = CommitLog.record_commits log id es in
            let after = record_all noted (poll_nodes protocol ns).1 in
            let rest = poll-delivered noted ns d ∙ delivered-record_other log id es ns fresh in
            let now : logged noted id ≡ logged log id ++ es =
              record_commits-logged log id id es
              ∙ ap (λ b. if b then logged log id ++ es else logged log id) (==_self id) in
            let head =
              polled_head after n (logged log id ++ outputs.queue n) (
                record_polled-other noted id ns fresh ∙ now ∙ ap (λ q. logged log id ++ q) taken) in
            ground (arith, rest, head, e)
      ]
