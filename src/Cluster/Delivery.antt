-- ===== src/Cluster/Delivery.antt =====
-- src/cluster/mod.rs: `step` and `run_to_completion`. `none` is a panic in a node.
pub mod Position
pub mod Counts
pub mod Fates
pub mod Routing
pub mod Accounts
pub mod Completion
use bft_consensus_bench.Base.{
  ℕ, zero, suc, ◌+◌, Bool, true, false, not, ◌&&◌, ◌||◌, List, [], ◌∷◌, ◌++◌, Option, none, some,
  ◌==◌, if◌then◌else◌, ◌>>=◌, length, get_elem?, set, keep_if, range, add_u64,
}
use bft_consensus_bench.Types.{NodeId, Payload, Sha256}
use bft_consensus_bench.Network.{NetworkMessage}
use bft_consensus_bench.Consensus.{
  ConsensusNode, ProposeResult, accepted, not_leader, CommittedEntry, is_leader,
}
use bft_consensus_bench.Cluster.Fault.{
  FaultConfig, Rolls, is_isolated, is_byzantine, should_deliver,
}
use bft_consensus_bench.Cluster.Tamper.{tamper}
use bft_consensus_bench.Cluster.CommitLog
use bft_consensus_bench.Cluster.CommitLog.{CommitLog, InvariantResult}
use bft_consensus_bench.Cluster.State.{
  ClusterStats, Cluster, enqueue, set_faults, size, honest_nodes, record_all, position, tick_nodes,
  poll_nodes,
}

module _ {Node Rng Rate : Type 0} (protocol : ConsensusNode Node) where
  -- One message at its target, if there is such a node; the answers come out.
  unfoldable pub deliver_one :
      Cluster Node Rng Rate → NetworkMessage → Option (Cluster Node Rng Rate × List NetworkMessage)
  unfolding position
  deliver_one c msg = elim (position protocol msg.to c.nodes) [
    | none ↦ some (c, [])
    | some idx ↦ do
      node ← get_elem? c.nodes idx
      (node', out) ← protocol.handle_message node msg
      some (
        record c {
          nodes = set c.nodes idx node';
          stats = record c.stats { messages_delivered = add_u64 c.stats.messages_delivered 1 };
        },
        out,
      )
  ]

  -- The messages that tampering left of one.
  unfoldable pub deliver_all :
      Bool
      → Cluster Node Rng Rate
      → List NetworkMessage
      → Option (Cluster Node Rng Rate × List NetworkMessage)
  unfolding deliver_one
  deliver_all byzantine c [] = some (c, [])
  deliver_all byzantine c (msg ∷ msgs) = do
    let tampered = add_u64 c.stats.messages_tampered 1
    (c', out) ←
        deliver_one
          (if byzantine
            then record c { stats = record c.stats { messages_tampered = tampered } }
            else c)
          msg
    (c'', rest) ← deliver_all byzantine c' msgs
    some (c'', out ++ rest)

  module _ (rolls : Rolls Rng Rate) (sha256 : Sha256) where
    unfoldable pub count_drop : Cluster Node Rng Rate → Cluster Node Rng Rate
    count_drop c = record c {
      stats = record c.stats { messages_dropped = add_u64 c.stats.messages_dropped 1 };
    }

    -- One pending message: faults, tampering, delivery.
    unfoldable pub route :
        Cluster Node Rng Rate
        → NetworkMessage
        → Option (Cluster Node Rng Rate × List NetworkMessage)
    unfolding should_deliver tamper deliver_all count_drop
    route c msg =
        let (deliver, faults) = should_deliver rolls c.faults msg in
        let sent = record c {
          faults = faults;
          stats = record c.stats { messages_sent = add_u64 c.stats.messages_sent 1 };
        } in
        if not deliver then some (count_drop sent, []) else elim (tamper sha256 faults msg) [
          | [] ↦ some (count_drop sent, [])
          | m ∷ ms ↦ deliver_all (is_byzantine faults msg.from) sent (m ∷ ms)
        ]

    unfoldable pub route_all :
        Cluster Node Rng Rate
        → List NetworkMessage
        → Option (Cluster Node Rng Rate × List NetworkMessage)
    unfolding route
    route_all c [] = some (c, [])
    route_all c (msg ∷ msgs) = do
      (c', out) ← route c msg
      (c'', rest) ← route_all c' msgs
      some (c'', out ++ rest)

    unfoldable pub step : Cluster Node Rng Rate → Option (Cluster Node Rng Rate)
    unfolding route_all enqueue
    step c = do
      (c', new_messages) ← route_all (record c { pending = [] }) c.pending
      some (
          enqueue
            (record c' { stats = record c'.stats { total_steps = add_u64 c'.stats.total_steps 1 } })
            new_messages)

    -- The cluster and the number of steps made; `max_steps` bounds them, as in the source.
    unfoldable pub run_to_completion :
        ℕ → Cluster Node Rng Rate → Option (Cluster Node Rng Rate × ℕ)
    unfolding step
    run_to_completion zero c = some (c, 0)
    run_to_completion (suc max_steps) c = elim c.pending [
      | [] ↦ some (c, 0)
      | msg ∷ msgs ↦ do
        c' ← step c
        (c'', steps) ← run_to_completion max_steps c'
        some (c'', suc steps)
    ]
