-- ===== src/Cluster/Delivery/Accounts.antt =====
-- src/cluster/mod.rs: what a step counts of the messages, and does with them.
use bft_consensus_bench.Base.{◌+◌, ◌≡◌, List, length}
use bft_consensus_bench.Types.{Sha256}
use bft_consensus_bench.Network.{NetworkMessage}
use bft_consensus_bench.Consensus.{ConsensusNode}
use bft_consensus_bench.Cluster.Fault.{Rolls}
use bft_consensus_bench.Cluster.State.{Cluster}
use bft_consensus_bench.Cluster.Delivery.Counts.{Handles, Counted}
use bft_consensus_bench.Cluster.Delivery.Fates.{
  Fate, drops_of, deliveries_of, total, Follows, Handling,
}

module _ {Node Rng Rate : Type 0} (protocol : ConsensusNode Node) (handles : Handles protocol) where
  module _ (rolls : Rolls Rng Rate) (sha256 : Sha256) where
    -- All messages routed, in order.
    pub record Accounts (c c' : Cluster Node Rng Rate) (msgs : List NetworkMessage)
        (fates : List Fate) (out : List NetworkMessage) : Type 0 where
      pub pending : c'.pending ≡ c.pending
      pub follows : Follows rolls sha256 c.faults msgs fates
      pub handling : Handling protocol c.nodes fates c'.nodes out
      pub sent : c'.stats.messages_sent ≡ c.stats.messages_sent + length msgs
      pub dropped : c'.stats.messages_dropped ≡ c.stats.messages_dropped + total drops_of fates
      pub delivered :
          c'.stats.messages_delivered ≡ c.stats.messages_delivered + total deliveries_of fates
      pub counted : Counted c'
      pub steps : c'.stats.total_steps ≡ c.stats.total_steps

    -- What a step does: see `step-Steps`.
    pub record Steps (c c' : Cluster Node Rng Rate) (fates : List Fate) : Type 0 where
      pub follows : Follows rolls sha256 c.faults c.pending fates
      pub handling : Handling protocol c.nodes fates c'.nodes c'.pending
      pub sent : c'.stats.messages_sent ≡ c.stats.messages_sent + length c.pending
      pub dropped : c'.stats.messages_dropped ≡ c.stats.messages_dropped + total drops_of fates
      pub delivered :
          c'.stats.messages_delivered ≡ c.stats.messages_delivered + total deliveries_of fates
      pub counted : Counted c'
      pub steps : c'.stats.total_steps ≡ c.stats.total_steps + 1
