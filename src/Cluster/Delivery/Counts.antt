-- ===== src/Cluster/Delivery/Counts.antt =====
-- src/cluster/mod.rs: what the routing of the messages counts.
use bft_consensus_bench.Base.{
  ◌+◌, ◌≤◌, ◌≡◌, refl, Bool, true, false, List, [], ◌∷◌, ◌++◌, some, inl, inr, arith, if◌then◌else◌,
  set, add_u64, Option-cases,
}
use bft_consensus_bench.Types.{Sha256}
use bft_consensus_bench.Network.{NetworkMessage}
use bft_consensus_bench.Consensus.{ConsensusNode}
use bft_consensus_bench.Cluster.Fault.{Rolls, is_byzantine, should_deliver}
use bft_consensus_bench.Cluster.Tamper.{tamper}
use bft_consensus_bench.Cluster.State.{Cluster, position}
use bft_consensus_bench.Cluster.Delivery.{deliver_one, deliver_all, count_drop, route}
use bft_consensus_bench.Cluster.Delivery.Position.{position-finds}

-- The protocol's handler returns.
abbrev pub Handles : {Node : Type 0} → ConsensusNode Node → Type 0
Handles {Node} protocol =
    (node : Node) (msg : NetworkMessage)
    → (r : Node × List NetworkMessage) × (protocol.handle_message node msg ≡ some r)

module _ {Node Rng Rate : Type 0} where
  -- No message is both delivered and dropped, or either of them twice.
  abbrev pub Counted : Cluster Node Rng Rate → Type 0
  Counted c = c.stats.messages_delivered + c.stats.messages_dropped ≤ c.stats.messages_sent

module _ {Node Rng Rate : Type 0} (protocol : ConsensusNode Node) (handles : Handles protocol) where
  -- The message is delivered at most once.
  pub record Delivers (c c' : Cluster Node Rng Rate) : Type 0 where
    sent : c'.stats.messages_sent ≡ c.stats.messages_sent
    dropped : c'.stats.messages_dropped ≡ c.stats.messages_dropped
    delivered : c'.stats.messages_delivered ≤ c.stats.messages_delivered + 1
    steps : c'.stats.total_steps ≡ c.stats.total_steps

  pub deliver_one-Delivers :
      (c : Cluster Node Rng Rate) (msg : NetworkMessage)
      → (r : Cluster Node Rng Rate × List NetworkMessage) × (deliver_one protocol c msg ≡ some r)
        × Delivers c r.0
  unfolding deliver_one
  deliver_one-Delivers c msg = elim (Option-cases (position protocol msg.to c.nodes)) [
    | inl e ↦ (
      (c, []),
      (rw (e, deliver_one) refl),
      record { sent = refl; dropped = refl; delivered = omega arith; steps = refl },
    )
    | inr (idx, e) ↦
        let (node, at, own) = position-finds protocol msg.to c.nodes idx e in
        let ((node', out), done) = handles node msg in
        let stats = record c.stats { messages_delivered = add_u64 c.stats.messages_delivered 1 } in
        (
          (record c { nodes = set c.nodes idx node'; stats = stats }, out),
          ground arith,
          record { sent = refl; dropped = refl; delivered = omega arith; steps = refl },
        )
  ]

  module _ (rolls : Rolls Rng Rate) (sha256 : Sha256) where
    -- The cluster that has counted the message as sent.
    abbrev pub sent_one : Cluster Node Rng Rate → NetworkMessage → Cluster Node Rng Rate
    sent_one c msg = record c {
      faults = (should_deliver rolls c.faults msg).1;
      stats = record c.stats { messages_sent = add_u64 c.stats.messages_sent 1 };
    }

    pub route-dropped :
        (c : Cluster Node Rng Rate) (msg : NetworkMessage)
        → (should_deliver rolls c.faults msg).0 ≡ false
        → route protocol rolls sha256 c msg
          ≡ some (count_drop protocol rolls sha256 (sent_one c msg), [])
    unfolding route
    route-dropped c msg stops = rw (stops, route) refl

    pub route-swallowed :
        (c : Cluster Node Rng Rate) (msg : NetworkMessage)
        → (should_deliver rolls c.faults msg).0 ≡ true
        → tamper sha256 (should_deliver rolls c.faults msg).1 msg ≡ []
        → route protocol rolls sha256 c msg
          ≡ some (count_drop protocol rolls sha256 (sent_one c msg), [])
    unfolding route
    route-swallowed c msg passes left = rw (passes, left, route) refl

    -- The cluster that has counted a message of a Byzantine sender.
    abbrev pub tampered_one : Bool → Cluster Node Rng Rate → Cluster Node Rng Rate
    tampered_one byzantine c =
        if byzantine
        then record c {
          stats = record c.stats { messages_tampered = add_u64 c.stats.messages_tampered 1 };
        }
        else c

    pub route-delivered :
        (c c' : Cluster Node Rng Rate) (msg m : NetworkMessage) (out : List NetworkMessage)
        → (should_deliver rolls c.faults msg).0 ≡ true
        → tamper sha256 (should_deliver rolls c.faults msg).1 msg ≡ m ∷ []
        → deliver_one protocol
            (tampered_one
              (is_byzantine (should_deliver rolls c.faults msg).1 msg.from)
              (sent_one c msg))
            m
          ≡ some (c', out)
        → route protocol rolls sha256 c msg ≡ some (c', out ++ [])
    unfolding route deliver_all
    route-delivered c c' msg m out passes left done =
        rw (passes, left, route, deliver_all) (rw (done, deliver_all) refl)
