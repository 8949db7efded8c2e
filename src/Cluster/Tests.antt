-- ===== src/Cluster/Tests.antt =====
-- Concrete logs, faults, messages and clusters.
use bft_consensus_bench.Base.{
  ℕ, ◌%◌, ◌≡◌, ◌↔◌, refl, true, false, List, [], ◌∷◌, if◌then◌else◌, All,
}
use bft_consensus_bench.Base.NodeSet
use bft_consensus_bench.Types.{NodeId, Payload, Digest, payload_eq, digest}
use bft_consensus_bench.Network.{NetworkMessage, ProtocolMessage, PbftMessage}
use bft_consensus_bench.Consensus.{CommittedEntry}
use bft_consensus_bench.Pbft.State.{PbftNode, PbftState}
use bft_consensus_bench.Pbft.Node.{pbft_consensus}
use bft_consensus_bench.Cluster.Fault.{
  MessagePhase, ByzantineBehavior, FaultConfig, with_partition, should_deliver,
}
use bft_consensus_bench.Cluster.Fault.Links.{joins, partition-cuts}
use bft_consensus_bench.Cluster.Tamper.{equivocate_message}
use bft_consensus_bench.Cluster.Tamper.Equivocation.{proposal_of, Proposes, equivocate-conflicts}
use bft_consensus_bench.Cluster.CommitLog.{
  CommitLog, pass, check_agreement, check_validity, check_integrity, check_termination,
  check_total_order, check_orders,
}
use bft_consensus_bench.Cluster.CommitLog.Nodes.{
  EachHonest, AllProposed, HasCommitted, sequences, check_validity_iff, check_integrity_iff,
  check_termination_iff,
}
use bft_consensus_bench.Cluster.CommitLog.Orders.{
  FirstKnownAgrees, check_total_order_iff, check_orders_blind,
}
use bft_consensus_bench.Cluster.CommitLog.Agreement.{Agreement, check_agreement_iff}
use bft_consensus_bench.Cluster.CommitLog.Facts.{honest_facts}
use bft_consensus_bench.Cluster.State.{Cluster}
use bft_consensus_bench.Cluster.Delivery.Counts.{Handles}
use bft_consensus_bench.Cluster.Delivery.Completion.{Completes, run_to_completion-Completes}
use bft_consensus_bench.Cluster.Setup.{new_pbft}
use bft_consensus_bench.Cluster.Runs.{no_rolls, sum_digest, hello}

abbrev bye : Payload
bye = record { bytes = 98 ∷ [] }

abbrev entry : ℕ → Payload → CommittedEntry
entry seq p = record { sequence = seq; payload = p }

-- Node 2 differs from node 0 at sequence 1, and is not honest.
abbrev log : CommitLog
log = record {
  proposed = hello ∷ bye ∷ [];
  commits =
      (0, entry 1 hello ∷ entry 2 bye ∷ []) ∷ (1, entry 1 hello ∷ []) ∷ (2, entry 1 bye ∷ []) ∷ [];
}

abbrev honest : List NodeId
honest = 0 ∷ 1 ∷ []

check_agreement_iff_example :
    (check_agreement log honest ≡ pass) ↔ Agreement (honest_facts honest log.commits)
check_agreement_iff_example = check_agreement_iff log honest

check_validity_iff_example :
    (check_validity log honest ≡ pass) ↔ EachHonest (AllProposed log.proposed) honest log.commits
check_validity_iff_example = check_validity_iff log honest

check_integrity_iff_example :
    (check_integrity log honest ≡ pass)
    ↔ EachHonest (λ es. NodeSet.IsDistinct (sequences es)) honest log.commits
check_integrity_iff_example = check_integrity_iff log honest

check_termination_iff_example :
    (check_termination log 2 honest ≡ pass) ↔ All (HasCommitted log.commits 2) honest
check_termination_iff_example = check_termination_iff log 2 honest

check_total_order_iff_example :
    (check_total_order log honest ≡ pass) ↔ FirstKnownAgrees log.commits honest
check_total_order_iff_example = check_total_order_iff log honest

-- The second and the third node differ at their second position.
check_orders_blind_example :
    check_orders ((0, 1 ∷ []) ∷ (1, 1 ∷ 2 ∷ []) ∷ (2, 1 ∷ 3 ∷ []) ∷ []) ≡ pass
check_orders_blind_example = check_orders_blind 0 1 2 (1 ∷ []) (2 ∷ []) (3 ∷ [])

abbrev some_digest : Digest
some_digest = record { bytes = 1 ∷ [] }

abbrev proposal : NodeId → NetworkMessage
proposal to = record {
  from = 0;
  to = to;
  payload = ProtocolMessage.pbft (PbftMessage.pre_prepare 0 1 some_digest hello);
}

abbrev faults : FaultConfig ℕ ℕ
faults = record {
  drop_rate = 0;
  partitions = [];
  isolated_nodes = 3 ∷ [];
  byzantine_nodes =
      (
        0,
        ByzantineBehavior.corrupt_digest
            ∷ ByzantineBehavior.selective_drop (MessagePhase.pbft_pre_prepare ∷ [])
            ∷ [],
      )
      ∷ [];
  rng = 0;
}

partition-cuts_example :
    (should_deliver no_rolls (with_partition faults 0 1) (proposal 1)).0
    ≡ (if joins 0 1 (proposal 1) then false else (should_deliver no_rolls faults (proposal 1)).0)
partition-cuts_example = partition-cuts no_rolls faults 0 1 (proposal 1)

abbrev honest_proposal : NodeId → NetworkMessage
honest_proposal to = record {
  from = 0;
  to = to;
  payload = ProtocolMessage.pbft (PbftMessage.pre_prepare 0 1 (digest sum_digest hello) hello);
}

equivocate-conflicts_example :
    (first second : NetworkMessage) × (p1 p2 : Payload) × (equivocate_message sum_digest
        (honest_proposal 2)
      ≡ first ∷ [])
    × (equivocate_message sum_digest (honest_proposal 1) ≡ second ∷ [])
    × (first.to ≡ 2)
    × (second.to ≡ 1)
    × Proposes sum_digest 0 1 p1 first
    × Proposes sum_digest 0 1 p2 second
    × ((payload_eq p1 p2 ≡ true) ↔ (2 % 2 ≡ 1 % 2))
unfolding proposal_of
equivocate-conflicts_example =
    equivocate-conflicts sum_digest (honest_proposal 2) (honest_proposal 1) 0 1 hello refl refl

-- Four PBFT replicas, and a proposal on its way to each of two.
abbrev busy : Cluster (PbftNode × PbftState) ℕ ℕ
busy = record (new_pbft no_rolls 4 0) { pending = proposal 1 ∷ proposal 2 ∷ [] }

pbft_handles : Handles (pbft_consensus sum_digest)
unfolding pbft_consensus
pbft_handles node msg = (_, refl)

run_to_completion-Completes_example :
    Completes (pbft_consensus sum_digest) pbft_handles no_rolls sum_digest busy 100
run_to_completion-Completes_example =
    run_to_completion-Completes (pbft_consensus sum_digest) pbft_handles no_rolls sum_digest 100
      busy
