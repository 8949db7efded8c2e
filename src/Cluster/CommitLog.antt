-- ===== src/Cluster/CommitLog.antt =====
-- src/cluster/invariant.rs: the checker of the safety properties. A failure carries the values
-- that its text prints. Hash maps are visited in the order of the association list.
pub mod Nodes
pub mod Orders
pub mod Facts
pub mod Agreement
use bft_consensus_bench.Base.{
  ℕ, suc, Bool, true, false, not, ◌||◌, List, [], ◌∷◌, ◌++◌, Option, none, some, ◌==◌,
  if◌then◌else◌, length, map,
}
use bft_consensus_bench.Base.NodeSet
use bft_consensus_bench.Base.Map
use bft_consensus_bench.Base.Map.{Map}
use bft_consensus_bench.Types.{NodeId, SequenceNumber, Payload, payload_eq}
use bft_consensus_bench.Consensus.{CommittedEntry}

pub record CommitLog : Type 0 where
  pub proposed : List Payload
  pub commits : Map (List CommittedEntry)

pub data Violation : Type 0 where
  agreement :
      (sequence : SequenceNumber) (first : NodeId) (one : Payload) (second : NodeId)
      (other : Payload)
      → Violation
  validity : (node : NodeId) (payload : Payload) → Violation
  integrity : (node : NodeId) (sequence : SequenceNumber) → Violation
  termination : (node : NodeId) (count expected : ℕ) → Violation
  total_order :
      (ref_node : NodeId) (ref_sequence : SequenceNumber) (position : ℕ) (node : NodeId)
      (sequence : SequenceNumber)
      → Violation

pub data CheckResult : Type 0 where
  pass : CheckResult
  fail : Violation → CheckResult

pub record InvariantResult : Type 0 where
  pub agreement : CheckResult
  pub validity : CheckResult
  pub integrity : CheckResult
  pub termination : CheckResult
  pub total_order : CheckResult

-- An early return of a failure: what follows runs only after a pass.
abbrev pub and_then : CheckResult → CheckResult → CheckResult
and_then pass next = next
and_then (fail v) next = fail v

unfoldable pub new : CommitLog
new = record { proposed = []; commits = [] }

unfoldable pub record_proposal : CommitLog → Payload → CommitLog
record_proposal log payload = record log { proposed = log.proposed ++ payload ∷ [] }

-- `entry(node).or_default().extend(entries)`
unfoldable pub record_commits : CommitLog → NodeId → List CommittedEntry → CommitLog
record_commits log node entries =
    let old : List CommittedEntry = elim (Map.get node log.commits) [ none ↦ [] | some es ↦ es ] in
    record log { commits = Map.insert node (old ++ entries) log.commits }

abbrev pub SeqPayloads : Type 0
SeqPayloads = Map (List (NodeId × Payload))

-- `seq_payloads.entry(sequence).or_default().push((node, payload))`
unfoldable pub push_payload : SeqPayloads → NodeId → CommittedEntry → SeqPayloads
push_payload m node entry =
    let old : List (NodeId × Payload) = elim (Map.get entry.sequence m) [
      | none ↦ []
      | some ps ↦ ps
    ] in
    Map.insert entry.sequence (old ++ (node, entry.payload) ∷ []) m

unfoldable pub push_entries : SeqPayloads → NodeId → List CommittedEntry → SeqPayloads
unfolding push_payload
push_entries m node [] = m
push_entries m node (e ∷ es) = push_entries (push_payload m node e) node es

unfoldable pub collect_payloads :
    SeqPayloads → List NodeId → Map (List CommittedEntry) → SeqPayloads
unfolding push_entries
collect_payloads m honest [] = m
collect_payloads m honest ((node, entries) ∷ commits) =
    collect_payloads (if NodeSet.contains node honest then push_entries m node entries else m)
      honest commits

unfoldable pub compare_first :
    SequenceNumber → NodeId → Payload → List (NodeId × Payload) → CheckResult
compare_first seq node first [] = pass
compare_first seq node first ((other, payload) ∷ rest) =
    if not (payload_eq payload first)
    then fail (Violation.agreement seq node first other payload)
    else compare_first seq node first rest

unfoldable pub check_payloads : SeqPayloads → CheckResult
unfolding compare_first
check_payloads [] = pass
check_payloads ((seq, []) ∷ m) = check_payloads m
check_payloads ((seq, (node, first) ∷ rest) ∷ m) =
    and_then (compare_first seq node first rest) (check_payloads m)

unfoldable pub check_agreement : CommitLog → List NodeId → CheckResult
unfolding collect_payloads check_payloads
check_agreement log honest = check_payloads (collect_payloads [] honest log.commits)

unfoldable pub is_proposed : List Payload → Payload → Bool
is_proposed [] p = false
is_proposed (q ∷ qs) p = payload_eq q p || is_proposed qs p

-- A check of each honest node's entries, in turn.
unfoldable pub check_nodes :
    (NodeId → List CommittedEntry → CheckResult)
    → List NodeId
    → Map (List CommittedEntry)
    → CheckResult
check_nodes check honest [] = pass
check_nodes check honest ((node, entries) ∷ commits) =
    if NodeSet.contains node honest
    then and_then (check node entries) (check_nodes check honest commits)
    else check_nodes check honest commits

unfoldable pub validity_of : List Payload → NodeId → List CommittedEntry → CheckResult
unfolding is_proposed
validity_of proposed node [] = pass
validity_of proposed node (e ∷ es) =
    if not (is_proposed proposed e.payload)
    then fail (Violation.validity node e.payload)
    else validity_of proposed node es

unfoldable pub check_validity : CommitLog → List NodeId → CheckResult
unfolding check_nodes validity_of
check_validity log honest = check_nodes (validity_of log.proposed) honest log.commits

-- `seen` is the set of the sequences so far.
unfoldable pub integrity_of : List SequenceNumber → NodeId → List CommittedEntry → CheckResult
integrity_of seen node [] = pass
integrity_of seen node (e ∷ es) =
    if NodeSet.contains e.sequence seen
    then fail (Violation.integrity node e.sequence)
    else integrity_of (NodeSet.insert e.sequence seen) node es

unfoldable pub check_integrity : CommitLog → List NodeId → CheckResult
unfolding check_nodes integrity_of
check_integrity log honest = check_nodes (integrity_of []) honest log.commits

unfoldable pub committed_count : CommitLog → NodeId → ℕ
committed_count log node = elim (Map.get node log.commits) [ none ↦ 0 | some es ↦ length es ]

unfoldable pub check_termination : CommitLog → ℕ → List NodeId → CheckResult
unfolding committed_count
check_termination log expected [] = pass
check_termination log expected (node ∷ honest) =
    if not (committed_count log node == expected)
    then fail (Violation.termination node (committed_count log node) expected)
    else check_termination log expected honest

-- The sequences of each honest node that the log knows, in the order of commitment.
unfoldable pub orderings : CommitLog → List NodeId → List (NodeId × List SequenceNumber)
orderings log [] = []
orderings log (node ∷ honest) = elim (Map.get node log.commits) [
  | none ↦ orderings log honest
  | some entries ↦ (node, map (λ e. e.sequence) entries) ∷ orderings log honest
]

-- The loop over `0..min_len`; `position` counts it.
unfoldable pub compare_orders :
    NodeId → NodeId → ℕ → List SequenceNumber → List SequenceNumber → CheckResult
compare_orders ref_node node position (x ∷ xs) (y ∷ ys) =
    if not (x == y)
    then fail (Violation.total_order ref_node x position node y)
    else compare_orders ref_node node (suc position) xs ys
compare_orders ref_node node position _ _ = pass

unfoldable pub compare_to_ref :
    NodeId → List SequenceNumber → List (NodeId × List SequenceNumber) → CheckResult
unfolding compare_orders
compare_to_ref ref_node ref_order [] = pass
compare_to_ref ref_node ref_order ((node, order) ∷ rest) =
    and_then (compare_orders ref_node node 0 ref_order order)
      (compare_to_ref ref_node ref_order rest)

unfoldable pub check_orders : List (NodeId × List SequenceNumber) → CheckResult
unfolding compare_to_ref
check_orders [] = pass
check_orders ((ref_node, ref_order) ∷ rest) = compare_to_ref ref_node ref_order rest

unfoldable pub check_total_order : CommitLog → List NodeId → CheckResult
unfolding orderings check_orders
check_total_order log honest = check_orders (orderings log honest)

unfoldable pub check : CommitLog → ℕ → List NodeId → InvariantResult
unfolding check_agreement check_validity check_integrity check_termination check_total_order
check log expected_count honest = record {
  agreement = check_agreement log honest;
  validity = check_validity log honest;
  integrity = check_integrity log honest;
  termination = check_termination log expected_count honest;
  total_order = check_total_order log honest;
}
