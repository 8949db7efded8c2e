-- ===== src/Cluster/CommitLog/Nodes.antt =====
-- src/cluster/invariant.rs: the checks that go through the honest nodes one by one.
use bft_consensus_bench.Base.{
  ℕ, ◌≡◌, ◌⊎◌, refl, sym, inl, inr, ◌↔◌, true, false, List, [], ◌∷◌, arith, map, All, Occurs,
  Bool-cases, none, some, length, Option-cases,
}
use bft_consensus_bench.Base.NodeSet
use bft_consensus_bench.Base.Map
use bft_consensus_bench.Base.Map.{Map}
use bft_consensus_bench.Types.{
  NodeId, SequenceNumber, Payload, payload_eq, payload_eq_sound, payload_eq_self,
}
use bft_consensus_bench.Consensus.{CommittedEntry}
use bft_consensus_bench.Cluster.CommitLog.{
  CommitLog, CheckResult, pass, check_nodes, validity_of, is_proposed, check_validity, integrity_of,
  check_integrity, committed_count, check_termination,
}

-- The entries of each honest node have the property.
abbrev pub EachHonest :
    (List CommittedEntry → Type 0) → List NodeId → Map (List CommittedEntry) → Type 0
EachHonest P honest commits =
    Map.Each
      (λ (node : NodeId) (es : List CommittedEntry). NodeSet.contains node honest ≡ true → P es)
      commits

-- A check that passes exactly on `P` passes on all honest nodes exactly if each has `P`.
module _ (P : List CommittedEntry → Type 0) (check : NodeId → List CommittedEntry → CheckResult)
    (exact : (node : NodeId) (es : List CommittedEntry) → (check node es ≡ pass) ↔ P es)
    (honest : List NodeId) where
  check_nodes_sound :
      (commits : Map (List CommittedEntry))
      → check_nodes check honest commits ≡ pass
      → EachHonest P honest commits
  unfolding check_nodes
  check_nodes_sound [] h = tt
  check_nodes_sound ((node, es) ∷ commits) h = elim (Bool-cases (NodeSet.contains node honest)) [
    | inl is_in ↦
        ((λ _. (exact node es).0 (ground arith)), check_nodes_sound commits (ground arith))
    | inr out ↦ ((λ e. absurd (cc)), check_nodes_sound commits (ground arith))
  ]

  check_nodes_complete :
      (commits : Map (List CommittedEntry))
      → EachHonest P honest commits
      → check_nodes check honest commits ≡ pass
  unfolding check_nodes
  check_nodes_complete [] h = refl
  check_nodes_complete ((node, es) ∷ commits) h = elim (Bool-cases (NodeSet.contains node honest)) [
    | inl is_in ↦ rw (is_in, (exact node es).1 (h.0 is_in)) (check_nodes_complete commits h.1)
    | inr out ↦ rw out (check_nodes_complete commits h.1)
  ]

  pub check_nodes_iff :
      (commits : Map (List CommittedEntry))
      → (check_nodes check honest commits ≡ pass) ↔ EachHonest P honest commits
  check_nodes_iff commits = (check_nodes_sound commits, check_nodes_complete commits)

is_proposed_sound : (ps : List Payload) (p : Payload) → is_proposed ps p ≡ true → Occurs p ps
unfolding is_proposed
is_proposed_sound [] p h = absurd (cc)
is_proposed_sound (q ∷ ps) p h = elim (Bool-cases (payload_eq q p)) [
  | inl e ↦ inl (sym (payload_eq_sound q p e))
  | inr ne ↦ inr (is_proposed_sound ps p (ground arith))
]

is_proposed_complete : (ps : List Payload) (p : Payload) → Occurs p ps → is_proposed ps p ≡ true
unfolding is_proposed
is_proposed_complete [] p o = elim o [ ]
is_proposed_complete (q ∷ ps) p (inl e) = rw (e, payload_eq_self q)
is_proposed_complete (q ∷ ps) p (inr o) = ground (arith, is_proposed_complete ps p o)

abbrev pub AllProposed : List Payload → List CommittedEntry → Type 0
AllProposed proposed = All (λ e. Occurs e.payload proposed)

validity_of_sound :
    (ps : List Payload) (node : NodeId) (es : List CommittedEntry)
    → validity_of ps node es ≡ pass
    → AllProposed ps es
unfolding validity_of
validity_of_sound ps node [] h = tt
validity_of_sound ps node (e ∷ es) h = elim (Bool-cases (is_proposed ps e.payload)) [
  | inl known ↦ (is_proposed_sound ps e.payload known, validity_of_sound ps node es (ground arith))
  | inr rogue ↦ absurd (ground arith)
]

validity_of_complete :
    (ps : List Payload) (node : NodeId) (es : List CommittedEntry)
    → AllProposed ps es
    → validity_of ps node es ≡ pass
unfolding validity_of
validity_of_complete ps node [] h = refl
validity_of_complete ps node (e ∷ es) h =
    rw (is_proposed_complete ps e.payload h.0) (validity_of_complete ps node es h.1)

-- The validity check passes exactly if every entry that an honest node committed has a payload
-- that was proposed.
pub check_validity_iff :
    (log : CommitLog) (honest : List NodeId)
    → (check_validity log honest ≡ pass) ↔ EachHonest (AllProposed log.proposed) honest log.commits
unfolding check_validity
check_validity_iff log honest =
    check_nodes_iff (AllProposed log.proposed) (validity_of log.proposed)
      (λ node es.
        (validity_of_sound log.proposed node es, validity_of_complete log.proposed node es))
      honest log.commits

abbrev pub sequences : List CommittedEntry → List SequenceNumber
sequences = map (λ e. e.sequence)

abbrev IsUnseen : List SequenceNumber → List SequenceNumber → Type 0
IsUnseen seen = All (λ seq. NodeSet.contains seq seen ≡ false)

IsUnseen-insert :
    (a : ℕ) (seen xs : List ℕ)
    → IsUnseen (NodeSet.insert a seen) xs
    → IsUnseen seen xs × (NodeSet.contains a xs ≡ false)
unfolding NodeSet.contains
IsUnseen-insert a seen [] h = (tt, refl)
IsUnseen-insert a seen (x ∷ xs) h =
    ground (arith, IsUnseen-insert a seen xs h.1, NodeSet.contains-insert a x seen)

insert-IsUnseen :
    (a : ℕ) (seen xs : List ℕ)
    → IsUnseen seen xs
    → NodeSet.contains a xs ≡ false
    → IsUnseen (NodeSet.insert a seen) xs
unfolding NodeSet.contains
insert-IsUnseen a seen [] h d = tt
insert-IsUnseen a seen (x ∷ xs) h d =
    ground (arith, insert-IsUnseen a seen xs h.1, NodeSet.contains-insert a x seen)

integrity_of_sound :
    (seen : List SequenceNumber) (node : NodeId) (es : List CommittedEntry)
    → integrity_of seen node es ≡ pass
    → IsUnseen seen (sequences es) × NodeSet.IsDistinct (sequences es)
unfolding integrity_of
integrity_of_sound seen node [] h = (tt, tt)
integrity_of_sound seen node (e ∷ es) h = elim (Bool-cases (NodeSet.contains e.sequence seen)) [
  | inl twice ↦ absurd (ground arith)
  | inr new ↦
      let (unseen, distinct) =
        integrity_of_sound (NodeSet.insert e.sequence seen) node es (ground arith) in
      let (rest, once) = IsUnseen-insert e.sequence seen (sequences es) unseen in
      ((new, rest), (once, distinct))
]

integrity_of_complete :
    (seen : List SequenceNumber) (node : NodeId) (es : List CommittedEntry)
    → IsUnseen seen (sequences es)
    → NodeSet.IsDistinct (sequences es)
    → integrity_of seen node es ≡ pass
unfolding integrity_of
integrity_of_complete seen node [] u d = refl
integrity_of_complete seen node (e ∷ es) u d = rw u.0 (
    integrity_of_complete (NodeSet.insert e.sequence seen) node es
      (insert-IsUnseen e.sequence seen (sequences es) u.1 d.0) d.1)

nothing_seen : (xs : List ℕ) → IsUnseen [] xs
unfolding NodeSet.contains
nothing_seen [] = tt
nothing_seen (x ∷ xs) = (refl, nothing_seen xs)

-- The integrity check passes exactly if no honest node committed a sequence twice.
pub check_integrity_iff :
    (log : CommitLog) (honest : List NodeId)
    → (check_integrity log honest ≡ pass)
      ↔ EachHonest (λ es. NodeSet.IsDistinct (sequences es)) honest log.commits
unfolding check_integrity
check_integrity_iff log honest =
    check_nodes_iff (λ es. NodeSet.IsDistinct (sequences es)) (integrity_of [])
      (λ node es. (
        (λ h. (integrity_of_sound [] node es h).1),
        (λ d. integrity_of_complete [] node es (nothing_seen (sequences es)) d),
      ))
      honest log.commits

-- How many entries the log has of a node: none of a node that it does not know.
abbrev pub HasCommitted : Map (List CommittedEntry) → ℕ → NodeId → Type 0
HasCommitted commits k node =
    ((Map.get node commits ≡ none) × (k ≡ 0))
    ⊎ ((es : List CommittedEntry) × (Map.get node commits ≡ some es) × (length es ≡ k))

committed_count-HasCommitted :
    (log : CommitLog) (k : ℕ) (node : NodeId)
    → (committed_count log node ≡ k) ↔ HasCommitted log.commits k node
unfolding committed_count
committed_count-HasCommitted log k node = elim (Option-cases (Map.get node log.commits)) [
  | inl e ↦ ((λ h. inl (e, ground arith)), (λ h. ground arith))
  | inr (es, e) ↦ ((λ h. inr (es, e, ground arith)), (λ h. ground arith))
]

check_termination_sound :
    (log : CommitLog) (expected : ℕ) (honest : List NodeId)
    → check_termination log expected honest ≡ pass
    → All (HasCommitted log.commits expected) honest
unfolding check_termination
check_termination_sound log expected [] h = tt
check_termination_sound log expected (node ∷ honest) h = (
  (committed_count-HasCommitted log expected node).0 (ground arith),
  check_termination_sound log expected honest (ground arith),
)

check_termination_complete :
    (log : CommitLog) (expected : ℕ) (honest : List NodeId)
    → All (HasCommitted log.commits expected) honest
    → check_termination log expected honest ≡ pass
unfolding check_termination
check_termination_complete log expected [] h = refl
check_termination_complete log expected (node ∷ honest) h =
    let counts = (committed_count-HasCommitted log expected node).1 h.0 in
    ground (arith, counts, check_termination_complete log expected honest h.1)

-- The termination check passes exactly if of every honest node the log has as many entries as
-- expected, where it has none of a node that it does not know.
pub check_termination_iff :
    (log : CommitLog) (expected : ℕ) (honest : List NodeId)
    → (check_termination log expected honest ≡ pass)
      ↔ All (HasCommitted log.commits expected) honest
check_termination_iff log expected honest =
    (check_termination_sound log expected honest, check_termination_complete log expected honest)
