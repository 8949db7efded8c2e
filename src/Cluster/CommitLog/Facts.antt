-- ===== src/Cluster/CommitLog/Facts.antt =====
-- src/cluster/invariant.rs: the payloads by sequence that the check of agreement collects.
use bft_consensus_bench.Base.{
  ◌≡◌, refl, ◌∙◌, subst, inl, inr, List, [], ◌∷◌, ◌++◌, some, ◌==◌, if◌then◌else◌, All, Occurs,
  Occurs-append_left, Occurs-append_right, All-of_Occurs, All-mono, All-append, Bool-cases,
  Option-cases, ==_iff,
}
use bft_consensus_bench.Base.NodeSet
use bft_consensus_bench.Base.Map
use bft_consensus_bench.Base.Map.{Map}
use bft_consensus_bench.Types.{NodeId, SequenceNumber, Payload}
use bft_consensus_bench.Consensus.{CommittedEntry}
use bft_consensus_bench.Cluster.CommitLog.{
  SeqPayloads, push_payload, push_entries, collect_payloads,
}

-- Who committed what.
abbrev pub Fact : Type 0
Fact = NodeId × CommittedEntry

abbrev pub facts_of : NodeId → List CommittedEntry → List Fact
facts_of node [] = []
facts_of node (e ∷ es) = (node, e) ∷ facts_of node es

abbrev pub honest_facts : List NodeId → Map (List CommittedEntry) → List Fact
honest_facts honest [] = []
honest_facts honest ((node, es) ∷ commits) =
    if NodeSet.contains node honest
    then facts_of node es ++ honest_facts honest commits
    else honest_facts honest commits

-- The map holds the fact.
abbrev pub Covers : SeqPayloads → Fact → Type 0
Covers m f =
    (ps : List (NodeId × Payload)) × ((Map.get f.1.sequence m ≡ some ps)
      × Occurs (f.0, f.1.payload) ps)

abbrev pub entry_of : SequenceNumber → Payload → CommittedEntry
entry_of seq p = record { sequence = seq; payload = p }

-- The map holds nothing but facts of the list.
abbrev pub IsFrom : List Fact → SeqPayloads → Type 0
IsFrom fs = Map.Each (λ (seq : SequenceNumber) (ps : List (NodeId × Payload)).
    All (λ np. Occurs (np.0, entry_of seq np.1) fs) ps)

push-Covers_new :
    (m : SeqPayloads) (node : NodeId) (e : CommittedEntry)
    → Covers (push_payload m node e) (node, e)
unfolding push_payload
push-Covers_new m node e = elim (Option-cases (Map.get e.sequence m)) [
  | inl none_yet ↦ rw none_yet (_, (Map.get-insert_self e.sequence _ m, inl refl))
  | inr (ps, old) ↦
      rw old (_, (Map.get-insert_self e.sequence _ m, Occurs-append_right _ ps _ (inl refl)))
]

push-Covers_old :
    (m : SeqPayloads) (node : NodeId) (e : CommittedEntry) (f : Fact)
    → Covers m f
    → Covers (push_payload m node e) f
unfolding push_payload
push-Covers_old m node e f (ps, (held, at)) = elim (Bool-cases (f.1.sequence == e.sequence)) [
  | inl same ↦
      let q : f.1.sequence ≡ e.sequence = (==_iff _ _).0 same in
      let held' : Map.get e.sequence m ≡ some ps = subst (λ k. Map.get k m ≡ some ps) q held in
      rw (held', q) (_, (Map.get-insert_self e.sequence _ m, Occurs-append_left _ ps _ at))
  | inr other ↦ (ps, (Map.get-insert_ne e.sequence f.1.sequence _ m other ∙ held, at))
]

push_entries_old :
    (m : SeqPayloads) (node : NodeId) (es : List CommittedEntry) (f : Fact)
    → Covers m f
    → Covers (push_entries m node es) f
unfolding push_entries
push_entries_old m node [] f c = c
push_entries_old m node (e ∷ es) f c =
    push_entries_old (push_payload m node e) node es f (push-Covers_old m node e f c)

push_entries_new :
    (m : SeqPayloads) (node : NodeId) (es : List CommittedEntry)
    → All (Covers (push_entries m node es)) (facts_of node es)
unfolding push_entries
push_entries_new m node [] = tt
push_entries_new m node (e ∷ es) = (
  push_entries_old (push_payload m node e) node es (node, e) (push-Covers_new m node e),
  push_entries_new (push_payload m node e) node es,
)

collect_old :
    (m : SeqPayloads) (honest : List NodeId) (commits : Map (List CommittedEntry)) (f : Fact)
    → Covers m f
    → Covers (collect_payloads m honest commits) f
unfolding collect_payloads
collect_old m honest [] f c = c
collect_old m honest ((node, es) ∷ commits) f c = elim (Bool-cases (NodeSet.contains node honest)) [
  | inl is_in ↦
      rw is_in
        (collect_old (push_entries m node es) honest commits f (push_entries_old m node es f c))
  | inr out ↦ rw out (collect_old m honest commits f c)
]

-- Every fact of an honest node is in the map that the check builds.
pub collect-Covers :
    (m : SeqPayloads) (honest : List NodeId) (commits : Map (List CommittedEntry))
    → All (Covers (collect_payloads m honest commits)) (honest_facts honest commits)
unfolding collect_payloads
collect-Covers m honest [] = tt
collect-Covers m honest ((node, es) ∷ commits) = elim (Bool-cases (NodeSet.contains node honest)) [
  | inl is_in ↦ rw is_in (
      All-append _ (facts_of node es) (honest_facts honest commits)
        (All-mono _ _ (facts_of node es)
          (λ f c. collect_old (push_entries m node es) honest commits f c)
          (push_entries_new m node es))
        (collect-Covers (push_entries m node es) honest commits))
  | inr out ↦ rw out (collect-Covers m honest commits)
]

push_IsFrom :
    (fs : List Fact) (m : SeqPayloads) (node : NodeId) (e : CommittedEntry)
    → Occurs (node, e) fs
    → IsFrom fs m
    → IsFrom fs (push_payload m node e)
unfolding push_payload
push_IsFrom fs m node e at from_fs = elim (Option-cases (Map.get e.sequence m)) [
  | inl none_yet ↦
      rw none_yet (Map.Each-insert _ _ e.sequence _ m (at, tt) (λ j ps ne h. h) from_fs)
  | inr (ps, old) ↦ rw old (
      Map.Each-insert _ _ e.sequence _ m
        (All-append _ ps ((node, e.payload) ∷ []) (Map.Each-get _ e.sequence m from_fs old)
          (at, tt))
        (λ j qs ne h. h) from_fs)
]

push_entries-IsFrom :
    (fs : List Fact) (m : SeqPayloads) (node : NodeId) (es : List CommittedEntry)
    → All (λ f. Occurs f fs) (facts_of node es)
    → IsFrom fs m
    → IsFrom fs (push_entries m node es)
unfolding push_entries
push_entries-IsFrom fs m node [] at h = h
push_entries-IsFrom fs m node (e ∷ es) at h =
    push_entries-IsFrom fs (push_payload m node e) node es at.1 (push_IsFrom fs m node e at.0 h)

pub collect_IsFrom :
    (fs : List Fact) (m : SeqPayloads) (honest : List NodeId) (commits : Map (List CommittedEntry))
    → ((f : Fact) → Occurs f (honest_facts honest commits) → Occurs f fs)
    → IsFrom fs m
    → IsFrom fs (collect_payloads m honest commits)
unfolding collect_payloads
collect_IsFrom fs m honest [] at h = h
collect_IsFrom fs m honest ((node, es) ∷ commits) at h =
    elim (Bool-cases (NodeSet.contains node honest)) [
      | inl is_in ↦
          let at' : (f : Fact)
              → Occurs f (facts_of node es ++ honest_facts honest commits)
              → Occurs f fs =
            rw is_in at at in
          rw is_in (
            collect_IsFrom fs (push_entries m node es) honest commits
              (λ f o. at' f (Occurs-append_right f (facts_of node es) _ o))
              (push_entries-IsFrom fs m node es
                (All-of_Occurs _ (facts_of node es)
                  (λ f o. at' f (Occurs-append_left f (facts_of node es) _ o)))
                h))
      | inr out ↦ rw out (collect_IsFrom fs m honest commits (rw out at at) h)
    ]
