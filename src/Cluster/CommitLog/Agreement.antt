-- ===== src/Cluster/CommitLog/Agreement.antt =====
-- src/cluster/invariant.rs: the check of agreement.
use bft_consensus_bench.Base.{
  ◌≡◌, refl, sym, ap, ◌∙◌, subst, inl, inr, ◌↔◌, List, [], ◌∷◌, arith, All, Occurs, All-Occurs,
  All-mono, Bool-cases,
}
use bft_consensus_bench.Base.Map
use bft_consensus_bench.Base.Map.{Map}
use bft_consensus_bench.Types.{
  NodeId, SequenceNumber, Payload, payload_eq, payload_eq_sound, payload_eq_self,
}
use bft_consensus_bench.Cluster.CommitLog.{
  CommitLog, pass, SeqPayloads, collect_payloads, compare_first, check_payloads, check_agreement,
}
use bft_consensus_bench.Cluster.CommitLog.Facts.{
  Fact, honest_facts, entry_of, collect-Covers, collect_IsFrom,
}

-- All payloads of a list are one.
abbrev AllSame : List (NodeId × Payload) → Type 0
AllSame [] = Unit
AllSame ((node, first) ∷ rest) = All (λ np. np.1 ≡ first) rest

AllSame-eq :
    (ps : List (NodeId × Payload)) (a b : NodeId × Payload)
    → AllSame ps
    → Occurs a ps
    → Occurs b ps
    → a.1 ≡ b.1
AllSame-eq [] a b same oa ob = elim oa [ ]
AllSame-eq (x ∷ ps) a b same (inl ea) (inl eb) = cc
AllSame-eq (x ∷ ps) a b same (inl ea) (inr ob) =
    ap (λ t. t.1) ea ∙ sym (All-Occurs (λ np. np.1 ≡ x.1) b ps same ob)
AllSame-eq (x ∷ ps) a b same (inr oa) (inl eb) =
    All-Occurs (λ np. np.1 ≡ x.1) a ps same oa ∙ sym (ap (λ t. t.1) eb)
AllSame-eq (x ∷ ps) a b same (inr oa) (inr ob) =
    All-Occurs (λ np. np.1 ≡ x.1) a ps same oa ∙ sym (All-Occurs (λ np. np.1 ≡ x.1) b ps same ob)

compare_first_sound :
    (seq : SequenceNumber) (node : NodeId) (first : Payload) (rest : List (NodeId × Payload))
    → compare_first seq node first rest ≡ pass
    → All (λ np. np.1 ≡ first) rest
unfolding compare_first
compare_first_sound seq node first [] h = tt
compare_first_sound seq node first ((other, p) ∷ rest) h = elim (Bool-cases (payload_eq p first)) [
  | inl e ↦ (payload_eq_sound p first e, compare_first_sound seq node first rest (ground arith))
  | inr ne ↦ absurd (ground arith)
]

compare_first_complete :
    (seq : SequenceNumber) (node : NodeId) (first : Payload) (rest : List (NodeId × Payload))
    → All (λ np. np.1 ≡ first) rest
    → compare_first seq node first rest ≡ pass
unfolding compare_first
compare_first_complete seq node first [] h = refl
compare_first_complete seq node first ((other, p) ∷ rest) h =
    rw (h.0, payload_eq_self first) (compare_first_complete seq node first rest h.1)

check_payloads_sound :
    (m : SeqPayloads)
    → check_payloads m ≡ pass
    → Map.Each (λ (seq : SequenceNumber) (ps : List (NodeId × Payload)). AllSame ps) m
unfolding check_payloads
check_payloads_sound [] h = tt
check_payloads_sound ((seq, []) ∷ m) h = (tt, check_payloads_sound m h)
check_payloads_sound ((seq, (node, first) ∷ rest) ∷ m) h =
    (compare_first_sound seq node first rest (ground arith), check_payloads_sound m (ground arith))

check_payloads_complete :
    (m : SeqPayloads)
    → Map.Each (λ (seq : SequenceNumber) (ps : List (NodeId × Payload)). AllSame ps) m
    → check_payloads m ≡ pass
unfolding check_payloads
check_payloads_complete [] h = refl
check_payloads_complete ((seq, []) ∷ m) h = check_payloads_complete m h.1
check_payloads_complete ((seq, (node, first) ∷ rest) ∷ m) h =
    rw (compare_first_complete seq node first rest h.0) (check_payloads_complete m h.1)

-- No two facts give one sequence two payloads.
abbrev pub Agreement : List Fact → Type 0
Agreement fs =
    (f g : Fact)
    → Occurs f fs
    → Occurs g fs
    → f.1.sequence ≡ g.1.sequence
    → f.1.payload ≡ g.1.payload

same_of_Agreement :
    (fs : List Fact) (seq : SequenceNumber) (ps : List (NodeId × Payload))
    → Agreement fs
    → All (λ np. Occurs (np.0, entry_of seq np.1) fs) ps
    → AllSame ps
same_of_Agreement fs seq [] agree h = tt
same_of_Agreement fs seq ((node, first) ∷ rest) agree h =
    All-mono _ _ rest
      (λ np o. agree (np.0, entry_of seq np.1) (node, entry_of seq first) o h.0 refl) h.1

-- The agreement check passes exactly if no two entries that honest nodes committed have the same
-- sequence and different payloads.
pub check_agreement_iff :
    (log : CommitLog) (honest : List NodeId)
    → (check_agreement log honest ≡ pass) ↔ Agreement (honest_facts honest log.commits)
unfolding check_agreement
check_agreement_iff log honest = (sound, complete)
  where
    m : SeqPayloads
    m = collect_payloads [] honest log.commits

    fs : List Fact
    fs = honest_facts honest log.commits

    sound : check_payloads m ≡ pass → Agreement fs
    sound h f g of og e =
        let (ps, (held_f, at_f)) = All-Occurs _ f fs (collect-Covers [] honest log.commits) of in
        let (qs, (held_g, at_g)) = All-Occurs _ g fs (collect-Covers [] honest log.commits) og in
        let both : ps ≡ qs = ground arith in
        AllSame-eq qs (f.0, f.1.payload) (g.0, g.1.payload)
          (Map.Each-get _ g.1.sequence m (check_payloads_sound m h) held_g)
          (subst (Occurs (f.0, f.1.payload)) both at_f) at_g

    complete : Agreement fs → check_payloads m ≡ pass
    complete agree = check_payloads_complete m (
        Map.Each-mono _ _ m (λ seq ps h. same_of_Agreement fs seq ps agree h)
          (collect_IsFrom fs [] honest log.commits (λ f o. o) tt))
