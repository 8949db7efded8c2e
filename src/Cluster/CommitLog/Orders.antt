-- ===== src/Cluster/CommitLog/Orders.antt =====
-- src/cluster/invariant.rs: the check of the total order.
use bft_consensus_bench.Base.{
  ℕ, zero, suc, ◌≡◌, refl, ◌↔◌, List, [], ◌∷◌, ◌++◌, some, arith, get_elem?, All, none, ◌⊎◌, inl,
  inr, subst, Option-cases,
}
use bft_consensus_bench.Base.Map
use bft_consensus_bench.Base.Map.{Map}
use bft_consensus_bench.Consensus.{CommittedEntry}
use bft_consensus_bench.Cluster.CommitLog.Nodes.{sequences}
use bft_consensus_bench.Types.{NodeId, SequenceNumber}
use bft_consensus_bench.Cluster.CommitLog.{
  CommitLog, pass, compare_orders, compare_to_ref, check_orders, orderings, check_total_order,
}

-- Wherever both have an element, it is the same.
abbrev pub Agree : List SequenceNumber → List SequenceNumber → Type 0
Agree xs ys =
    (i : ℕ) (x y : SequenceNumber) → get_elem? xs i ≡ some x → get_elem? ys i ≡ some y → x ≡ y

compare_orders_sound :
    (ref_node node : NodeId) (position : ℕ) (xs ys : List SequenceNumber)
    → compare_orders ref_node node position xs ys ≡ pass
    → Agree xs ys
unfolding compare_orders
compare_orders_sound r n k [] ys h i x y hx hy = cc
compare_orders_sound r n k (a ∷ xs) [] h i x y hx hy = cc
compare_orders_sound r n k (a ∷ xs) (b ∷ ys) h zero x y hx hy = ground arith
compare_orders_sound r n k (a ∷ xs) (b ∷ ys) h (suc i) x y hx hy =
    compare_orders_sound r n (suc k) xs ys (ground arith) i x y hx hy

compare_orders_complete :
    (ref_node node : NodeId) (position : ℕ) (xs ys : List SequenceNumber)
    → Agree xs ys
    → compare_orders ref_node node position xs ys ≡ pass
unfolding compare_orders
compare_orders_complete r n k [] ys h = refl
compare_orders_complete r n k (a ∷ xs) [] h = refl
compare_orders_complete r n k (a ∷ xs) (b ∷ ys) h =
    ground (arith, h 0 a b, compare_orders_complete r n (suc k) xs ys (λ i x y. h (suc i) x y))

compare_to_ref_sound :
    (ref_node : NodeId) (ref_order : List SequenceNumber)
    (rest : List (NodeId × List SequenceNumber))
    → compare_to_ref ref_node ref_order rest ≡ pass
    → All (λ o. Agree ref_order o.1) rest
unfolding compare_to_ref
compare_to_ref_sound r xs [] h = tt
compare_to_ref_sound r xs ((node, ys) ∷ rest) h = (
  compare_orders_sound r node 0 xs ys (ground arith),
  compare_to_ref_sound r xs rest (ground arith),
)

compare_to_ref_complete :
    (ref_node : NodeId) (ref_order : List SequenceNumber)
    (rest : List (NodeId × List SequenceNumber))
    → All (λ o. Agree ref_order o.1) rest
    → compare_to_ref ref_node ref_order rest ≡ pass
unfolding compare_to_ref
compare_to_ref_complete r xs [] h = refl
compare_to_ref_complete r xs ((node, ys) ∷ rest) h =
    rw (compare_orders_complete r node 0 xs ys h.0) (compare_to_ref_complete r xs rest h.1)

-- The first ordering agrees with each of the others.
abbrev pub AgreeWithFirst : List (NodeId × List SequenceNumber) → Type 0
AgreeWithFirst [] = Unit
AgreeWithFirst ((node, xs) ∷ rest) = All (λ o. Agree xs o.1) rest

check_orders_iff :
    (os : List (NodeId × List SequenceNumber)) → (check_orders os ≡ pass) ↔ AgreeWithFirst os
unfolding check_orders
check_orders_iff [] = ((λ h. tt), (λ h. refl))
check_orders_iff ((node, xs) ∷ rest) =
    (compare_to_ref_sound node xs rest, compare_to_ref_complete node xs rest)

-- Wherever the log knows one of the nodes, its sequences agree with these.
abbrev AgreesWithKnown : Map (List CommittedEntry) → List SequenceNumber → List NodeId → Type 0
AgreesWithKnown commits xs =
    All (λ node.
      (fs : List CommittedEntry) → Map.get node commits ≡ some fs → Agree xs (sequences fs))

-- The nodes up to the first one that the log knows are passed over; that one agrees with each later
-- one that the log knows.
abbrev pub FirstKnownAgrees : Map (List CommittedEntry) → List NodeId → Type 0
FirstKnownAgrees commits [] = Unit
FirstKnownAgrees commits (node ∷ honest) =
    ((Map.get node commits ≡ none) × FirstKnownAgrees commits honest)
    ⊎ ((es : List CommittedEntry) × (Map.get node commits ≡ some es)
        × AgreesWithKnown commits (sequences es) honest)

orderings-known :
    (log : CommitLog) (xs : List SequenceNumber) (honest : List NodeId)
    → All (λ o. Agree xs o.1) (orderings log honest) ↔ AgreesWithKnown log.commits xs honest
unfolding orderings
orderings-known log xs [] = ((λ h. tt), (λ h. tt))
orderings-known log xs (node ∷ honest) =
    let (sound, complete) = orderings-known log xs honest in
    elim (Option-cases (Map.get node log.commits)) [
      | inl e ↦ rw (e, orderings) ((λ h. ((λ fs bad. cc), sound h)), (λ h. complete h.1))
      | inr (es, e) ↦
          rw (e, orderings)
            (
              (λ h. (
                (λ fs known.
                    let same : es ≡ fs = cc in subst (λ z. Agree xs (sequences z)) same h.0),
                sound h.1,
              )),
              (λ h. (h.0 es refl, complete h.1)),
            )
    ]

orderings-first :
    (log : CommitLog) (honest : List NodeId)
    → AgreeWithFirst (orderings log honest) ↔ FirstKnownAgrees log.commits honest
unfolding orderings
orderings-first log [] = ((λ h. tt), (λ h. tt))
orderings-first log (node ∷ honest) = elim (Option-cases (Map.get node log.commits)) [
  | inl e ↦
      let (sound, complete) = orderings-first log honest in
      rw (e, orderings)
        ((λ h. inl (refl, sound h)), (λ h. elim h [ inl k ↦ complete k.1 | inr (es, bad, k) ↦ cc ]))
  | inr (es, e) ↦
      let (sound, complete) = orderings-known log (sequences es) honest in
      rw (e, orderings)
        (
          (λ h. inr (es, refl, sound h)),
          (λ h. elim h [
            | inl k ↦ cc
            | inr (es', same, k) ↦
                let one : es' ≡ es = cc in
                complete (subst (λ z. AgreesWithKnown log.commits (sequences z) honest) one k)
          ]),
        )
]

-- The total order check passes exactly if the first honest node that the log knows has, at each
-- position that it shares with a later honest node that the log knows, the same sequence as that
-- node.
pub check_total_order_iff :
    (log : CommitLog) (honest : List NodeId)
    → (check_total_order log honest ≡ pass) ↔ FirstKnownAgrees log.commits honest
unfolding check_total_order
check_total_order_iff log honest =
    let (sound, complete) = check_orders_iff (orderings log honest) in
    let (known, back) = orderings-first log honest in
    ((λ h. known (sound h)), (λ h. complete (back h)))

Agree-append : (xs ys : List SequenceNumber) → Agree xs (xs ++ ys)
Agree-append [] ys i x y hx hy = cc
Agree-append (a ∷ xs) ys zero x y hx hy = cc
Agree-append (a ∷ xs) ys (suc i) x y hx hy = Agree-append xs ys i x y hx hy

-- The check does not compare the other nodes with one another: it passes whenever the first has
-- committed a part `xs` of what two others have, however these go on.
pub check_orders_blind :
    (one two three : NodeId) (xs ys zs : List SequenceNumber)
    → check_orders ((one, xs) ∷ (two, xs ++ ys) ∷ (three, xs ++ zs) ∷ []) ≡ pass
check_orders_blind one two three xs ys zs =
    (check_orders_iff _).1 (Agree-append xs ys, (Agree-append xs zs, tt))
