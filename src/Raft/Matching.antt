-- ===== src/Raft/Matching.antt =====
-- src/consensus/raft/state.rs: a follower's log beside the log of the leader that sends to it.
use bft_consensus_bench.Base.{
  ℕ, zero, suc, ◌+◌, ◌-◌, ◌≤◌, ◌<◌, ◌≡◌, refl, ◌∙◌, sym, ap, subst, true, none, some, List, [], ◌∷◌,
  ◌++◌, arith, ◌==◌, length, get_elem?, get_elem?-some, take, drop, sub_u64, u64_mod, inl, inr,
  Option-cases, Bool-cases, ==_iff,
}
use bft_consensus_bench.Network.{LogEntry}
use bft_consensus_bench.Raft.Replication.{append_entry, append_all}
use bft_consensus_bench.Raft.Log.{IsIndexed, append_entry-conflict, get_elem?-none}

module _ {A : Type 0} where
  take-take : (k m : ℕ) (xs : List A) → k ≤ m → take k (take m xs) ≡ take k xs
  take-take zero m xs le = refl
  take-take (suc k) zero xs le = absurd (omega arith)
  take-take (suc k) (suc m) [] le = refl
  take-take (suc k) (suc m) (x ∷ xs) le = ap (λ ys. x ∷ ys) (take-take k m xs (omega arith))

  pub take_all : (k : ℕ) (xs : List A) → length xs ≤ k → take k xs ≡ xs
  take_all zero [] le = refl
  take_all zero (x ∷ xs) le = absurd (omega arith)
  take_all (suc k) [] le = refl
  take_all (suc k) (x ∷ xs) le = ap (λ ys. x ∷ ys) (take_all k xs (omega arith))

  take-snoc :
      (k : ℕ) (xs : List A) (x : A)
      → get_elem? xs k ≡ some x
      → take (suc k) xs ≡ take k xs ++ x ∷ []
  take-snoc k [] x h = cc
  take-snoc zero (y ∷ xs) x h = cc
  take-snoc (suc k) (y ∷ xs) x h = ap (λ ys. y ∷ ys) (take-snoc k xs x h)

  drop-cons :
      (k : ℕ) (xs : List A) (x : A) → get_elem? xs k ≡ some x → drop k xs ≡ x ∷ drop (suc k) xs
  drop-cons k [] x h = cc
  drop-cons zero (y ∷ xs) x h = cc
  drop-cons (suc k) (y ∷ xs) x h = drop-cons k xs x h

  drop_all : (k : ℕ) (xs : List A) → length xs ≤ k → drop k xs ≡ []
  drop_all zero [] le = refl
  drop_all zero (x ∷ xs) le = absurd (omega arith)
  drop_all (suc k) [] le = refl
  drop_all (suc k) (x ∷ xs) le = drop_all k xs (omega arith)

  -- What stands in a prefix stands there in the list.
  get_elem?-of_take :
      (m j : ℕ) (xs : List A) (x : A)
      → get_elem? (take m xs) j ≡ some x
      → (j < m) × (get_elem? xs j ≡ some x)
  get_elem?-of_take zero j xs x h = cc
  get_elem?-of_take (suc m) j [] x h = cc
  get_elem?-of_take (suc m) zero (y ∷ xs) x h = (omega arith, h)
  get_elem?-of_take (suc m) (suc j) (y ∷ xs) x h =
      let (lt, e) = get_elem?-of_take m j xs x h in (omega arith, e)

  pub length-of_prefix :
      (k : ℕ) (xs ys : List A) → take k ys ≡ take k xs → k ≤ length xs → k ≤ length ys
  length-of_prefix zero xs ys e le = omega arith
  length-of_prefix (suc k) [] ys e le = absurd (omega arith)
  length-of_prefix (suc k) (x ∷ xs) [] e le = cc
  length-of_prefix (suc k) (x ∷ xs) (y ∷ ys) e le =
      let rest : take k ys ≡ take k xs = cc in
      omega (arith, length-of_prefix k xs ys rest (omega arith))

-- Raft's log matching: entries of one term at one place come after the same entries.
abbrev pub Matches : List LogEntry → List LogEntry → Type 0
Matches log log' =
    (j : ℕ) (x y : LogEntry)
    → get_elem? log j ≡ some x
    → get_elem? log' j ≡ some y
    → x.term ≡ y.term
    → take (suc j) log' ≡ take (suc j) log

pub take-Matches : (m : ℕ) (log log' : List LogEntry) → Matches log log' → Matches log (take m log')
take-Matches m log log' h j x y ex ey same =
    let (lt, ey') = get_elem?-of_take m j log' y ey in
    take-take (suc j) m log' (omega arith) ∙ h j x y ex ey' same

index-IsIndexed :
    (start : ℕ) (log : List LogEntry) (k : ℕ) (x : LogEntry)
    → IsIndexed start log
    → get_elem? log k ≡ some x
    → x.index ≡ start + k + 1
index-IsIndexed start [] k x ix h = cc
index-IsIndexed start (y ∷ log) zero x ix h =
    let e : y ≡ x = cc in ap (λ z. z.index) (sym e) ∙ omega (arith, ix.0)
index-IsIndexed start (y ∷ log) (suc k) x ix h =
    omega (arith, index-IsIndexed (start + 1) log k x ix.1 h)

Matches-refl : (log : List LogEntry) → Matches log log
Matches-refl log j x y ex ey same = refl

append_entry-end :
    (log : List LogEntry) (k : ℕ) (entry : LogEntry)
    → sub_u64 entry.index 1 ≡ k
    → get_elem? log k ≡ none
    → append_entry log entry ≡ log ++ entry ∷ []
unfolding append_entry
append_entry-end log k entry at_k e = ground arith

append_entry-same :
    (log : List LogEntry) (k : ℕ) (entry old : LogEntry)
    → sub_u64 entry.index 1 ≡ k
    → get_elem? log k ≡ some old
    → (old.term == entry.term) ≡ true
    → append_entry log entry ≡ log
unfolding append_entry
append_entry-same log k entry old at_k e q = ground arith

-- One round of the loop extends the common prefix by the entry.
append_entry-Matches :
    (log log' : List LogEntry) (k : ℕ) (entry : LogEntry)
    → sub_u64 entry.index 1 ≡ k
    → get_elem? log k ≡ some entry
    → take k log' ≡ take k log
    → Matches log log'
    → (take (suc k) (append_entry log' entry) ≡ take (suc k) log)
      × Matches log (append_entry log' entry)
append_entry-Matches log log' k entry at_k here same h =
    let replaced : (l : List LogEntry)
        → l ≡ take k log' ++ entry ∷ []
        → (take (suc k) l ≡ take (suc k) log) × Matches log l =
      λ l e.
        let is_prefix : l ≡ take (suc k) log =
          e ∙ ap (λ ys. ys ++ entry ∷ []) same ∙ sym (take-snoc k log entry here) in
        subst (λ ys. (take (suc k) ys ≡ take (suc k) log) × Matches log ys) (sym is_prefix)
          (
            take-take (suc k) (suc k) log (omega arith),
            take-Matches (suc k) log log (Matches-refl log),
          ) in
    elim (Option-cases (get_elem? log' k)) [
      | inl e ↦ replaced (append_entry log' entry) (
          append_entry-end log' k entry at_k e
          ∙ ap (λ ys. ys ++ entry ∷ []) (sym (take_all k log' (get_elem?-none log' k e))))
      | inr (old, e) ↦ elim (Bool-cases (old.term == entry.term)) [
        | inl q ↦
            subst (λ l. (take (suc k) l ≡ take (suc k) log) × Matches log l)
              (sym (append_entry-same log' k entry old at_k e q))
              (h k entry old here e (sym ((==_iff _ _).0 q)), h)
        | inr q ↦
            replaced (append_entry log' entry) (append_entry-conflict log' k entry old at_k e q)
      ]
    ]

-- The loop over the entries of `log` from place `k` on, of which `rest` are left.
append_rest-Matches :
    (rest k : ℕ) (log log' : List LogEntry)
    → k + rest ≡ length log
    → length log + 1 < u64_mod
    → IsIndexed 0 log
    → take k log' ≡ take k log
    → Matches log log'
    → (take (length log) (append_all log' (drop k log)) ≡ log)
      × Matches log (append_all log' (drop k log))
unfolding append_all
append_rest-Matches zero k log log' all small ix same h =
    rw (drop_all k log (omega arith))
      (ap (λ i. take i log') (omega arith) ∙ same ∙ take_all k log (omega arith), h)
append_rest-Matches (suc rest) k log log' all small ix same h =
    let (x, here) = get_elem?-some log k (omega arith) in
    let at_k : sub_u64 x.index 1 ≡ k = omega (arith, index-IsIndexed 0 log k x ix here) in
    let (same', h') = append_entry-Matches log log' k x at_k here same h in
    rw (drop-cons k log x here)
      (append_rest-Matches rest (suc k) log (append_entry log' x) (omega arith) small ix same' h')

-- A follower whose log matches the leader's, and is the leader's up to place `start`, has the whole
-- log of the leader, perhaps with more behind it, once it has taken the leader's entries from
-- there on.
pub append_all-Matches :
    (start : ℕ) (log log' : List LogEntry)
    → start ≤ length log
    → length log + 1 < u64_mod
    → IsIndexed 0 log
    → take start log' ≡ take start log
    → Matches log log'
    → (take (length log) (append_all log' (drop start log)) ≡ log)
      × Matches log (append_all log' (drop start log))
append_all-Matches start log log' le =
    append_rest-Matches (length log - start) start log log' (omega arith)
