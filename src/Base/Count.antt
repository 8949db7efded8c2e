-- ===== src/Base/Count.antt =====
-- How many numbers below a bound pass a test: the counting behind the intersection of quorums.
use bft_consensus_bench.Base.Tests.{◌==◌, if◌then◌else◌, Bool-cases}
use bft_consensus_bench.Base.Lists.{length, All}
use bft_consensus_bench.Base.NodeSet.{contains, IsDistinct}
use Prim.Native.Nat.{ℕ, zero, suc, ◌+◌, ◌≤◌, ◌<◌}
use mathlib.Core.Path.{◌≡◌, refl}
use mathlib.Core.Logic.{inl, inr}
use mathlib.Core.Bool.{Bool, true, false, ◌&&◌, ◌||◌, not}
use mathlib.Core.List.{List, [], ◌∷◌}
use native.Mathlib.Omega.{arith}

pub count : ℕ → (ℕ → Bool) → ℕ
count zero p = 0
count (suc n) p = (if p n then 1 else 0) + count n p

pub count-le : (n : ℕ) (p : ℕ → Bool) → count n p ≤ n
unfolding count
count-le zero p = omega arith
count-le (suc n) p = ground (arith, count-le n p)

pub count_or_and :
    (n : ℕ) (p q : ℕ → Bool)
    → count n (λ x. p x || q x) + count n (λ x. p x && q x) ≡ count n p + count n q
unfolding count
count_or_and zero p q = refl
count_or_and (suc n) p q = ground (arith, count_or_and n p q)

-- A test that passes more often than another passes somewhere alone.
pub count_pigeonhole :
    (n : ℕ) (p q : ℕ → Bool)
    → count n q < count n p
    → (x : ℕ) × (x < n) × (p x ≡ true) × (q x ≡ false)
unfolding count
count_pigeonhole zero p q h = absurd (omega arith)
count_pigeonhole (suc n) p q h = elim (Bool-cases (p n && not (q n))) [
  | inl e ↦ (n, omega arith, ground arith, ground arith)
  | inr e ↦
      let (x, lt, yes_p, no_q) = count_pigeonhole n p q (ground arith) in
      (x, omega arith, yes_p, no_q)
]

count-insert_of_le : (n x : ℕ) (p : ℕ → Bool) → n ≤ x → count n (λ y. y == x || p y) ≡ count n p
unfolding count
count-insert_of_le zero x p h = refl
count-insert_of_le (suc n) x p h = ground (arith, count-insert_of_le n x p)

count-insert :
    (n x : ℕ) (p : ℕ → Bool) → x < n → p x ≡ false → count n (λ y. y == x || p y) ≡ count n p + 1
unfolding count
count-insert zero x p lt h = absurd (omega arith)
count-insert (suc n) x p lt h = ground (arith, count-insert n x p, count-insert_of_le n x p)

count-insert-le : (n x : ℕ) (p : ℕ → Bool) → count n (λ y. y == x || p y) ≤ count n p + 1
unfolding count
count-insert-le zero x p = omega arith
count-insert-le (suc n) x p = ground (arith, count-insert-le n x p, count-insert_of_le n x p)

count_never : (n : ℕ) → count n (λ _. false) ≡ 0
unfolding count
count_never zero = refl
count_never (suc n) = omega (arith, count_never n)

pub count-contains :
    (n : ℕ) (xs : List ℕ)
    → IsDistinct xs
    → All (λ x. x < n) xs
    → count n (λ y. contains y xs) ≡ length xs
unfolding contains
count-contains n [] d a = count_never n
count-contains n (x ∷ xs) d a =
    ground (arith, count-insert n x (λ y. contains y xs), count-contains n xs)

pub count-contains-le : (n : ℕ) (xs : List ℕ) → count n (λ y. contains y xs) ≤ length xs
unfolding contains
count-contains-le n [] = omega (arith, count_never n)
count-contains-le n (x ∷ xs) =
    omega (arith, count-insert-le n x (λ y. contains y xs), count-contains-le n xs)

-- Two sets of nodes that are together larger by more than `size faulty` than the whole share a
-- node outside `faulty`.
pub honest_overlap :
    (n : ℕ) (xs ys faulty : List ℕ)
    → IsDistinct xs
    → IsDistinct ys
    → All (λ x. x < n) xs
    → All (λ x. x < n) ys
    → n + length faulty < length xs + length ys
    → (x : ℕ) × (x < n)
      × (contains x xs ≡ true)
      × (contains x ys ≡ true)
      × (contains x faulty ≡ false)
honest_overlap n xs ys faulty dx dy ax ay h =
    let p : ℕ → Bool = λ x. contains x xs in
    let q : ℕ → Bool = λ x. contains x ys in
    let (x, lt, both, honest) =
      count_pigeonhole n (λ x. p x && q x) (λ x. contains x faulty)
        (omega (
          arith,
          count_or_and n p q,
          count-le n (λ x. p x || q x),
          count-contains n xs dx ax,
          count-contains n ys dy ay,
          count-contains-le n faulty,
        )) in
    (x, lt, ground arith, ground arith, honest)
