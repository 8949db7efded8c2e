-- ===== src/Base/NodeSet.antt =====
-- `HashSet<NodeId>` as a list in which each node stands once.
use bft_consensus_bench.Base.Tests.{◌==◌, if◌then◌else◌, ==_iff}
use bft_consensus_bench.Base.Lists.{length, length-append}
use Prim.Native.Nat.{ℕ, ◌+◌, ◌≤◌}
use mathlib.Core.Path.{◌≡◌, refl}
use mathlib.Core.Bool.{Bool, false, ◌||◌}
use mathlib.Core.List.{List, [], ◌∷◌, ◌++◌}
use native.Mathlib.Omega.{arith}

unfoldable pub contains : ℕ → List ℕ → Bool
contains a [] = false
contains a (x ∷ xs) = a == x || contains a xs

unfoldable pub insert : ℕ → List ℕ → List ℕ
unfolding contains
insert a s = if contains a s then s else s ++ a ∷ []

-- Each element stands once.
abbrev pub IsDistinct : List ℕ → Type 0
IsDistinct [] = Unit
IsDistinct (x ∷ xs) = (contains x xs ≡ false) × IsDistinct xs

pub contains-append :
    (a : ℕ) (xs ys : List ℕ) → contains a (xs ++ ys) ≡ (contains a xs || contains a ys)
unfolding contains
contains-append a [] ys = refl
contains-append a (x ∷ xs) ys = ground (arith, contains-append a xs ys)

pub contains-insert : (a b : ℕ) (s : List ℕ) → contains b (insert a s) ≡ (b == a || contains b s)
unfolding contains insert
contains-insert a b s = ground (arith, contains-append b s (a ∷ []), ==_iff b a)

pub length-insert :
    (a : ℕ) (s : List ℕ) → length (insert a s) ≡ (if contains a s then length s else length s + 1)
unfolding insert
length-insert a s = ground (arith, length-append s (a ∷ []))

pub length-le-insert : (a : ℕ) (s : List ℕ) → length s ≤ length (insert a s)
length-le-insert a s = ground (arith, length-insert a s)

snoc-IsDistinct :
    (a : ℕ) (s : List ℕ) → contains a s ≡ false → IsDistinct s → IsDistinct (s ++ a ∷ [])
unfolding contains
snoc-IsDistinct a [] h d = (refl, tt)
snoc-IsDistinct a (x ∷ xs) h d = ground (arith, contains-append x xs (a ∷ []), snoc-IsDistinct a xs)

pub insert-IsDistinct : (a : ℕ) (s : List ℕ) → IsDistinct s → IsDistinct (insert a s)
unfolding insert
insert-IsDistinct a s d = ground (arith, snoc-IsDistinct a s)

unfoldable pub insert_all : List ℕ → List ℕ → List ℕ
insert_all [] s = s
insert_all (a ∷ xs) s = insert_all xs (insert a s)
