-- ===== src/Base/Map.antt =====
-- `HashMap<u64, V>` as an association list. Keys are numbers: nodes, views and sequence numbers.
use bft_consensus_bench.Base.Tests.{◌==◌, if◌then◌else◌, Bool-cases, ==_iff}
use Prim.Native.Nat.{ℕ}
use mathlib.Core.Path.{◌≡◌, refl, subst₂}
use mathlib.Core.Logic.{inl, inr}
use mathlib.Core.Bool.{Bool, true, false}
use mathlib.Core.List.{List, [], ◌∷◌}
use mathlib.Core.Option.{Option, none, some}
use native.Mathlib.Omega.{arith}

abbrev pub Map {ℓ} : Type ℓ → Type ℓ
Map V = List (ℕ × V)

module _ {ℓ} {V : Type ℓ} where
  unfoldable pub get : ℕ → Map V → Option V
  get k [] = none
  get k ((j, v) ∷ m) = if j == k then some v else get k m

  unfoldable pub remove : ℕ → Map V → Map V
  remove k [] = []
  remove k ((j, w) ∷ m) = if j == k then remove k m else (j, w) ∷ remove k m

  -- A key that is there keeps its place, and stands once.
  unfoldable pub insert : ℕ → V → Map V → Map V
  unfolding remove
  insert k v [] = (k, v) ∷ []
  insert k v ((j, w) ∷ m) = if j == k then (k, v) ∷ remove k m else (j, w) ∷ insert k v m

  -- `HashMap::retain` by a test on the values.
  unfoldable pub retain : (V → Bool) → Map V → Map V
  retain p [] = []
  retain p ((j, w) ∷ m) = if p w then (j, w) ∷ retain p m else retain p m

  unfoldable pub values : Map V → List V
  values [] = []
  values ((j, w) ∷ m) = w ∷ values m

  pub get-remove : (k j : ℕ) (m : Map V) → get j (remove k m) ≡ (if k == j then none else get j m)
  unfolding get remove
  get-remove k j [] = ground arith
  get-remove k j ((i, w) ∷ m) = ground (arith, get-remove k j m)

  pub get-insert :
      (k j : ℕ) (v : V) (m : Map V) → get j (insert k v m) ≡ (if k == j then some v else get j m)
  unfolding get insert
  get-insert k j v [] = refl
  get-insert k j v ((i, w) ∷ m) = ground (arith, get-insert k j v m, get-remove k j m)

  pub get-insert_self : (k : ℕ) (v : V) (m : Map V) → get k (insert k v m) ≡ some v
  get-insert_self k v m = ground (arith, get-insert k k v m)

  pub get-insert_ne :
      (k j : ℕ) (v : V) (m : Map V) → (j == k) ≡ false → get j (insert k v m) ≡ get j m
  get-insert_ne k j v m h = ground (arith, get-insert k j v m)

  pub get-remove_ne : (k j : ℕ) (m : Map V) → (j == k) ≡ false → get j (remove k m) ≡ get j m
  get-remove_ne k j m h = ground (arith, get-remove k j m)

  -- Every value that a key can reach.
  abbrev pub Each {κ} : (ℕ → V → Type κ) → Map V → Type κ
  Each P [] = Unit
  Each P ((j, v) ∷ m) = P j v × Each P m

  module _ {κ} (P : ℕ → V → Type κ) where
    pub Each-get : (k : ℕ) (m : Map V) {v : V} → Each P m → get k m ≡ some v → P k v
    unfolding get
    Each-get k [] e h = cc
    Each-get k ((j, w) ∷ m) {v} e h = elim (Bool-cases (j == k)) [
      | inl q ↦ let h' : some w ≡ some v = rw q at h in subst₂ P ((==_iff j k).0 q) (cc) e.0
      | inr q ↦ Each-get k m e.1 (rw q at h)
    ]

  pub Each-mono {κ κ'} :
      (P : ℕ → V → Type κ) (Q : ℕ → V → Type κ') (m : Map V)
      → ((j : ℕ) (w : V) → P j w → Q j w)
      → Each P m
      → Each Q m
  Each-mono P Q [] f e = tt
  Each-mono P Q ((j, w) ∷ m) f e = (f j w e.0, Each-mono P Q m f e.1)

  -- What is left after an operation on one key, or on the values that fail a test.
  module _ {κ κ'} (P : ℕ → V → Type κ) (Q : ℕ → V → Type κ') where
    pub Each-remove :
        (k : ℕ) (m : Map V)
        → ((j : ℕ) (w : V) → (j == k) ≡ false → P j w → Q j w)
        → Each P m
        → Each Q (remove k m)
    unfolding remove
    Each-remove k [] f e = tt
    Each-remove k ((j, w) ∷ m) f e = elim (Bool-cases (j == k)) [
      | inl q ↦ rw q (Each-remove k m f e.1)
      | inr q ↦ rw q (f j w q e.0, Each-remove k m f e.1)
    ]

    pub Each-insert :
        (k : ℕ) (v : V) (m : Map V)
        → Q k v
        → ((j : ℕ) (w : V) → (j == k) ≡ false → P j w → Q j w)
        → Each P m
        → Each Q (insert k v m)
    unfolding insert
    Each-insert k v [] p f e = (p, tt)
    Each-insert k v ((j, w) ∷ m) p f e = elim (Bool-cases (j == k)) [
      | inl q ↦ rw q (p, Each-remove k m f e.1)
      | inr q ↦ rw q (f j w q e.0, Each-insert k v m p f e.1)
    ]

    pub Each-retain :
        (p : V → Bool) (m : Map V)
        → ((j : ℕ) (w : V) → p w ≡ true → P j w → Q j w)
        → Each P m
        → Each Q (retain p m)
    unfolding retain
    Each-retain p [] f e = tt
    Each-retain p ((j, w) ∷ m) f e = elim (Bool-cases (p w)) [
      | inl q ↦ rw q (f j w q e.0, Each-retain p m f e.1)
      | inr q ↦ rw q (Each-retain p m f e.1)
    ]
