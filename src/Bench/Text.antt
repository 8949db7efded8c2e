-- ===== src/Bench/Text.antt =====
-- src/bin/bench_report.rs: the payloads of the proposals, `format!("pbft-{i}").into_bytes()`.
use bft_consensus_bench.Base.{
  ℕ, zero, suc, ◌+◌, ◌-◌, ◌*◌, ◌/◌, ◌%◌, ◌<◌, ◌≡◌, refl, ◌∙◌, ap, true, false, List, [], ◌∷◌, ◌++◌,
  arith, ltb, length, drop, inl, inr, Bool-cases,
}
use bft_consensus_bench.Types.{Payload}

-- ASCII.
abbrev pub Label : Type 0
Label = List ℕ

-- "warmup-"
abbrev pub warmup_label : Label
warmup_label = 119 ∷ 97 ∷ 114 ∷ 109 ∷ 117 ∷ 112 ∷ 45 ∷ []

-- "pbft-"
abbrev pub pbft_label : Label
pbft_label = 112 ∷ 98 ∷ 102 ∷ 116 ∷ 45 ∷ []

-- "hotstuff-"
abbrev pub hotstuff_label : Label
hotstuff_label = 104 ∷ 111 ∷ 116 ∷ 115 ∷ 116 ∷ 117 ∷ 102 ∷ 102 ∷ 45 ∷ []

-- "raft-"
abbrev pub raft_label : Label
raft_label = 114 ∷ 97 ∷ 102 ∷ 116 ∷ 45 ∷ []

-- "byz-"
abbrev pub byz_label : Label
byz_label = 98 ∷ 121 ∷ 122 ∷ 45 ∷ []

-- The decimal digits of `n`, on more fuel than `n`; a round divides by ten.
unfoldable pub digits : ℕ → ℕ → List ℕ
digits zero n = []
digits (suc fuel) n = elim (ltb n 10) [
  | true ↦ (48 + n) ∷ []
  | false ↦ digits fuel (n / 10) ++ (48 + n % 10) ∷ []
]

unfoldable pub numbered : Label → ℕ → Payload
unfolding digits
numbered label i = record { bytes = label ++ digits (suc i) i }

-- What decimal digits stand for.
abbrev pub value : ℕ → List ℕ → ℕ
value acc [] = acc
value acc (b ∷ bs) = value (acc * 10 + (b - 48)) bs

value-snoc :
    (acc : ℕ) (bs : List ℕ) (b : ℕ) → value acc (bs ++ b ∷ []) ≡ value acc bs * 10 + (b - 48)
value-snoc acc [] b = refl
value-snoc acc (x ∷ bs) b = value-snoc (acc * 10 + (x - 48)) bs b

digits-value : (fuel n : ℕ) → n < fuel → value 0 (digits fuel n) ≡ n
unfolding digits
digits-value zero n lt = absurd (omega arith)
digits-value (suc fuel) n lt = elim (Bool-cases (ltb n 10)) [
  | inl small ↦ rw (small, value) (omega arith)
  | inr large ↦
      let ten_or_more : 9 < n = ground arith in
      let rest = digits-value fuel (n / 10) (omega arith) in
      rw (large, value) (value-snoc 0 (digits fuel (n / 10)) (48 + n % 10) ∙ omega (arith, rest))
]

drop-append : (xs ys : List ℕ) → drop (length xs) (xs ++ ys) ≡ ys
drop-append [] ys = refl
drop-append (x ∷ xs) ys = drop-append xs ys

-- The number of a proposal can be read back from its payload, behind the label.
pub numbered-value :
    (label : Label) (i : ℕ) → value 0 (drop (length label) (numbered label i).bytes) ≡ i
unfolding numbered
numbered-value label i =
    ap (value 0) (drop-append label (digits (suc i) i)) ∙ digits-value (suc i) i (omega arith)
