-- ===== src/Types.antt =====
-- src/types/message.rs and src/types/node.rs: identifiers, payloads and digests.
use bft_consensus_bench.Base.{
  ℕ, ◌≡◌, refl, Bool, true, false, ◌&&◌, List, [], ◌∷◌, arith, ◌==◌, length,
}

-- `u64` newtypes and synonyms. A `u64` is a number below 2 ^ 64.
abbrev pub NodeId : Type 0
NodeId = ℕ

abbrev pub ViewNumber : Type 0
ViewNumber = ℕ

abbrev pub SequenceNumber : Type 0
SequenceNumber = ℕ

-- The bytes, each below 256.
pub record Payload : Type 0 where
  pub bytes : List ℕ

pub record Digest : Type 0 where
  pub bytes : List ℕ

-- SHA-256, from the crate sha2, is a parameter.
abbrev pub Sha256 : Type 0
Sha256 = List ℕ → List ℕ

unfoldable pub digest : Sha256 → Payload → Digest
digest sha256 p = record { bytes = sha256 p.bytes }

unfoldable pub len : Payload → ℕ
len p = length p.bytes

unfoldable pub is_empty : Payload → Bool
is_empty p = length p.bytes == 0

bytes_eq : List ℕ → List ℕ → Bool
bytes_eq [] [] = true
bytes_eq (x ∷ xs) (y ∷ ys) = x == y && bytes_eq xs ys
bytes_eq _ _ = false

-- The derived `PartialEq`.
unfoldable pub payload_eq : Payload → Payload → Bool
unfolding bytes_eq
payload_eq p q = bytes_eq p.bytes q.bytes

bytes_eq_sound : (xs ys : List ℕ) → bytes_eq xs ys ≡ true → xs ≡ ys
unfolding bytes_eq
bytes_eq_sound [] [] h = refl
bytes_eq_sound [] (y ∷ ys) h = cc
bytes_eq_sound (x ∷ xs) [] h = cc
bytes_eq_sound (x ∷ xs) (y ∷ ys) h = ground (arith, bytes_eq_sound xs ys)

bytes_eq_self : (xs : List ℕ) → bytes_eq xs xs ≡ true
unfolding bytes_eq
bytes_eq_self [] = refl
bytes_eq_self (x ∷ xs) = ground (arith, bytes_eq_self xs)

pub payload_eq_sound : (p q : Payload) → payload_eq p q ≡ true → p ≡ q
unfolding payload_eq
payload_eq_sound p q h = ground (arith, bytes_eq_sound p.bytes q.bytes)

pub payload_eq_self : (p : Payload) → payload_eq p p ≡ true
unfolding payload_eq
payload_eq_self p = bytes_eq_self p.bytes
