-- ===== src/Prelude/Key.antt =====
-- Keys of maps: a Boolean equality, and the order in which a `BTreeMap` keeps them.
use Prim.Native.Nat.{ℕ}
use mathlib.Core.Path.{◌≡◌}
use mathlib.Core.Logic.{◌↔◌}
use mathlib.Core.Bool.{Bool, true, false, ◌&&◌, ◌||◌}
use mathlib.Core.List.{List, [], ◌∷◌}
use native.Mathlib.Omega.{arith}
use uomi_node.Prelude.Tests.{ltb, ◌==◌, ==_iff}

pub record Key {ℓ} (K : Type ℓ) : Type ℓ where
  pub beq : K → K → Bool
  pub beq_iff : (a b : K) → (beq a b ≡ true) ↔ (a ≡ b)
  pub before : K → K → Bool

instance abbrev pub nat_key : Key ℕ
nat_key = record { beq = ◌==◌; beq_iff = ==_iff; before = ltb }

abbrev pub pair_beq : ℕ × ℕ → ℕ × ℕ → Bool
pair_beq (a, b) (c, d) = a == c && b == d

pub pair_beq_iff : (p q : ℕ × ℕ) → (pair_beq p q ≡ true) ↔ (p ≡ q)
pair_beq_iff (a, b) (c, d) = ground arith

abbrev pub pair_before : ℕ × ℕ → ℕ × ℕ → Bool
pair_before (a, b) (c, d) = ltb a c || (a == c && ltb b d)

instance abbrev pub pair_key : Key (ℕ × ℕ)
pair_key = record { beq = pair_beq; beq_iff = pair_beq_iff; before = pair_before }

-- Byte strings: equality and lexicographic order.
abbrev pub bytes_beq : List ℕ → List ℕ → Bool
bytes_beq [] [] = true
bytes_beq [] (b ∷ bs) = false
bytes_beq (a ∷ xs) [] = false
bytes_beq (a ∷ xs) (b ∷ bs) = a == b && bytes_beq xs bs

pub bytes_beq_iff : (xs ys : List ℕ) → (bytes_beq xs ys ≡ true) ↔ (xs ≡ ys)
bytes_beq_iff [] [] = ground arith
bytes_beq_iff [] (b ∷ ys) = ground arith
bytes_beq_iff (a ∷ xs) [] = ground arith
bytes_beq_iff (a ∷ xs) (b ∷ ys) = ground (arith, bytes_beq_iff xs ys)

abbrev pub bytes_before : List ℕ → List ℕ → Bool
bytes_before xs [] = false
bytes_before [] (b ∷ bs) = true
bytes_before (a ∷ xs) (b ∷ bs) = ltb a b || (a == b && bytes_before xs bs)

instance abbrev pub bytes_key : Key (List ℕ)
bytes_key = record { beq = bytes_beq; beq_iff = bytes_beq_iff; before = bytes_before }

-- The equality test of a key type, under the operator that reads as the source does.
infix 50 ◌=?◌
abbrev pub ◌=?◌ {ℓ} : {K : Type ℓ} ⦃e : Key K⦄ → K → K → Bool
◌=?◌ ⦃e⦄ = e.beq
