-- ===== src/Prelude/Lists.antt =====
-- Lists measured and indexed by native numbers, membership as a test, and lists with no repetition.
use Prim.Native.Nat.{ℕ, zero, suc, ◌+◌, ◌≤◌, ◌<◌}
use mathlib.Core.Path.{◌≡◌, refl, ap}
use mathlib.Core.Logic.{inl, inr}
use mathlib.Core.Bool.{Bool, true, false, ◌&&◌, ◌||◌}
use mathlib.Core.List.{List, [], ◌∷◌, ◌++◌}
use mathlib.Core.Option.{Option, none, some}
use native.Mathlib.Omega.{arith}
use uomi_node.Prelude.Tests.{if◌then◌else◌, Bool-cases}
use uomi_node.Prelude.Key.{Key, ◌=?◌}

module _ {ℓ} {A : Type ℓ} where
  abbrev pub length : List A → ℕ
  length [] = 0
  length (x ∷ xs) = suc (length xs)

  abbrev pub get_elem? : List A → ℕ → Option A
  get_elem? [] i = none
  get_elem? (x ∷ xs) zero = some x
  get_elem? (x ∷ xs) (suc i) = get_elem? xs i

  abbrev pub take : ℕ → List A → List A
  take zero xs = []
  take (suc n) [] = []
  take (suc n) (x ∷ xs) = x ∷ take n xs

  abbrev pub drop : ℕ → List A → List A
  drop zero xs = xs
  drop (suc n) [] = []
  drop (suc n) (x ∷ xs) = drop n xs

  -- `iter().filter(p)`
  abbrev pub filter : (A → Bool) → List A → List A
  filter p [] = []
  filter p (x ∷ xs) = if p x then x ∷ filter p xs else filter p xs

  abbrev pub is_empty : List A → Bool
  is_empty [] = true
  is_empty (x ∷ xs) = false

  -- `iter().all(p)`
  abbrev pub all : (A → Bool) → List A → Bool
  all p [] = true
  all p (x ∷ xs) = p x && all p xs

  pub length-append : (xs ys : List A) → length (xs ++ ys) ≡ length xs + length ys
  length-append [] ys = omega arith
  length-append (x ∷ xs) ys = omega (arith, length-append xs ys)

  pub length-filter-le : (p : A → Bool) (xs : List A) → length (filter p xs) ≤ length xs
  length-filter-le p [] = omega arith
  length-filter-le p (x ∷ xs) = ground (arith, length-filter-le p xs)

  pub get_elem?-some : (xs : List A) (i : ℕ) → i < length xs → (a : A) × (get_elem? xs i ≡ some a)
  get_elem?-some [] i h = absurd (omega arith)
  get_elem?-some (x ∷ xs) zero h = (x, refl)
  get_elem?-some (x ∷ xs) (suc i) h = get_elem?-some xs i (omega arith)

module _ {ℓ} {A : Type ℓ} ⦃e : Key A⦄ where
  -- `Vec::contains`
  abbrev pub contains : List A → A → Bool
  contains [] a = false
  contains (x ∷ xs) a = x =? a || contains xs a

  -- How often a value stands in a list.
  unfoldable pub occurrences : A → List A → ℕ
  occurrences a [] = 0
  occurrences a (x ∷ xs) = (if x =? a then 1 else 0) + occurrences a xs

  abbrev pub Distinct : List A → Type 0
  Distinct [] = Unit
  Distinct (x ∷ xs) = (contains xs x ≡ false) × Distinct xs

  pub contains-append :
      (xs ys : List A) (a : A) → contains (xs ++ ys) a ≡ (contains xs a || contains ys a)
  contains-append [] ys a = refl
  contains-append (x ∷ xs) ys a = ground (arith, contains-append xs ys a)

  pub contains-filter :
      (p : A → Bool) (xs : List A) (a : A) → contains (filter p xs) a ≡ (contains xs a && p a)
  contains-filter p [] a = refl
  contains-filter p (x ∷ xs) a = elim (Bool-cases (e.beq x a)) [
    | inl same ↦ ground (arith, contains-filter p xs a, same, ap p ((e.beq_iff x a).0 same))
    | inr other ↦ ground (arith, contains-filter p xs a, other)
  ]

  pub Distinct-filter : (p : A → Bool) (xs : List A) → Distinct xs → Distinct (filter p xs)
  Distinct-filter p [] d = tt
  Distinct-filter p (x ∷ xs) d = ground (arith, Distinct-filter p xs d.1, contains-filter p xs x)

  pub Distinct-push :
      (xs : List A) (a : A) → contains xs a ≡ false → Distinct xs → Distinct (xs ++ a ∷ [])
  Distinct-push [] a n d = (refl, tt)
  Distinct-push (x ∷ xs) a n d =
      ground
        (arith, Distinct-push xs a, contains-append xs (a ∷ []) x, e.beq_iff x a, e.beq_iff a x)

  pub contains-get_elem? :
      (xs : List A) (i : ℕ) (a : A) → get_elem? xs i ≡ some a → contains xs a ≡ true
  contains-get_elem? [] i a h = cc
  contains-get_elem? (x ∷ xs) zero a h = ground (arith, e.beq_iff x a)
  contains-get_elem? (x ∷ xs) (suc i) a h = ground (arith, contains-get_elem? xs i a h)

  -- In a list with no repetition a value stands at one index.
  pub get_elem?-injective :
      (xs : List A) (i j : ℕ) (a : A)
      → Distinct xs
      → get_elem? xs i ≡ some a
      → get_elem? xs j ≡ some a
      → i ≡ j
  get_elem?-injective [] i j a d p q = cc
  get_elem?-injective (x ∷ xs) zero zero a d p q = refl
  get_elem?-injective (x ∷ xs) zero (suc j) a d p q =
      ground (arith, contains-get_elem? xs j a q, d.0)
  get_elem?-injective (x ∷ xs) (suc i) zero a d p q =
      ground (arith, contains-get_elem? xs i a p, d.0)
  get_elem?-injective (x ∷ xs) (suc i) (suc j) a d p q =
      ap suc (get_elem?-injective xs i j a d.1 p q)
