-- ===== src/Prelude/Map.antt =====
-- Maps as association lists: a `BTreeMap` in the order of its keys, a storage map in the order in
-- which the node iterates over it (that of hashed keys, which no code here computes).
use Prim.Native.Nat.{ℕ, suc}
use mathlib.Core.Logic.{inl, inr}
use mathlib.Core.Path.{◌≡◌, refl, ◌∙◌, ap}
use mathlib.Core.Bool.{Bool, true, false, ◌||◌}
use mathlib.Core.List.{List, [], ◌∷◌}
use mathlib.Core.Option.{Option, none, some}
use native.Mathlib.Omega.{arith}
use uomi_node.Prelude.Tests.{◌==◌, if◌then◌else◌, Bool-cases}
use uomi_node.Prelude.Key.{Key, nat_key, pair_key}
use uomi_node.Prelude.Lists.{contains, Distinct, length}

abbrev pub Map {ℓ κ} : Type ℓ → Type κ → Type (ℓ ⊔ κ)
Map K V = List (K × V)

-- `ValueQuery`: what a read of a missing key gives.
abbrev pub or_default {ℓ} : {V : Type ℓ} → Option V → V → V
or_default none d = d
or_default (some v) d = v

abbrev pub is_some {ℓ} : {V : Type ℓ} → Option V → Bool
is_some none = false
is_some (some v) = true

module _ {ℓ κ} {K : Type ℓ} {V : Type κ} where
  abbrev pub keys : Map K V → List K
  keys [] = []
  keys ((k, v) ∷ m) = k ∷ keys m

  abbrev pub values : Map K V → List V
  values [] = []
  values ((k, v) ∷ m) = v ∷ values m

pub beq_refl {ℓ} : {K : Type ℓ} ⦃e : Key K⦄ (k : K) → e.beq k k ≡ true
beq_refl ⦃e⦄ k = (e.beq_iff k k).1 refl

module _ {ℓ κ} {K : Type ℓ} {V : Type κ} ⦃e : Key K⦄ where
  unfoldable pub lookup : K → Map K V → Option V
  lookup k [] = none
  lookup k ((j, v) ∷ m) = if e.beq j k then some v else lookup k m

  abbrev pub contains_key : Map K V → K → Bool
  contains_key m k = is_some (lookup k m)

  -- `StorageMap::insert`: a new key is listed last.
  unfoldable pub put : K → V → Map K V → Map K V
  put k v [] = (k, v) ∷ []
  put k v ((j, w) ∷ m) = if e.beq j k then (k, v) ∷ m else (j, w) ∷ put k v m

  -- A new key goes in front of the first greater one.
  unfoldable pub place : K → V → Map K V → Map K V
  place k v [] = (k, v) ∷ []
  place k v ((j, w) ∷ m) = if e.before k j then (k, v) ∷ (j, w) ∷ m else (j, w) ∷ place k v m

  -- `BTreeMap::insert`: the value of a key that is there is replaced.
  unfoldable pub insert : K → V → Map K V → Map K V
  unfolding put place
  insert k v m = if contains_key m k then put k v m else place k v m

  -- `StorageMap::remove`
  unfoldable pub remove : K → Map K V → Map K V
  remove k [] = []
  remove k ((j, w) ∷ m) = if e.beq j k then remove k m else (j, w) ∷ remove k m

  pub lookup-put :
      (k j : K) (v : V) (m : Map K V)
      → lookup j (put k v m) ≡ (if e.beq k j then some v else lookup j m)
  unfolding lookup put
  lookup-put k j v [] = refl
  lookup-put k j v ((i, w) ∷ m) =
      ground (arith, e.beq_iff k j, e.beq_iff i k, e.beq_iff i j, lookup-put k j v m)

  pub lookup-put_same : (k : K) (v : V) (m : Map K V) → lookup k (put k v m) ≡ some v
  lookup-put_same k v m =
      lookup-put k k v m ∙ ap (λ b. if b then some v else lookup k m) (beq_refl k)

  lookup-place :
      (k j : K) (v : V) (m : Map K V)
      → contains_key m k ≡ false
      → lookup j (place k v m) ≡ (if e.beq k j then some v else lookup j m)
  unfolding lookup place
  lookup-place k j v [] n = refl
  lookup-place k j v ((i, w) ∷ m) n =
      ground (arith, e.beq_iff k j, e.beq_iff i k, e.beq_iff i j, lookup-place k j v m)

  pub lookup-insert :
      (k j : K) (v : V) (m : Map K V)
      → lookup j (insert k v m) ≡ (if e.beq k j then some v else lookup j m)
  lookup-insert k j v m = elim (Bool-cases (contains_key m k)) [
    | inl old ↦ unfold insert in rw old (lookup-put k j v m)
    | inr new ↦ unfold insert in rw new (lookup-place k j v m new)
  ]

  pub lookup-remove :
      (k j : K) (m : Map K V) → lookup j (remove k m) ≡ (if e.beq k j then none else lookup j m)
  unfolding lookup remove
  lookup-remove k j [] = ground arith
  lookup-remove k j ((i, w) ∷ m) =
      ground (arith, e.beq_iff k j, e.beq_iff i k, e.beq_iff i j, lookup-remove k j m)

  pub contains-keys : (m : Map K V) (k : K) → contains (keys m) k ≡ contains_key m k
  unfolding lookup
  contains-keys [] k = refl
  contains-keys ((j, v) ∷ m) k = ground (arith, contains-keys m k)

  keys-put-contained :
      (k : K) (v : V) (m : Map K V) → contains_key m k ≡ true → keys (put k v m) ≡ keys m
  unfolding lookup put
  keys-put-contained k v [] h = cc
  keys-put-contained k v ((j, w) ∷ m) h = ground (arith, e.beq_iff j k, keys-put-contained k v m)

  contains-keys-place :
      (k : K) (v : V) (m : Map K V) (j : K)
      → contains (keys (place k v m)) j ≡ (e.beq k j || contains (keys m) j)
  unfolding place
  contains-keys-place k v [] j = refl
  contains-keys-place k v ((i, w) ∷ m) j = ground (arith, contains-keys-place k v m j)

  keys-place-Distinct :
      (k : K) (v : V) (m : Map K V)
      → contains_key m k ≡ false
      → Distinct (keys m)
      → Distinct (keys (place k v m))
  unfolding lookup place
  keys-place-Distinct k v [] n d = (refl, tt)
  keys-place-Distinct k v ((j, w) ∷ m) n d = ground (
    arith,
    contains-keys-place k v m j,
    contains-keys ((j, w) ∷ m) k,
    contains-keys m k,
    keys-place-Distinct k v m,
    e.beq_iff k j,
    e.beq_iff j k,
  )

  -- A storage map holds no key twice.
  pub keys-put-Distinct :
      (k : K) (v : V) (m : Map K V) → Distinct (keys m) → Distinct (keys (put k v m))
  unfolding put
  keys-put-Distinct k v [] d = (refl, tt)
  keys-put-Distinct k v ((j, w) ∷ m) d = ground (
    arith,
    contains-keys (put k v m) j,
    lookup-put k j v m,
    contains-keys m j,
    keys-put-Distinct k v m,
    e.beq_iff k j,
    e.beq_iff j k,
  )

  -- A `BTreeMap` holds no key twice.
  pub keys-insert-Distinct :
      (k : K) (v : V) (m : Map K V) → Distinct (keys m) → Distinct (keys (insert k v m))
  keys-insert-Distinct k v m d = elim (Bool-cases (contains_key m k)) [
    | inl old ↦ unfold insert in rw old (rw (keys-put-contained k v m old) d)
    | inr new ↦ unfold insert in rw new (keys-place-Distinct k v m new d)
  ]

  length-place : (k : K) (v : V) (m : Map K V) → length (place k v m) ≡ suc (length m)
  unfolding place
  length-place k v [] = refl
  length-place k v ((j, w) ∷ m) = ground (arith, length-place k v m)

  pub length-insert_new :
      (k : K) (v : V) (m : Map K V)
      → contains_key m k ≡ false
      → length (insert k v m) ≡ suc (length m)
  length-insert_new k v m new = unfold insert in rw new (length-place k v m)

-- A double map is keyed by pairs; `iter_prefix` lists the entries of one first key.
module _ {κ} {V : Type κ} where
  unfoldable pub iter_prefix : ℕ → Map (ℕ × ℕ) V → Map ℕ V
  iter_prefix r [] = []
  iter_prefix r (((q, a), v) ∷ m) = if q == r then (a, v) ∷ iter_prefix r m else iter_prefix r m

  -- `remove_prefix`, and the removal of all that `iter_prefix` lists
  unfoldable pub remove_prefix : ℕ → Map (ℕ × ℕ) V → Map (ℕ × ℕ) V
  remove_prefix r [] = []
  remove_prefix r (((q, a), v) ∷ m) =
      if q == r then remove_prefix r m else ((q, a), v) ∷ remove_prefix r m

  pub lookup-iter_prefix :
      (r a : ℕ) (m : Map (ℕ × ℕ) V) → lookup a (iter_prefix r m) ≡ lookup (r, a) m
  unfolding lookup iter_prefix
  lookup-iter_prefix r a [] = refl
  lookup-iter_prefix r a (((q, b), v) ∷ m) = ground (arith, lookup-iter_prefix r a m)

  pub lookup-remove_prefix :
      (r : ℕ) (k : ℕ × ℕ) (m : Map (ℕ × ℕ) V)
      → lookup k (remove_prefix r m) ≡ (if r == k.0 then none else lookup k m)
  unfolding lookup remove_prefix
  lookup-remove_prefix r (s, a) [] = ground arith
  lookup-remove_prefix r (s, a) (((q, b), v) ∷ m) = ground (arith, lookup-remove_prefix r (s, a) m)

  pub keys-iter_prefix-Distinct :
      (r : ℕ) (m : Map (ℕ × ℕ) V) → Distinct (keys m) → Distinct (keys (iter_prefix r m))
  unfolding iter_prefix
  keys-iter_prefix-Distinct r [] d = tt
  keys-iter_prefix-Distinct r (((q, a), v) ∷ m) d = ground (
    arith,
    keys-iter_prefix-Distinct r m d.1,
    contains-keys (iter_prefix r m) a,
    lookup-iter_prefix r a m,
    contains-keys m (r, a),
    d.0,
  )
