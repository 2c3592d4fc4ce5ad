-- ===== src/Engine/Models/Election.antt =====
-- The election of a version: no version runs on more nodes than the elected one.
use uomi_node.Prelude.{
  ℕ, ◌+◌, ◌≤◌, ◌<◌, ◌%◌, ◌^◌, some, ◌≡◌, ◌⊎◌, refl, ap, suc, inl, List, [], ◌∷◌, arith, ltb, ==_iff,
  if◌then◌else◌,
}
use uomi_node.Prelude.Key.{nat_key}
use uomi_node.Prelude.Lists.{length, Distinct, occurrences}
use uomi_node.Prelude.Map.{
  Map, lookup, insert, keys, values, or_default, lookup-insert, keys-insert-Distinct, contains-keys,
}
use uomi_node.Engine.{AccountId, Storage}
use uomi_node.Engine.Models.{
  pallet_version, count_versions, max_version, aimodelscalc_get_most_used_version,
}

lookup-count_versions :
    (vs : List ℕ) (counts : Map ℕ ℕ) (v : ℕ)
    → ((k : ℕ) → or_default (lookup k counts) 0 + length vs < 2 ^ 32)
    → or_default (lookup v (count_versions vs counts)) 0
      ≡ or_default (lookup v counts) 0 + occurrences v vs
unfolding count_versions occurrences
lookup-count_versions [] counts v small = omega arith
lookup-count_versions (w ∷ vs) counts v small =
    let counts' = insert w ((or_default (lookup w counts) 0 + 1) % 2 ^ 32) counts in
    ground (
      arith,
      lookup-count_versions vs counts' v (λ k. ground (
        arith,
        small k,
        small w,
        lookup-insert w k ((or_default (lookup w counts) 0 + 1) % 2 ^ 32) counts,
      )),
      lookup-insert w v ((or_default (lookup w counts) 0 + 1) % 2 ^ 32) counts,
      small w,
    )

count_versions-Distinct :
    (vs : List ℕ) (counts : Map ℕ ℕ)
    → Distinct (keys counts)
    → Distinct (keys (count_versions vs counts))
unfolding count_versions
count_versions-Distinct [] counts d = d
count_versions-Distinct (v ∷ vs) counts d =
    count_versions-Distinct vs _ (keys-insert-Distinct v _ counts d)

-- The greatest count, from `max` on.
unfoldable greatest : ℕ → Map ℕ ℕ → ℕ
greatest max [] = max
greatest max ((v, c) ∷ rest) = greatest (if ltb max c then c else max) rest

greatest-le :
    (max : ℕ) (m : Map ℕ ℕ) (v : ℕ)
    → (max ≤ greatest max m) × (or_default (lookup v m) 0 ≤ greatest max m)
unfolding greatest lookup
greatest-le max [] v = omega arith
greatest-le max ((w, c) ∷ m) v = ground (arith, greatest-le (if ltb max c then c else max) m v)

-- The elected version has the greatest count, or it is the first and no count exceeds its.
max_version-greatest :
    (max version : ℕ) (m : Map ℕ ℕ)
    → Distinct (keys m)
    → ((greatest max m ≡ max) × (max_version max version m ≡ version))
      ⊎ (lookup (max_version max version m) m ≡ some (greatest max m))
unfolding greatest max_version lookup
max_version-greatest max version [] d = inl (refl, refl)
max_version-greatest max version ((w, c) ∷ m) d = ground (
  arith,
  max_version-greatest (if ltb max c then c else max) (if ltb max c then w else version) m d.1,
  contains-keys m w,
  ==_iff w (max_version (if ltb max c then c else max) (if ltb max c then w else version) m),
  d.0,
)

-- Over all nodes, below the bound of the counters.
elected_most :
    (vs : List ℕ) (version v : ℕ)
    → length vs < 2 ^ 32
    → occurrences v vs ≤ occurrences (max_version 0 version (count_versions vs [])) vs
unfolding lookup
elected_most vs version v small =
    let m = count_versions vs [] in
    let w = max_version 0 version m in
    ground (
      arith,
      greatest-le 0 m v,
      max_version-greatest 0 version m (count_versions-Distinct vs [] tt),
      lookup-count_versions vs [] v (λ k. omega (arith, small)),
      lookup-count_versions vs [] w (λ k. omega (arith, small)),
    )

-- The early return on no nodes gives what the loops would give.
most_used_version-loops :
    (s : Storage)
    → aimodelscalc_get_most_used_version s
      ≡ max_version 0 pallet_version (count_versions (values s.nodes_versions) [])
unfolding aimodelscalc_get_most_used_version count_versions max_version
most_used_version-loops s = loops s.nodes_versions
  where
    loops :
        (m : Map AccountId ℕ)
        → elim m [
          | [] ↦ pallet_version
          | node ∷ rest ↦ max_version 0 pallet_version (count_versions (values (node ∷ rest)) [])
        ]
          ≡ max_version 0 pallet_version (count_versions (values m) [])
    loops [] = unfold count_versions in unfold max_version in refl
    loops (node ∷ rest) = refl

length-values : {V : Type 0} (m : Map AccountId V) → length (values m) ≡ length m
length-values [] = refl
length-values ((a, v) ∷ m) = ap suc (length-values m)

-- With fewer than 2 ^ 32 nodes, no version runs on more nodes than the version that
-- `aimodelscalc_get_most_used_version` gives.
pub most_used_version_most :
    (s : Storage) (v : ℕ)
    → length s.nodes_versions < 2 ^ 32
    → occurrences v (values s.nodes_versions)
      ≤ occurrences (aimodelscalc_get_most_used_version s) (values s.nodes_versions)
most_used_version_most s v small = rw (most_used_version-loops s) (
    elected_most (values s.nodes_versions) pallet_version v
      (omega (arith, small, length-values s.nodes_versions)))
