-- ===== src/Engine/Run/Level2/Majority.antt =====
-- The vote of level 2: `most_common` finds an output that no other output outnumbers.
use native.Mathlib.Nat.{zero-add}
use uomi_node.Prelude.{
  ℕ, ◌+◌, ◌≤◌, Option, none, some, ◌≡◌, ◌⊎◌, ◌∙◌, refl, inl, List, [], ◌∷◌, arith, leb,
  if◌then◌else◌,
}
use uomi_node.Prelude.Key.{nat_key, bytes_key, bytes_beq_iff}
use uomi_node.Prelude.Lists.{Distinct, occurrences}
use uomi_node.Prelude.Map.{
  Map, lookup, insert, keys, or_default, lookup-insert, keys-insert-Distinct, contains-keys,
}
use uomi_node.Engine.{Data}
use uomi_node.Engine.Run.Level2.{count_values, max_by_count, most_common}

lookup-count_values :
    (vs : List Data) (counts : Map Data ℕ) (d : Data)
    → or_default (lookup d (count_values vs counts)) 0
      ≡ or_default (lookup d counts) 0 + occurrences d vs
unfolding count_values occurrences
lookup-count_values [] counts d = omega arith
lookup-count_values (v ∷ vs) counts d =
    let counts' = insert v (or_default (lookup v counts) 0 + 1) counts in
    ground (
      arith,
      lookup-count_values vs counts' d,
      lookup-insert v d (or_default (lookup v counts) 0 + 1) counts,
      bytes_beq_iff v d,
    )

count_values-Distinct :
    (vs : List Data) (counts : Map Data ℕ)
    → Distinct (keys counts)
    → Distinct (keys (count_values vs counts))
unfolding count_values
count_values-Distinct [] counts d = d
count_values-Distinct (v ∷ vs) counts d =
    count_values-Distinct vs _ (keys-insert-Distinct v _ counts d)

-- Every entry of a map, as its lookup finds it, is at most the best.
max_by_count-max :
    (best : Data × ℕ) (m : Map Data ℕ) (d : Data)
    → Distinct (keys m)
    → (best.1 ≤ (max_by_count best m).1) × (or_default (lookup d m) 0 ≤ (max_by_count best m).1)
unfolding max_by_count lookup
max_by_count-max best [] d u = omega arith
max_by_count-max best ((e, n) ∷ m) d u =
    ground (arith, max_by_count-max (if leb best.1 n then (e, n) else best) m d u.1)

later :
    (best : Data × ℕ) (e : Data) (n : ℕ) (m : Map Data ℕ)
    → Distinct (keys ((e, n) ∷ m))
    → ((max_by_count (if leb best.1 n then (e, n) else best) m
          ≡ (if leb best.1 n then (e, n) else best))
        ⊎ (lookup (max_by_count (if leb best.1 n then (e, n) else best) m).0 m
            ≡ some (max_by_count (if leb best.1 n then (e, n) else best) m).1))
    → (max_by_count best ((e, n) ∷ m) ≡ best)
      ⊎ (lookup (max_by_count best ((e, n) ∷ m)).0 ((e, n) ∷ m)
          ≡ some (max_by_count best ((e, n) ∷ m)).1)
unfolding max_by_count lookup
later best e n m u h =
    let found = max_by_count (if leb best.1 n then (e, n) else best) m in
    ground (arith, bytes_beq_iff e found.0, bytes_beq_iff e e, contains-keys m e, u.0)

-- The best is where the fold began or an entry of the map.
max_by_count-entry :
    (best : Data × ℕ) (m : Map Data ℕ)
    → Distinct (keys m)
    → (max_by_count best m ≡ best)
      ⊎ (lookup (max_by_count best m).0 m ≡ some (max_by_count best m).1)
max_by_count-entry best [] u = inl (unfold max_by_count in refl)
max_by_count-entry best ((e, n) ∷ m) u =
    later best e n m u (max_by_count-entry (if leb best.1 n then (e, n) else best) m u.1)

-- What a vote must give: no winner if nobody has answered, and otherwise an output with its number
-- of occurrences, which no other output exceeds.
abbrev pub IsWinner : List Data → Option (Data × ℕ) → Type 0
IsWinner vs none = vs ≡ []
IsWinner vs (some (d, n)) = (n ≡ occurrences d vs) × ((o : Data) → occurrences o vs ≤ n)

-- The map of counts counts the occurrences.
counted_in :
    (o : Data) (vs : List Data) (m : Map Data ℕ)
    → m ≡ count_values vs []
    → or_default (lookup o m) 0 ≡ occurrences o vs
unfolding lookup
counted_in o vs m e = rw e (lookup-count_values vs [] o ∙ zero-add (occurrences o vs))

no_votes : (vs : List Data) → [] ≡ count_values vs [] → vs ≡ []
unfolding lookup
no_votes [] e = refl
no_votes (v ∷ vs) e = absurd (omega (arith, counted, seen))
  where
    counted : 0 ≡ occurrences v (v ∷ vs)
    counted = counted_in v (v ∷ vs) [] e

    seen : 1 ≤ occurrences v (v ∷ vs)
    seen = unfold occurrences in ground (arith, bytes_beq_iff v v)

own_count :
    (b : Data) (n : ℕ) (m : Map Data ℕ) (best : Data × ℕ)
    → Distinct (keys ((b, n) ∷ m))
    → ((best ≡ (b, n)) ⊎ (lookup best.0 m ≡ some best.1))
    → best.1 ≡ or_default (lookup best.0 ((b, n) ∷ m)) 0
unfolding lookup
own_count b n m best d h = ground (arith, bytes_beq_iff b best.0, contains-keys m b, d.0)

at_most :
    (vs : List Data) (b : Data) (n : ℕ) (m : Map Data ℕ)
    → (b, n) ∷ m ≡ count_values vs []
    → Distinct (keys ((b, n) ∷ m))
    → (o : Data) → occurrences o vs ≤ (max_by_count (b, n) m).1
unfolding lookup
at_most vs b n m e d o =
    ground (arith, max_by_count-max (b, n) m o d.1, counted_in o vs ((b, n) ∷ m) e)

vote_of_map :
    (vs : List Data) (m : Map Data ℕ)
    → m ≡ count_values vs []
    → Distinct (keys m)
    → IsWinner vs (most_common m)
vote_of_map vs [] e d = unfold most_common in no_votes vs e
vote_of_map vs ((b, n) ∷ m) e d =
    let best = max_by_count (b, n) m in
    unfold most_common in
    (
      own_count b n m best d (max_by_count-entry (b, n) m d.1) ∙ counted_in best.0 vs _ e,
      λ o. at_most vs b n m e d o,
    )

-- The output that level 2 picks is given as often as it is counted, and no output is given more
-- often; there is none only if nobody has answered.
pub most_common-IsWinner : (vs : List Data) → IsWinner vs (most_common (count_values vs []))
most_common-IsWinner vs = vote_of_map vs (count_values vs []) refl (count_values-Distinct vs [] tt)
