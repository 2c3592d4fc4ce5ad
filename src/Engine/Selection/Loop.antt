-- ===== src/Engine/Selection/Loop.antt =====
-- The selection loop picks candidates at distinct indices, and neither fails nor panics while
-- candidates are left.
use native.Mathlib.Nat.{mod-lt}
use uomi_node.Prelude.{
  ℕ, zero, suc, ◌+◌, ◌≤◌, ◌<◌, ◌≡◌, refl, ap, ◌∙◌, ◌⊎◌, inl, inr, true, false, Option, none, some,
  List, [], ◌∷◌, ◌++◌, arith, ok, ltb, Bool-cases, Option-cases,
}
use uomi_node.Prelude.Key.{nat_key}
use uomi_node.Prelude.Lists.{
  length, get_elem?, take, drop, contains, Distinct, length-append, Distinct-push, get_elem?-some,
  contains-get_elem?, get_elem?-injective,
}
use uomi_node.Engine.Selection.{
  find_unused, select, push_found, byte_index, random_index, from_little_endian,
}
use uomi_node.Engine.Selection.Probe.{find_unused-found}

abbrev pub AllBelow : ℕ → List ℕ → Type 0
AllBelow n [] = Unit
AllBelow n (i ∷ is) = (i < n) × AllBelow n is

AllBelow-push : (n i : ℕ) (is : List ℕ) → AllBelow n is → i < n → AllBelow n (is ++ i ∷ [])
AllBelow-push n i [] h p = (p, tt)
AllBelow-push n i (j ∷ is) h p = (h.0, AllBelow-push n i is h.1 p)

abbrev pub found_then : Option ℕ → List ℕ → List ℕ
found_then none vs = vs
found_then (some v) vs = v ∷ vs

-- The candidates at the given indices.
abbrev pub pick : List ℕ → List ℕ → List ℕ
pick potential [] = []
pick potential (i ∷ is) = found_then (get_elem? potential i) (pick potential is)

module _ (potential : List ℕ) where
  pick-push :
      (used : List ℕ) (i : ℕ)
      → pick potential (used ++ i ∷ []) ≡ push_found (pick potential used) (get_elem? potential i)
  pick-push [] i = ground arith
  pick-push (j ∷ used) i = ground (arith, pick-push used i)

  pub length-pick :
      (used : List ℕ)
      → AllBelow (length potential) used
      → length (pick potential used) ≡ length used
  length-pick [] h = refl
  length-pick (i ∷ used) h =
      let (v, e) = get_elem?-some potential i h.0 in rw e (ap suc (length-pick used h.1))

  pub contains-pick :
      (used : List ℕ) (v : ℕ)
      → contains (pick potential used) v ≡ true
      → contains potential v ≡ true
  contains-pick [] v h = cc
  contains-pick (i ∷ used) v h =
      ground (arith, contains-get_elem? potential i v, contains-pick used v)

  -- A candidate is picked only at its own index.
  contains_index :
      (used : List ℕ) (i v : ℕ)
      → Distinct potential
      → get_elem? potential i ≡ some v
      → contains (pick potential used) v ≡ true
      → contains used i ≡ true
  contains_index [] i v d e h = cc
  contains_index (j ∷ used) i v d e h =
      ground (arith, get_elem?-injective potential i j v d e, contains_index used i v d e)

  pub Distinct-pick :
      (used : List ℕ) → Distinct potential → Distinct used → Distinct (pick potential used)
  Distinct-pick [] d u = tt
  Distinct-pick (i ∷ used) d u = elim (Option-cases (get_elem? potential i)) [
    | inl out ↦ rw out (Distinct-pick used d u.1)
    | inr (v, e) ↦
        rw e (new v e (Bool-cases (contains (pick potential used) v)), Distinct-pick used d u.1)
  ]
    where
      new :
          (v : ℕ)
          → get_elem? potential i ≡ some v
          → ((contains (pick potential used) v ≡ true) ⊎ (contains (pick potential used) v ≡ false))
          → contains (pick potential used) v ≡ false
      new v e (inl old) = cc (contains_index used i v d e old, u.0)
      new v e (inr fresh) = fresh

random_index-lt :
    (bytes : List ℕ) (per_selection current count : ℕ)
    → 0 < count
    → random_index bytes per_selection current count < count
unfolding random_index
random_index-lt bytes per_selection current count h =
    omega (arith, mod-lt (from_little_endian (take per_selection (drop current bytes))) h)

module _ (bytes potential : List ℕ) (per_selection : ℕ) (fits : per_selection ≤ length bytes) where
  slice_fits :
      (current : ℕ)
      → ltb (length bytes) (byte_index bytes per_selection current + per_selection) ≡ false
  unfolding byte_index
  slice_fits current = ground arith

  -- A round whose probe finds an index goes on with that index used.
  select-step :
      (rounds current : ℕ) (used selected : List ℕ) (j : ℕ)
      → find_unused (length potential) used (length potential) (
          random_index bytes per_selection
            (byte_index bytes per_selection current)
            (length potential))
        ≡ some j
      → select bytes potential per_selection (suc rounds) current used selected
        ≡ select bytes potential per_selection rounds
            (byte_index bytes per_selection current + per_selection)
            (used ++ j ∷ [])
            (push_found selected (get_elem? potential j))
  select-step rounds current used selected j found = unfold select in rw (slice_fits current, found)

  -- What the loop returns: the candidates at distinct indices, as many as asked for.
  pub select_lem :
      (rounds current : ℕ) (used : List ℕ)
      → rounds + length used ≤ length potential
      → Distinct used
      → AllBelow (length potential) used
      → (all_used : List ℕ) × (select bytes potential per_selection rounds current used
            (pick potential used)
          ≡ ok (pick potential all_used))
        × Distinct all_used
        × AllBelow (length potential) all_used
        × (length all_used ≡ rounds + length used)
  select_lem zero current used room d b = (used, unfold select in refl, d, b, omega arith)
  select_lem (suc rounds) current used room d b =
      let start = byte_index bytes per_selection current in
      let count = length potential in
      let (j, found, fresh, low) =
        find_unused-found used count (random_index bytes per_selection start count)
          (random_index-lt bytes per_selection start count (omega arith)) (omega arith) in
      let (all_used, result, d', b', l) =
        select_lem rounds (start + per_selection) (used ++ j ∷ [])
          (omega (arith, length-append used (j ∷ []))) (Distinct-push used j fresh d)
          (AllBelow-push count j used b low) in
      (
        all_used,
        select-step rounds current used (pick potential used) j found
            ∙ rw (← pick-push potential used j) result,
        d',
        b',
        omega (arith, l, length-append used (j ∷ [])),
      )
