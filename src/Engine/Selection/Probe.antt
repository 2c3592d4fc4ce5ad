-- ===== src/Engine/Selection/Probe.antt =====
-- The probing loop of the selection ends at an unused index, by the pigeonhole principle.
use uomi_node.Prelude.{
  ℕ, zero, suc, ◌+◌, ◌-◌, ◌%◌, ◌≤◌, ◌<◌, ◌≡◌, ap, ◌∙◌, inl, inr, true, false, none, some, List, [],
  ◌∷◌, arith, ◌==◌, if◌then◌else◌, Option-cases, dec_lt,
}
use uomi_node.Prelude.Key.{nat_key}
use uomi_node.Prelude.Lists.{length, contains}
use native.Mathlib.Nat.{mod-eq_of_lt, mod-add-mod}
use uomi_node.Engine.Selection.{find_unused}

-- All copies of a number taken out.
without : ℕ → List ℕ → List ℕ
without n [] = []
without n (x ∷ xs) = if x == n then without n xs else x ∷ without n xs

length-without-le : (n : ℕ) (xs : List ℕ) → length (without n xs) ≤ length xs
unfolding without
length-without-le n [] = omega arith
length-without-le n (x ∷ xs) = ground (arith, length-without-le n xs)

length-without-lt : (n : ℕ) (xs : List ℕ) → contains xs n ≡ true → length (without n xs) < length xs
unfolding without
length-without-lt n [] h = cc
length-without-lt n (x ∷ xs) h = ground (arith, length-without-le n xs, length-without-lt n xs)

contains-without :
    (n j : ℕ) (xs : List ℕ) → j < n → contains xs j ≡ true → contains (without n xs) j ≡ true
unfolding without
contains-without n j [] h e = cc
contains-without n j (x ∷ xs) h e = ground (arith, contains-without n j xs h)

-- A list that holds every number below `n` has at least `n` entries.
pigeonhole : (n : ℕ) (xs : List ℕ) → ((j : ℕ) → j < n → contains xs j ≡ true) → n ≤ length xs
pigeonhole zero xs h = omega arith
pigeonhole (suc n) xs h = omega (
  arith,
  length-without-lt n xs (h n (omega arith)),
  pigeonhole n (without n xs) (λ j p. contains-without n j xs p (h j (omega arith))),
)

step_mod : (i d n : ℕ) → ((i + 1) % n + d) % n ≡ (i + suc d) % n
step_mod i d n = mod-add-mod (i + 1) n d ∙ ap (λ (t : ℕ). t % n) (omega arith)

-- The probe that fails has met only used indices.
find_unused-none :
    (left : ℕ) (used : List ℕ) (n i d : ℕ)
    → i < n
    → find_unused left used n i ≡ none
    → d < left
    → contains used ((i + d) % n) ≡ true
unfolding find_unused
find_unused-none zero used n i d h e l = absurd (omega arith)
find_unused-none (suc left) used n i zero h e l =
    let p : (i + 0) % n ≡ i = grind arith in rw p (ground arith)
find_unused-none (suc left) used n i (suc d) h e l =
    rw (← step_mod i d n)
      (find_unused-none left used n ((i + 1) % n) d (omega arith) (ground arith) (omega arith))

find_unused_sound :
    (left : ℕ) (used : List ℕ) (n i : ℕ) {j : ℕ}
    → i < n
    → find_unused left used n i ≡ some j
    → (contains used j ≡ false) × (j < n)
unfolding find_unused
find_unused_sound zero used n i h e = cc
find_unused_sound (suc left) used n i {j} h e =
    ground (arith, find_unused_sound left used n ((i + 1) % n) {j = j})

reach_direct : (i j n : ℕ) → j < n → ¬ (j < i) → (i + (j - i)) % n ≡ j
reach_direct i j n q above = let e : i + (j - i) ≡ j = omega arith in rw e (mod-eq_of_lt q)

reach_wrapped : (i j n : ℕ) → i < n → j < i → (i + (j + n - i)) % n ≡ j
reach_wrapped i j n p below = let e : i + (j + n - i) ≡ j + n = omega arith in rw e (grind arith)

-- Every index is met on the way round.
reach : (i j n : ℕ) → i < n → j < n → (d : ℕ) × (d < n) × ((i + d) % n ≡ j)
reach i j n p q = elim (dec_lt j i) [
  | yes below ↦ (j + n - i, omega arith, reach_wrapped i j n p below)
  | no above ↦ (j - i, omega arith, reach_direct i j n q above)
]

-- With a free index below `n` the probe finds one, within `n` attempts.
pub find_unused-found :
    (used : List ℕ) (n i : ℕ)
    → i < n
    → length used < n
    → (j : ℕ) × (find_unused n used n i ≡ some j) × (contains used j ≡ false) × (j < n)
find_unused-found used n i h free = elim (Option-cases (find_unused n used n i)) [
  | inl stuck ↦ absurd (omega (arith, pigeonhole n used (all_used stuck)))
  | inr (j, found) ↦
      let (fresh, low) = find_unused_sound n used n i h found in (j, found, fresh, low)
]
  where
    all_used : find_unused n used n i ≡ none → (j : ℕ) → j < n → contains used j ≡ true
    all_used stuck j p =
        let (d, q, e) = reach i j n h p in rw (← e) (find_unused-none n used n i d h stuck q)
