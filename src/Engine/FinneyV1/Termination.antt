-- ===== src/Engine/FinneyV1/Termination.antt =====
-- The search for an index in the old choice of validators always ends.
use native.Mathlib.Nat.{mod-lt}
use uomi_node.Prelude.{
  ℕ, zero, suc, ◌+◌, ◌*◌, ◌%◌, ◌^◌, ◌≤◌, ◌<◌, Bool, some, ◌≡◌, refl, inl, inr, List, [], ◌∷◌, ◌++◌,
  arith, Outcome, ok, err, panic, ◌>>=◌, ltb, Bool-cases,
}
use uomi_node.Prelude.Key.{nat_key}
use uomi_node.Prelude.Lists.{length, get_elem?, take, drop, length-append}
use uomi_node.Prelude.Map.{Map}
use uomi_node.Engine.{AccountId, RequestId, EngineError, not_enough_validators, Chain, Storage}
use uomi_node.Engine.Selection.{potential_validators, push_found}
use uomi_node.Engine.Selection.Probe.{find_unused-found}
use uomi_node.Engine.FinneyV1.{
  from_big_endian, select_finney_v1, enough_selected,
  opoc_assignment_get_random_validators_finney_v1,
}

low_mod : (x n : ℕ) → 0 < n → (x % n) % 2 ^ 64 < n
low_mod x n pos = omega (arith, mod-lt)

select_finney_v1-ends :
    (bytes potential : List ℕ) (rounds i : ℕ) (used selected : List ℕ)
    → length used + rounds ≤ length potential
    → (o : Outcome EngineError (List AccountId)) × (select_finney_v1 bytes potential rounds i used
          selected
        ≡ some o)
unfolding select_finney_v1
select_finney_v1-ends bytes potential zero i used selected room = (ok selected, refl)
select_finney_v1-ends bytes potential (suc rounds) i used selected room =
    elim (Bool-cases (ltb (length bytes) ((i + 1) * 4))) [
      | inl short ↦ (panic, rw short refl)
      | inr long ↦
          let n = length potential in
          let pos : 0 < n = omega (arith) in
          let start = (from_big_endian 0 (take 4 (drop (i * 4) bytes)) % n) % 2 ^ 64 in
          let (index, found, fresh, low) =
            find_unused-found used n start (low_mod _ n pos) (omega (arith)) in
          let (o, e) =
            select_finney_v1-ends bytes potential rounds (i + 1) (used ++ index ∷ [])
              (push_found selected (get_elem? potential index))
              (omega (arith, length-append used (index ∷ []))) in
          (o, rw long (rw found e))
    ]

-- The old choice of validators returns, with a list, an error or a panic: its inner loop, which has
-- no bound of its own, always meets an index that is not used.
pub random_validators_finney_v1-returns :
    (c : Chain) (s : Storage) (works : Map AccountId (Map RequestId Bool)) (number : ℕ)
    (first_free : Bool) (exclude : List AccountId)
    → (o : Outcome EngineError (List AccountId)) × (opoc_assignment_get_random_validators_finney_v1
          c s works number first_free exclude
        ≡ some o)
unfolding opoc_assignment_get_random_validators_finney_v1
random_validators_finney_v1-returns c s works number first_free exclude =
    let n = number % 2 ^ 64 in
    let potential = potential_validators c s works n first_free exclude in
    elim (Bool-cases (ltb (length potential) n)) [
      | inl few ↦ (err not_enough_validators, rw few refl)
      | inr enough ↦
          let (o, e) = select_finney_v1-ends c.random_seed potential n 0 [] [] (ground (arith)) in
          (o >>= enough_selected n, rw enough (rw e refl))
    ]
