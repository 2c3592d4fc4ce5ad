-- ===== src/Engine/FinneyV1.antt =====
-- pallets/uomi-engine/src/opoc.rs: the assignment as the first blocks of the finney chain did it.
pub mod Termination
use uomi_node.Prelude.{
  ℕ, zero, suc, ◌+◌, ◌*◌, ◌%◌, ◌^◌, Bool, Option, none, some, List, [], ◌∷◌, ◌++◌, Outcome, ok, err,
  panic, ◌>>=◌, ltb, if◌then◌else◌,
}
use uomi_node.Prelude.Key.{nat_key}
use uomi_node.Prelude.Lists.{length, get_elem?, take, drop}
use uomi_node.Prelude.Map.{Map}
use uomi_node.Engine.{
  AccountId, RequestId, BlockNumber, EngineError, not_enough_validators, too_few_selected, Chain,
  Storage, Operations,
}
use uomi_node.Engine.Selection.{potential_validators, find_unused, push_found}
use uomi_node.Engine.Assignment.{assign_validators}

-- `U256::from_big_endian`: the digits so far, then the rest.
unfoldable pub from_big_endian : ℕ → List ℕ → ℕ
from_big_endian n [] = n
from_big_endian n (b ∷ bs) = from_big_endian (256 * n + b) bs

-- The loop over the rounds from `i` on. The inner `while` has no bound of its own: `none` stands for
-- one that has met every index and goes on.
unfoldable pub select_finney_v1 :
    List ℕ
    → List AccountId
    → ℕ
    → ℕ
    → List ℕ
    → List AccountId
    → Option (Outcome EngineError (List AccountId))
select_finney_v1 bytes potential zero i used selected = some (ok selected)
select_finney_v1 bytes potential (suc rounds) i used selected =
    let count = length potential in
    let random_value = from_big_endian 0 (take 4 (drop (i * 4) bytes)) in
    let rest = λ (index : ℕ).
      select_finney_v1 bytes potential rounds (i + 1) (used ++ index ∷ [])
        (push_found selected (get_elem? potential index)) in
    if ltb (length bytes) ((i + 1) * 4)
    then some panic
    else elim (find_unused count used count ((random_value % count) % 2 ^ 64)) [
      | none ↦ none
      | some index ↦ rest index
    ]

-- The test on the number of the selected validators
abbrev pub enough_selected : ℕ → List AccountId → Outcome EngineError (List AccountId)
enough_selected number selected =
    if ltb (length selected) number then err too_few_selected else ok selected

-- Of a step that may not end.
abbrev pub and_then {ℓ κ} :
    {A : Type ℓ} {B : Type κ}
    → Option (Outcome EngineError A)
    → (A → Outcome EngineError B)
    → Option (Outcome EngineError B)
and_then none f = none
and_then (some m) f = some (m >>= f)

unfoldable pub opoc_assignment_get_random_validators_finney_v1 :
    Chain
    → Storage
    → Map AccountId (Map RequestId Bool)
    → ℕ
    → Bool
    → List AccountId
    → Option (Outcome EngineError (List AccountId))
opoc_assignment_get_random_validators_finney_v1 c s works number first_free exclude =
    let number_usize = number % 2 ^ 64 in
    let potential = potential_validators c s works number_usize first_free exclude in
    if ltb (length potential) number_usize
    then some (err not_enough_validators)
    else and_then (select_finney_v1 c.random_seed potential number_usize 0 [] [])
        (enough_selected number_usize)

unfoldable pub opoc_assignment_finney_v1 :
    Chain
    → Storage
    → RequestId
    → BlockNumber
    → ℕ
    → List AccountId
    → Bool
    → Operations
    → Option (Outcome EngineError Operations)
opoc_assignment_finney_v1 c s request_id current_block amount exclude first_free ops =
    and_then
      (opoc_assignment_get_random_validators_finney_v1 c s ops.nodes_works_operations amount
        first_free exclude)
      (λ random_validators. assign_validators s request_id current_block random_validators ops)
