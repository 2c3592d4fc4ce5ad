-- ===== src/Engine/Selection.antt =====
-- pallets/uomi-engine/src/opoc.rs: the choice of random validators for a request.
pub mod Probe
pub mod Loop
pub mod Choice
use uomi_node.Prelude.{
  ℕ, zero, suc, ◌+◌, ◌*◌, ◌/◌, ◌%◌, ◌^◌, min, Bool, true, false, not, Option, none, some, List, [],
  ◌∷◌, ◌++◌, Outcome, ok, err, panic, ◌>>=◌, ltb, leb, ◌==◌, if◌then◌else◌,
}
use uomi_node.Prelude.Key.{nat_key}
use uomi_node.Prelude.Lists.{length, get_elem?, take, drop, filter, contains}
use uomi_node.Prelude.Map.{Map, lookup, values, iter_prefix}
use uomi_node.Engine.{
  AccountId, RequestId, EngineError, not_enough_validators, no_unique_index, too_few_selected,
  Storage, Chain,
}

-- The validators of pallet_staking that are in the current session.
unfoldable pub get_active_validators : Chain → List AccountId
get_active_validators c = filter (λ a. contains c.session_validators a) c.validators

-- The operations of a validator, or none.
abbrev pub works_or_empty : Option (Map RequestId Bool) → Map RequestId Bool
works_or_empty none = []
works_or_empty (some works) = works

unfoldable pub opoc_nodes_works_operations_count :
    Storage → Map AccountId (Map RequestId Bool) → AccountId → ℕ
opoc_nodes_works_operations_count s works validator =
    let works_count_storage = length (iter_prefix validator s.nodes_works) % 2 ^ 32 in
    let assigned = filter (λ w. w) (values (works_or_empty (lookup validator works))) in
    (works_count_storage + length assigned % 2 ^ 32) % 2 ^ 32

-- `U256::from_little_endian`
unfoldable pub from_little_endian : List ℕ → ℕ
from_little_endian [] = 0
from_little_endian (b ∷ bs) = b + 256 * from_little_endian bs

-- `while used_indices.contains(&index)`: the first argument is `validator_count - attempts`, and
-- `none` is the error of the last attempt.
unfoldable pub find_unused : ℕ → List ℕ → ℕ → ℕ → Option ℕ
find_unused zero used count index = none
find_unused (suc left) used count index =
    let next = find_unused left used count ((index + 1) % count) in
    if contains used index then next else some index

-- `if let Some(validator) = … { selected_validators.push(validator.clone()) }`
abbrev pub push_found : List AccountId → Option AccountId → List AccountId
push_found selected none = selected
push_found selected (some validator) = selected ++ validator ∷ []

-- Where the next random bytes start: at 0 again when they run out.
unfoldable pub byte_index : List ℕ → ℕ → ℕ → ℕ
byte_index bytes per_selection current =
    if ltb (length bytes) (current + per_selection) then 0 else current

-- `(random_value % validator_count).low_u64() as usize`
unfoldable pub random_index : List ℕ → ℕ → ℕ → ℕ → ℕ
unfolding from_little_endian
random_index bytes per_selection current count =
    (from_little_endian (take per_selection (drop current bytes)) % count) % 2 ^ 64

-- The selection loop: the rounds left, the byte index, the used indices, the selected validators.
-- A slice that ends behind the last byte panics.
unfoldable pub select :
    List ℕ
    → List AccountId
    → ℕ
    → ℕ
    → ℕ
    → List ℕ
    → List AccountId
    → Outcome EngineError (List AccountId)
select bytes potential per_selection zero current used selected = ok selected
select bytes potential per_selection (suc rounds) current used selected =
    let count = length potential in
    let start = byte_index bytes per_selection current in
    let rest = λ (index : ℕ).
      select bytes potential per_selection rounds (start + per_selection) (used ++ index ∷ [])
        (push_found selected (get_elem? potential index)) in
    if ltb (length bytes) (start + per_selection)
    then panic
    else elim (find_unused count used count (random_index bytes per_selection start count)) [
      | none ↦ err no_unique_index
      | some index ↦ rest index
    ]

-- The validators to choose from.
unfoldable pub potential_validators :
    Chain
    → Storage
    → Map AccountId (Map RequestId Bool)
    → ℕ
    → Bool
    → List AccountId
    → List AccountId
potential_validators c s works number first_free exclude =
    let validators = filter (λ a. not (contains exclude a)) (get_active_validators c) in
    let free = filter (λ a. opoc_nodes_works_operations_count s works a == 0) validators in
    if first_free then (if leb number (length free) then free else validators) else validators

-- The encoded random seed: the old source below block 720000.
abbrev pub random_bytes : Chain → List ℕ
random_bytes c = if ltb c.current_block_number 720000 then c.random_seed_old else c.random_seed

-- The division by `number_usize` panics at 0.
unfoldable pub opoc_assignment_get_random_validators :
    Chain
    → Storage
    → Map AccountId (Map RequestId Bool)
    → ℕ
    → Bool
    → List AccountId
    → Outcome EngineError (List AccountId)
opoc_assignment_get_random_validators c s works number first_free exclude =
    let number_usize = number % 2 ^ 64 in
    let potential = potential_validators c s works number_usize first_free exclude in
    let bytes = random_bytes c in
    if ltb (length potential) number_usize
    then err not_enough_validators
    else if number_usize == 0
    then panic
    else do
      selected ← select bytes potential (min 4 (length bytes / number_usize)) number_usize 0 [] []
      if ltb (length selected) number_usize then err too_few_selected else ok selected
