-- ===== src/Tss/Numbers.antt =====
-- pallets/tss/src/lib.rs: the ids of the validators.
pub mod Matching
use uomi_node.Prelude.{
  ℕ, ◌+◌, ◌%◌, ◌^◌, Option, none, some, List, [], ◌∷◌, ◌++◌, Outcome, ok, ◌>>=◌, ◌>>◌, assert, leb,
  ltb, ◌==◌, if◌then◌else◌,
}
use uomi_node.Prelude.Key.{nat_key}
use uomi_node.Prelude.Lists.{length}
use uomi_node.Prelude.Map.{lookup, put, contains_key}
use uomi_node.Tss.{
  AccountId, Storage, Origin, TssError, validator_id_assigned, max_number_of_shares,
  temp_block_for_new_opoc, ensure_none,
}

-- The validator gets the id `next`, whichever it had.
unfoldable pub register : AccountId → ℕ → Storage → Storage
register validator next s = record s {
  validator_ids = put validator next s.validator_ids;
  id_to_validator = put next validator s.id_to_validator;
  events = s.events ++ validator_id_assigned validator next ∷ [];
}

-- The call never fails, so that the `?` of its caller has nothing to do.
unfoldable pub assign_validator_id : AccountId → Storage → Storage
assign_validator_id validator s =
    if contains_key s.validator_ids validator
    then s
    else record (register validator s.next_validator_id s) {
      next_validator_id = (s.next_validator_id + 1) % 2 ^ 32;
    }

unfoldable pub assign_validator_ids : List AccountId → Storage → Storage
assign_validator_ids [] s = s
assign_validator_ids (v ∷ vs) s = assign_validator_ids vs (assign_validator_id v s)

-- A list that does not fit the bounded vector makes `unwrap` panic.
unfoldable pub update_validators : Origin → List AccountId → Storage → Outcome TssError Storage
update_validators origin new_validators s = do
  ensure_none origin
  assert (leb (length new_validators) max_number_of_shares)
  ok (record (assign_validator_ids new_validators s) { active_validators = new_validators })

-- The loop of `initialize_validator_ids`, with the local `next_id`
unfoldable pub number_validators : List AccountId → ℕ → Storage → ℕ × Storage
number_validators [] next_id s = (next_id, s)
number_validators (v ∷ vs) next_id s =
    if contains_key s.validator_ids v
    then number_validators vs next_id s
    else number_validators vs ((next_id + 1) % 2 ^ 32) (register v next_id s)

-- `validators` is what `pallet_staking::Validators` lists.
unfoldable pub initialize_validator_ids : List AccountId → Storage → Storage
initialize_validator_ids validators s =
    let (next_id, s') = number_validators validators 1 s in
    record s' { next_validator_id = next_id }

unfoldable pub on_initialize : ℕ → Storage → Storage
on_initialize current_block_number s =
    if leb temp_block_for_new_opoc current_block_number
    then if s.next_validator_id == 0 then record s { next_validator_id = 1 } else s
    else s

unfoldable pub get_validator_id : AccountId → Storage → Option ℕ
get_validator_id validator s = lookup validator s.validator_ids

unfoldable pub get_validator_from_id : ℕ → Storage → Option AccountId
get_validator_from_id id s = lookup id s.id_to_validator
