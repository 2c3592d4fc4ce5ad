-- ===== src/Engine/Outputs.antt =====
-- pallets/uomi-engine/src/opoc.rs: what the validators of a request have answered.
pub mod Partition
use uomi_node.Prelude.{ℕ, Bool, List, [], ◌∷◌, ◌++◌, ltb, if◌then◌else◌}
use uomi_node.Prelude.Key.{nat_key, pair_key}
use uomi_node.Prelude.Lists.{contains}
use uomi_node.Prelude.Map.{Map, lookup, insert, keys, iter_prefix, or_default}
use uomi_node.Engine.{AccountId, RequestId, BlockNumber, Data, Storage}

pub record Collected : Type 0 where
  pub outputs : Map AccountId Data
  pub validators_not_completed : List AccountId
  pub validators_in_timeout : List AccountId

abbrev pub nothing_collected : Collected
nothing_collected = record {
  outputs = [];
  validators_not_completed = [];
  validators_in_timeout = [];
}

-- The body of the loop, for one assignment.
unfoldable pub collect_one :
    Storage → RequestId → BlockNumber → AccountId → BlockNumber → Collected → Collected
collect_one s request_id current_block validator expiration acc =
    let is_validator_output = contains (keys (iter_prefix request_id s.nodes_outputs)) validator in
    if is_validator_output
    then record acc {
      outputs =
          insert validator (or_default (lookup (request_id, validator) s.nodes_outputs) [])
            acc.outputs;
    }
    else if ltb expiration current_block
    then record acc { validators_in_timeout = acc.validators_in_timeout ++ validator ∷ [] }
    else record acc { validators_not_completed = acc.validators_not_completed ++ validator ∷ [] }

unfoldable pub collect :
    Storage → RequestId → BlockNumber → Map AccountId BlockNumber → Collected → Collected
collect s request_id current_block [] acc = acc
collect s request_id current_block ((v, expiration) ∷ rest) acc =
    collect s request_id current_block rest
      (collect_one s request_id current_block v expiration acc)

unfoldable pub opoc_get_outputs : Storage → RequestId → BlockNumber → Collected
opoc_get_outputs s request_id current_block =
    collect s request_id current_block (iter_prefix request_id s.opoc_assignment) nothing_collected
