-- ===== src/Engine/Models.antt =====
-- pallets/uomi-engine/src/aimodelscalc.rs: the names of the AI models follow the version that most
-- nodes run.
pub mod Names
pub mod Election
pub mod Update
use uomi_node.Prelude.{
  ℕ, ◌+◌, ◌%◌, ◌^◌, Bool, Option, none, some, List, [], ◌∷◌, Outcome, ok, err, ◌>>=◌, ltb,
  if◌then◌else◌,
}
use uomi_node.Prelude.Key.{nat_key, bytes_key, ◌=?◌}
use uomi_node.Prelude.Map.{Map, lookup, insert, put, values, or_default}
use uomi_node.Engine.{BlockNumber, Data, EngineError, no_local_names, Storage, add_u256}
use Names.{aimodelscalc_get_local_names_per_versions}

-- `PALLET_VERSION`
abbrev pub pallet_version : ℕ
pallet_version = 6

-- `MAX_BLOCKS_TO_WAIT_NODE_UPDATE`
abbrev pub max_blocks_to_wait_node_update : ℕ
max_blocks_to_wait_node_update = 100

-- The local name, the one before it, and the block from which the model is available.
abbrev pub Model : Type 0
Model = Data × Data × BlockNumber

-- `*counters.entry(v).or_insert(0) += 1` over all nodes
unfoldable pub count_versions : List ℕ → Map ℕ ℕ → Map ℕ ℕ
count_versions [] counters = counters
count_versions (v ∷ vs) counters =
    count_versions vs (insert v ((or_default (lookup v counters) 0 + 1) % 2 ^ 32) counters)

-- The loop over the counters, with the locals `max` and `version`
unfoldable pub max_version : ℕ → ℕ → Map ℕ ℕ → ℕ
max_version max version [] = version
max_version max version ((v, c) ∷ rest) =
    max_version (if ltb max c then c else max) (if ltb max c then v else version) rest

-- The early return on an empty map gives the version that the loop starts from.
unfoldable pub aimodelscalc_get_most_used_version : Storage → ℕ
aimodelscalc_get_most_used_version s = elim s.nodes_versions [
  | [] ↦ pallet_version
  | node ∷ rest ↦ max_version 0 pallet_version (count_versions (values (node ∷ rest)) [])
]

-- `AIModels::get`
unfoldable pub model : ℕ → Storage → Model
model key s = or_default (lookup key s.ai_models) ([], [], 0)

-- The loop over the names of the version.
unfoldable pub model_operations :
    Storage → BlockNumber → Map ℕ Data → Map ℕ Model → Outcome EngineError (Map ℕ Model)
model_operations s current_block [] operations = ok operations
model_operations s current_block ((key, local_name) ∷ rest) operations =
    let (current_local_name, previous, available_from) = model key s in
    let skipped = model_operations s current_block rest operations in
    if current_local_name =? local_name
    then skipped
    else if ltb current_block available_from
    then skipped
    else do
      available ← add_u256 current_block max_blocks_to_wait_node_update
      model_operations s current_block rest
          (insert key (local_name, current_local_name, available) operations)

-- `if let None = … { return Err(…) }`
abbrev pub names_or_error : Option (Map ℕ Data) → Outcome EngineError (Map ℕ Data)
names_or_error none = err no_local_names
names_or_error (some names) = ok names

unfoldable pub aimodelscalc_run : Storage → BlockNumber → Outcome EngineError (Map ℕ Model)
aimodelscalc_run s current_block = do
  names ←
      names_or_error
        (lookup (aimodelscalc_get_most_used_version s) aimodelscalc_get_local_names_per_versions)
  model_operations s current_block names []

unfoldable pub aimodelscalc_store_operations : Map ℕ Model → Storage → Storage
aimodelscalc_store_operations [] s = s
aimodelscalc_store_operations ((key, m) ∷ rest) s =
    aimodelscalc_store_operations rest (record s { ai_models = put key m s.ai_models })
