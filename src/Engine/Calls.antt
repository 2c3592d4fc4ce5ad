-- ===== src/Engine/Calls.antt =====
-- pallets/uomi-engine/src/lib.rs: the calls with which validators leave answers, versions and proofs.
pub mod Answers
use uomi_node.Prelude.{
  ℕ, Bool, true, false, not, ◌&&◌, Option, none, some, List, [], ◌∷◌, ◌++◌, Outcome, ok, err, ◌>>=◌,
  ◌>>◌, ensure, assert, ◌==◌,
}
use uomi_node.Prelude.Key.{nat_key, pair_key}
use uomi_node.Prelude.Lists.{contains}
use uomi_node.Prelude.Map.{lookup, put, contains_key, is_some, or_default}
use uomi_node.Engine.{
  AccountId, RequestId, Data, Chain, Storage, Operations, EngineError, only_validators,
  request_id_exists, version_already_stored, inference_already_exists, bad_origin,
  node_output_received, node_version_received, node_opoc_l0_inference_received,
}
use uomi_node.Engine.Store.{opoc_store_operations}

pub data Origin : Type 0 where
  root unsigned : Origin
  signed : AccountId → Origin

abbrev pub ensure_none : Origin → Outcome EngineError (Unit {0})
ensure_none unsigned = ok tt
ensure_none root = err bad_origin
ensure_none (signed who) = err bad_origin

unfoldable pub address_is_active_validator : Chain → AccountId → Bool
address_is_active_validator c account_id = contains c.session_validators account_id

-- `public` is the account of the key in the payload.
unfoldable pub store_nodes_outputs :
    Chain → Origin → RequestId → Data → AccountId → Storage → Outcome EngineError Storage
store_nodes_outputs c origin request_id output_data public s = do
  ensure_none origin
  ensure (address_is_active_validator c public) only_validators
  ensure (not (contains_key s.nodes_outputs (request_id, public))) request_id_exists
  ok (record s {
    nodes_outputs = put (request_id, public) output_data s.nodes_outputs;
    events = s.events ++ node_output_received request_id public output_data ∷ [];
  })

unfoldable pub store_nodes_versions :
    Chain → Origin → AccountId → ℕ → Storage → Outcome EngineError Storage
store_nodes_versions c origin public version s = do
  ensure_none origin
  ensure (address_is_active_validator c public) only_validators
  ensure (not (or_default (lookup public s.nodes_versions) 0 == version)) version_already_stored
  ok (record s {
    nodes_versions = put public version s.nodes_versions;
    events = s.events ++ node_version_received public version ∷ [];
  })

-- The entry of the validator, if there is one, has the index.
abbrev pub has_index : Option (ℕ × Data) → ℕ → Bool
has_index none index = false
has_index (some (stored, proof)) index = stored == index

unfoldable pub store_nodes_opoc_l0_inferences :
    Chain → Origin → AccountId → RequestId → ℕ → Data → Storage → Outcome EngineError Storage
store_nodes_opoc_l0_inferences c origin public request_id inference_index inference_proof s = do
  ensure_none origin
  ensure (address_is_active_validator c public) only_validators
  ensure (not (has_index (lookup (request_id, public) s.nodes_opoc_l0_inferences) inference_index))
      inference_already_exists
  ok (record s {
    nodes_opoc_l0_inferences =
        put (request_id, public) (inference_index, inference_proof) s.nodes_opoc_l0_inferences;
    events =
        s.events
        ++ node_opoc_l0_inference_received request_id public inference_index inference_proof ∷ [];
  })

-- Neither of the two changes anything.
unfoldable pub temporary_cleanup_inputs : Origin → Storage → Outcome EngineError Storage
temporary_cleanup_inputs (signed who) s = ok s
temporary_cleanup_inputs root s = err bad_origin
temporary_cleanup_inputs unsigned s = err bad_origin

unfoldable pub temporary_function : Origin → Storage → Outcome EngineError Storage
temporary_function origin s = do ensure_none origin; ok s

-- `take` reads the flag and removes it.
unfoldable pub on_finalize : Storage → Outcome EngineError Storage
on_finalize s = do
  assert (or_default s.inherent_did_update false)
  ok (record s { inherent_did_update = none })
