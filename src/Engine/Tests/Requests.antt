-- ===== src/Engine/Tests/Requests.antt =====
-- Requests, models and the inherent of the engine at small storages.
use uomi_node.Prelude.{ℕ, ◌≤◌, true, none, some, ◌≡◌, refl, List, [], ◌∷◌, arith, Outcome}
use uomi_node.Prelude.Key.{nat_key}
use uomi_node.Prelude.Lists.{occurrences}
use uomi_node.Prelude.Map.{lookup, insert, put, values}
use uomi_node.Engine.{
  Storage, EngineError, empty_storage, no_operations, add_u256, request_accepted,
}
use uomi_node.Engine.Tests.{chain}
use uomi_node.Engine.FinneyV1.{opoc_assignment_get_random_validators_finney_v1}
use uomi_node.Engine.FinneyV1.Termination.{random_validators_finney_v1-returns}
use uomi_node.Engine.Inherent.{create_inherent}
use uomi_node.Engine.Inherent.Block.{IsBlock, create_inherent-IsBlock}
use uomi_node.Engine.Models.{
  aimodelscalc_get_most_used_version, aimodelscalc_run, model_operations, model, count_versions,
  max_version, aimodelscalc_store_operations,
}
use uomi_node.Engine.Models.Names.{qwen2_5, aimodelscalc_get_local_names_per_versions}
use uomi_node.Engine.Models.Election.{most_used_version_most}
use uomi_node.Engine.Models.Update.{IsUpdated, aimodelscalc_run_updates}
use uomi_node.Engine.Requests.{
  run_request, accept_request, assign_old, pin_input_file, check_nft_file,
}
use uomi_node.Engine.Requests.Accepted.{IsAccepted}
use uomi_node.Engine.Requests.Whole.{run_request-IsAccepted}
use uomi_node.Engine.Requests.Pallet.{ipfs_pallet}
use uomi_node.Engine.Run.{opoc_run, run_inputs}
use uomi_node.Ipfs

-- Two of three nodes run version 2.
abbrev nodes : Storage
nodes = record empty_storage { nodes_versions = (11, 2) ∷ (12, 6) ∷ (13, 2) ∷ [] }

-- Agent 7 is pinned to the CID 9, which is usable from block 5.
abbrev pub pins : Ipfs.Storage
pins = record {
  nodes_pins = [];
  inherent_did_update = none;
  agents_pins = (7, 9 ∷ []) ∷ [];
  cids_status = (9 ∷ [], (0, 5)) ∷ [];
  events = [];
  validators = [];
  block_number = 2000000;
}

abbrev pub asked : Storage
asked = record empty_storage {
  inputs =
      (
        48,
        record {
          block_number = 2000000;
          nft_id = 7;
          nft_required_consensus = 3;
          nft_execution_max_time = 10;
          nft_file_cid = 9 ∷ [];
          input_data = 1 ∷ [];
          input_file_cid = [];
        },
      )
      ∷ [];
  events = request_accepted 48 1 7 ∷ [];
}

run_request-IsAccepted_example : IsAccepted ipfs_pallet chain 48 7 3 empty_storage pins asked pins
unfolding run_request accept_request assign_old pin_input_file check_nft_file Ipfs.get_agent_cid
    Ipfs.get_cid_status add_u256 lookup put
run_request-IsAccepted_example =
    run_request-IsAccepted ipfs_pallet chain 48 1 7 (1 ∷ []) [] 3 10 empty_storage pins asked pins
      refl

random_validators_finney_v1-returns_example :
    (o : Outcome EngineError (List ℕ)) × (opoc_assignment_get_random_validators_finney_v1
        (record chain { random_seed = 0 ∷ 0 ∷ 0 ∷ 6 ∷ 0 ∷ 0 ∷ 0 ∷ 2 ∷ [] })
        empty_storage
        []
        2
        true
        []
      ≡ some o)
random_validators_finney_v1-returns_example =
    random_validators_finney_v1-returns
      (record chain { random_seed = 0 ∷ 0 ∷ 0 ∷ 6 ∷ 0 ∷ 0 ∷ 0 ∷ 2 ∷ [] }) empty_storage [] 2 true []

most_used_version_most_example :
    occurrences 6 (values nodes.nodes_versions)
    ≤ occurrences (aimodelscalc_get_most_used_version nodes) (values nodes.nodes_versions)
most_used_version_most_example = most_used_version_most nodes 6 (omega arith)

aimodelscalc_run_updates_example :
    IsUpdated 1 2000000 nodes
      (some qwen2_5)
      (model 1 (aimodelscalc_store_operations ((1, (qwen2_5, [], 2000100)) ∷ []) nodes))
unfolding aimodelscalc_run aimodelscalc_get_most_used_version count_versions max_version
    model_operations model lookup aimodelscalc_get_local_names_per_versions add_u256 insert
aimodelscalc_run_updates_example =
    aimodelscalc_run_updates nodes 2000000 ((1, (qwen2_5, [], 2000100)) ∷ []) ((1, qwen2_5) ∷ []) 1
      refl refl

create_inherent-IsBlock_example :
    (t : Storage) × IsBlock chain (no_operations, (1, (qwen2_5, [], 2000100)) ∷ []) nodes t
unfolding create_inherent opoc_run run_inputs aimodelscalc_run aimodelscalc_get_most_used_version
    count_versions max_version model_operations model lookup
    aimodelscalc_get_local_names_per_versions add_u256 insert
create_inherent-IsBlock_example =
    create_inherent-IsBlock chain nodes (no_operations, (1, (qwen2_5, [], 2000100)) ∷ []) refl refl
