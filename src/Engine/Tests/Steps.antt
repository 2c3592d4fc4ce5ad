-- ===== src/Engine/Tests/Steps.antt =====
-- A request and what follows it, step by step.
use uomi_node.Prelude.{refl, [], ◌∷◌}
use uomi_node.Prelude.Map.{put, lookup}
use uomi_node.Prelude.Key.{nat_key, pair_key}
use uomi_node.Engine.{Storage, empty_storage, add_u256, node_output_received, request_accepted}
use uomi_node.Engine.Calls.{unsigned, store_nodes_outputs, address_is_active_validator}
use uomi_node.Engine.Requests.{
  run_request, accept_request, assign_old, pin_input_file, check_nft_file,
}
use uomi_node.Engine.Requests.Pallet.{ipfs_pallet}
use uomi_node.Engine.Steps.{Step, requested, answered, here, next}
use uomi_node.Engine.Steps.Pending.{
  AssignedPending, Steps-AssignedPending, Known, run_request-Known,
}
use uomi_node.Engine.Tests.{chain}
use uomi_node.Engine.Tests.Requests.{pins, asked}
use uomi_node.Ipfs

-- Validator 1 answers the request 48.
abbrev heard : Storage
heard = record asked {
  nodes_outputs = ((48, 1), 2 ∷ []) ∷ [];
  events = request_accepted 48 1 7 ∷ node_output_received 48 1 (2 ∷ []) ∷ [];
}

abbrev asking : Step ipfs_pallet empty_storage asked
unfolding run_request accept_request assign_old pin_input_file check_nft_file Ipfs.get_agent_cid
    Ipfs.get_cid_status add_u256 lookup put
asking = requested chain 48 1 7 (1 ∷ []) [] 3 10 empty_storage pins asked pins refl

abbrev hearing : Step ipfs_pallet asked heard
unfolding store_nodes_outputs address_is_active_validator lookup put
hearing =
    answered (record chain { session_validators = 1 ∷ [] }) unsigned 48 (2 ∷ []) 1 asked heard refl

Steps-AssignedPending_example : AssignedPending heard
Steps-AssignedPending_example = Steps-AssignedPending ipfs_pallet heard (
    next empty_storage asked heard
      (next empty_storage empty_storage asked (here empty_storage) asking) hearing)

run_request-Known_example : Known 48 heard
unfolding run_request accept_request assign_old pin_input_file check_nft_file Ipfs.get_agent_cid
    Ipfs.get_cid_status add_u256 lookup put
run_request-Known_example =
    run_request-Known ipfs_pallet chain 48 1 7 (1 ∷ []) [] 3 10 empty_storage pins asked pins heard
      refl (next asked asked heard (here asked) hearing)
