-- ===== src/Engine/Run/Level1.antt =====
-- pallets/uomi-engine/src/opoc.rs: the branch of `opoc_run` for a request whose assignments are as
-- many as its required consensus.
pub mod Agreement
use uomi_node.Prelude.{
  ◌%◌, ◌^◌, false, not, List, [], ◌∷◌, ◌++◌, Outcome, ok, panic, or_logged, if◌then◌else◌,
}
use uomi_node.Prelude.Key.{nat_key, bytes_key, ◌=?◌}
use uomi_node.Prelude.Lists.{length, contains, filter, all}
use uomi_node.Prelude.Map.{Map, keys, values}
use uomi_node.Engine.{
  AccountId, RequestId, BlockNumber, Data, EngineError, Chain, Storage, Operations,
}
use uomi_node.Engine.Assignment.{opoc_assignment}
use uomi_node.Engine.Deassignment.{opoc_deassignment_per_timeout, opoc_deassignment_per_completed}
use uomi_node.Engine.Outputs.{Collected, opoc_get_outputs}
use uomi_node.Engine.Selection.{get_active_validators}
use uomi_node.Engine.Works.{opoc_complete}

-- `for validator in validators_in_timeout.iter()`
unfoldable pub timeout_all : Storage → RequestId → List AccountId → Operations → Operations
timeout_all s request_id [] ops = ops
timeout_all s request_id (v ∷ vs) ops =
    timeout_all s request_id vs (opoc_deassignment_per_timeout s request_id v ops)

-- `for validator in output.keys()`
unfoldable pub complete_all : RequestId → List AccountId → Operations → Operations
complete_all request_id [] ops = ops
complete_all request_id (v ∷ vs) ops =
    complete_all request_id vs (opoc_deassignment_per_completed v request_id ops)

-- Those in time out lose the request, and as many others are drawn.
unfoldable pub level_1_timeout :
    Chain
    → Storage
    → BlockNumber
    → RequestId
    → Collected
    → Operations
    → Outcome EngineError Operations
level_1_timeout c s current_block request_id collected ops =
    let removed = timeout_all s request_id collected.validators_in_timeout ops in
    let exclude = collected.validators_not_completed ++ keys collected.outputs in
    let amount = length collected.validators_in_timeout % 2 ^ 32 in
    or_logged (opoc_assignment c s request_id current_block amount exclude false removed) removed

-- The validators of level 2: all active ones that have not answered.
unfoldable pub level_2_validators : Chain → List AccountId → List AccountId
level_2_validators c exclude = filter (λ a. not (contains exclude a)) (get_active_validators c)

-- All have answered: a common output completes the request, otherwise all other validators are drawn.
unfoldable pub level_1_answers :
    Chain
    → Storage
    → BlockNumber
    → RequestId
    → Map AccountId Data
    → Operations
    → Outcome EngineError Operations
level_1_answers c s current_block request_id [] ops = panic
level_1_answers c s current_block request_id ((validator, first_output) ∷ rest) ops =
    let output = (validator, first_output) ∷ rest in
    let released = complete_all request_id (keys output) ops in
    let executions = length output % 2 ^ 32 in
    let amount = length (level_2_validators c (keys output)) % 2 ^ 32 in
    if all (λ o. o =? first_output) (values rest)
    then ok (opoc_complete request_id first_output executions executions released)
    else or_logged
        (opoc_assignment c s request_id current_block amount (keys output) false released) released

-- The decision on what `opoc_get_outputs` has found.
unfoldable pub level_1_decide :
    Chain
    → Storage
    → BlockNumber
    → RequestId
    → Operations
    → Collected
    → Outcome EngineError Operations
level_1_decide c s current_block request_id ops collected = elim collected.validators_in_timeout [
  | late ∷ _ ↦ level_1_timeout c s current_block request_id collected ops
  | [] ↦ elim collected.validators_not_completed [
    | waiting ∷ _ ↦ ok ops
    | [] ↦ level_1_answers c s current_block request_id collected.outputs ops
  ]
]

unfoldable pub check_level_1 :
    Chain → Storage → BlockNumber → RequestId → Operations → Outcome EngineError Operations
check_level_1 c s current_block request_id ops =
    level_1_decide c s current_block request_id ops (opoc_get_outputs s request_id current_block)
