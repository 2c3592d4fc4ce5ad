-- ===== src/Engine/Run/Level0.antt =====
-- pallets/uomi-engine/src/opoc.rs: the branch of `opoc_run` for a request with one assignment.
pub mod Cases
use uomi_node.Prelude.{
  ℕ, ◌-◌, true, false, [], ◌∷◌, Outcome, ok, panic, or_logged, ltb, if◌then◌else◌,
}
use uomi_node.Prelude.Map.{Map}
use uomi_node.Engine.{
  AccountId, RequestId, BlockNumber, Data, EngineError, Chain, Storage, Operations,
}
use uomi_node.Engine.Assignment.{opoc_assignment}
use uomi_node.Engine.Deassignment.{opoc_deassignment_per_timeout, opoc_deassignment_per_completed}
use uomi_node.Engine.Outputs.{Collected, opoc_get_outputs}
use uomi_node.Engine.Works.{opoc_complete}

-- The first validator in time out loses the request, and another is drawn.
unfoldable pub level_0_timeout :
    Chain
    → Storage
    → BlockNumber
    → RequestId
    → AccountId
    → Operations
    → Outcome EngineError Operations
level_0_timeout c s current_block request_id validator ops =
    let removed = opoc_deassignment_per_timeout s request_id validator ops in
    or_logged (opoc_assignment c s request_id current_block 1 [] true removed) removed

-- The validator has answered: more are drawn, or the request is complete.
unfoldable pub level_0_completed :
    Chain
    → Storage
    → BlockNumber
    → RequestId
    → ℕ
    → AccountId
    → Data
    → Operations
    → Outcome EngineError Operations
level_0_completed c s current_block request_id level_1 validator final_output ops =
    let released = opoc_deassignment_per_completed validator request_id ops in
    if ltb 1 level_1
    then or_logged
        (opoc_assignment c s request_id current_block (level_1 - 1) (validator ∷ []) false released)
        released
    else ok (opoc_complete request_id final_output 1 1 released)

-- `output.keys().next().unwrap()` panics where nobody answered.
unfoldable pub level_0_answer :
    Chain
    → Storage
    → BlockNumber
    → RequestId
    → ℕ
    → Map AccountId Data
    → Operations
    → Outcome EngineError Operations
level_0_answer c s current_block request_id level_1 [] ops = panic
level_0_answer c s current_block request_id level_1 ((validator, output) ∷ rest) ops =
    level_0_completed c s current_block request_id level_1 validator output ops

-- The decision on what `opoc_get_outputs` has found.
unfoldable pub level_0_decide :
    Chain
    → Storage
    → BlockNumber
    → RequestId
    → ℕ
    → Operations
    → Collected
    → Outcome EngineError Operations
level_0_decide c s current_block request_id level_1 ops collected =
    elim collected.validators_not_completed [
      | waiting ∷ _ ↦ ok ops
      | [] ↦ elim collected.validators_in_timeout [
        | validator ∷ _ ↦ level_0_timeout c s current_block request_id validator ops
        | [] ↦ level_0_answer c s current_block request_id level_1 collected.outputs ops
      ]
    ]

unfoldable pub check_level_0 :
    Chain → Storage → BlockNumber → RequestId → ℕ → Operations → Outcome EngineError Operations
check_level_0 c s current_block request_id level_1 ops =
    level_0_decide c s current_block request_id level_1 ops
      (opoc_get_outputs s request_id current_block)
