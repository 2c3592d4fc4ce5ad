-- ===== src/Engine/Assignment.antt =====
-- pallets/uomi-engine/src/opoc.rs: the assignment of a request to random validators.
pub mod Overflow
pub mod Effect
pub mod Given
use uomi_node.Prelude.{Bool, List, [], ◌∷◌, ℕ, Outcome, ok, ◌>>=◌, if◌then◌else◌}
use uomi_node.Engine.{
  AccountId, RequestId, BlockNumber, EngineError, Chain, Storage, Operations, add_u256,
}
use uomi_node.Engine.Selection.{opoc_assignment_get_random_validators}
use uomi_node.Engine.Works.{
  opoc_blacklist_operations_check, opoc_blacklist_operations_remove,
  opoc_nodes_works_operations_add, opoc_nodes_works_operations_sum_execution_max_time,
  opoc_assignment_operations_add,
}

-- A validator that is drawn leaves the blacklist.
unfoldable pub clear_blacklist : Storage → AccountId → Operations → Operations
clear_blacklist s validator ops =
    if opoc_blacklist_operations_check s ops validator
    then opoc_blacklist_operations_remove validator ops
    else ops

-- What the body of the loop does before it computes the expiration.
unfoldable pub give_work : Storage → RequestId → AccountId → Operations → Operations
give_work s request_id validator ops =
    opoc_nodes_works_operations_add validator request_id (clear_blacklist s validator ops)

-- The body of the loop: the request goes to one validator.
unfoldable pub assign_validator :
    Storage → RequestId → BlockNumber → AccountId → Operations → Outcome EngineError Operations
assign_validator s request_id current_block validator ops = do
  let added = give_work s request_id validator ops
  sum ← opoc_nodes_works_operations_sum_execution_max_time s added validator
  expiration ← add_u256 current_block sum
  ok (opoc_assignment_operations_add request_id validator expiration added)

unfoldable pub assign_validators :
    Storage → RequestId → BlockNumber → List AccountId → Operations → Outcome EngineError Operations
assign_validators s request_id current_block [] ops = ok ops
assign_validators s request_id current_block (v ∷ vs) ops = do
  ops' ← assign_validator s request_id current_block v ops
  assign_validators s request_id current_block vs ops'

unfoldable pub opoc_assignment :
    Chain
    → Storage
    → RequestId
    → BlockNumber
    → ℕ
    → List AccountId
    → Bool
    → Operations
    → Outcome EngineError Operations
opoc_assignment c s request_id current_block amount exclude first_free ops = do
  random_validators ←
      opoc_assignment_get_random_validators c s ops.nodes_works_operations amount first_free exclude
  assign_validators s request_id current_block random_validators ops
