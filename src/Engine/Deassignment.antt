-- ===== src/Engine/Deassignment.antt =====
-- pallets/uomi-engine/src/opoc.rs: how a validator is released from a request.
use uomi_node.Engine.{AccountId, RequestId, Storage, Operations}
use uomi_node.Engine.Works.{
  opoc_nodes_works_operations_remove, opoc_assignment_operations_remove,
  opoc_nodes_errors_operations_incr, opoc_nodes_timeouts_operations_incr,
  opoc_blacklist_operations_add,
}

unfoldable pub opoc_deassignment_per_invalid_output :
    Storage → RequestId → AccountId → Operations → Operations
opoc_deassignment_per_invalid_output s request_id validator ops =
    opoc_blacklist_operations_add validator (
      opoc_nodes_errors_operations_incr s validator (
        opoc_assignment_operations_remove request_id validator
          (opoc_nodes_works_operations_remove validator request_id ops)))

unfoldable pub opoc_deassignment_per_timeout :
    Storage → RequestId → AccountId → Operations → Operations
opoc_deassignment_per_timeout s request_id validator ops = opoc_blacklist_operations_add validator (
    opoc_nodes_timeouts_operations_incr s validator (
      opoc_assignment_operations_remove request_id validator
        (opoc_nodes_works_operations_remove validator request_id ops)))

unfoldable pub opoc_deassignment_per_completed : AccountId → RequestId → Operations → Operations
opoc_deassignment_per_completed validator request_id ops =
    opoc_nodes_works_operations_remove validator request_id ops
