-- ===== src/Engine/Works.antt =====
-- pallets/uomi-engine/src/opoc.rs: the helpers that read and change the six maps of operations.
use uomi_node.Prelude.{
  ℕ, ◌+◌, ◌%◌, ◌^◌, Bool, true, false, not, none, some, List, [], ◌∷◌, ◌++◌, Outcome, ok, ◌>>=◌,
  leb, ◌==◌, if◌then◌else◌,
}
use uomi_node.Prelude.Key.{nat_key, pair_key}
use uomi_node.Prelude.Lists.{filter}
use uomi_node.Prelude.Map.{Map, lookup, insert, keys, iter_prefix, or_default}
use uomi_node.Engine.{
  AccountId, RequestId, BlockNumber, Data, EngineError, default_input, Storage, Operations,
  add_u256,
}
use uomi_node.Engine.Selection.{works_or_empty}

unfoldable pub opoc_blacklist_operations_check : Storage → Operations → AccountId → Bool
opoc_blacklist_operations_check s ops validator =
    elim (lookup validator ops.opoc_blacklist_operations) [
      | some blacklisted ↦ blacklisted
      | none ↦ or_default (lookup validator s.opoc_blacklist) false
    ]

unfoldable pub opoc_blacklist_operations_add : AccountId → Operations → Operations
opoc_blacklist_operations_add validator ops = record ops {
  opoc_blacklist_operations = insert validator true ops.opoc_blacklist_operations;
}

unfoldable pub opoc_blacklist_operations_remove : AccountId → Operations → Operations
opoc_blacklist_operations_remove validator ops = record ops {
  opoc_blacklist_operations = insert validator false ops.opoc_blacklist_operations;
}

unfoldable pub opoc_assignment_operations_add :
    RequestId → AccountId → BlockNumber → Operations → Operations
opoc_assignment_operations_add request_id validator expiration ops = record ops {
  opoc_assignment_operations =
      insert (request_id, validator) expiration ops.opoc_assignment_operations;
}

-- A removal is an expiration at block 0.
unfoldable pub opoc_assignment_operations_remove : RequestId → AccountId → Operations → Operations
opoc_assignment_operations_remove request_id validator ops = record ops {
  opoc_assignment_operations = insert (request_id, validator) 0 ops.opoc_assignment_operations;
}

unfoldable pub opoc_nodes_works_operations_add : AccountId → RequestId → Operations → Operations
opoc_nodes_works_operations_add validator request_id ops =
    let works = works_or_empty (lookup validator ops.nodes_works_operations) in
    record ops {
      nodes_works_operations =
          insert validator (insert request_id true works) ops.nodes_works_operations;
    }

unfoldable pub opoc_nodes_works_operations_remove : AccountId → RequestId → Operations → Operations
opoc_nodes_works_operations_remove validator request_id ops =
    let works = works_or_empty (lookup validator ops.nodes_works_operations) in
    record ops {
      nodes_works_operations =
          insert validator (insert request_id false works) ops.nodes_works_operations;
    }

-- The counters are `u32`; a release build wraps.
unfoldable pub opoc_nodes_errors_operations_incr : Storage → AccountId → Operations → Operations
opoc_nodes_errors_operations_incr s validator ops =
    let failures : ℕ = elim (lookup validator ops.nodes_errors_operations) [
      | some n ↦ n
      | none ↦ or_default (lookup validator s.nodes_errors) 0
    ] in
    record ops {
      nodes_errors_operations =
          insert validator ((failures + 1) % 2 ^ 32) ops.nodes_errors_operations;
    }

unfoldable pub opoc_nodes_timeouts_operations_incr : Storage → AccountId → Operations → Operations
opoc_nodes_timeouts_operations_incr s validator ops =
    let failures : ℕ = elim (lookup validator ops.nodes_timeouts_operations) [
      | some n ↦ n
      | none ↦ or_default (lookup validator s.nodes_timeouts) 0
    ] in
    record ops {
      nodes_timeouts_operations =
          insert validator ((failures + 1) % 2 ^ 32) ops.nodes_timeouts_operations;
    }

-- `Vec::sort` and `Vec::dedup` on request ids.
sorted_insert : RequestId → List RequestId → List RequestId
sorted_insert r [] = r ∷ []
sorted_insert r (q ∷ qs) = if leb r q then r ∷ q ∷ qs else q ∷ sorted_insert r qs

unfoldable pub sort : List RequestId → List RequestId
unfolding sorted_insert
sort [] = []
sort (r ∷ rs) = sorted_insert r (sort rs)

dedup_from : RequestId → List RequestId → List RequestId
dedup_from r [] = []
dedup_from r (q ∷ qs) = let rest = dedup_from q qs in if r == q then rest else q ∷ rest

unfoldable pub dedup : List RequestId → List RequestId
unfolding dedup_from
dedup [] = []
dedup (r ∷ rs) = r ∷ dedup_from r rs

-- The assigned requests of the operations are pushed, the others are taken out.
unfoldable pub overlay_works : Map RequestId Bool → List RequestId → List RequestId
overlay_works [] ids = ids
overlay_works ((r, true) ∷ works) ids = overlay_works works (ids ++ r ∷ [])
overlay_works ((r, false) ∷ works) ids = overlay_works works (filter (λ x. not (x == r)) ids)

unfoldable pub sum_execution_max_time : Storage → ℕ → List RequestId → Outcome EngineError ℕ
sum_execution_max_time s sum [] = ok sum
sum_execution_max_time s sum (r ∷ rs) = do
  sum' ← add_u256 sum (or_default (lookup r s.inputs) default_input).nft_execution_max_time
  sum_execution_max_time s sum' rs

unfoldable pub opoc_nodes_works_operations_sum_execution_max_time :
    Storage → Operations → AccountId → Outcome EngineError ℕ
opoc_nodes_works_operations_sum_execution_max_time s ops validator =
    let stored = keys (iter_prefix validator s.nodes_works) in
    let works = works_or_empty (lookup validator ops.nodes_works_operations) in
    sum_execution_max_time s 0 (dedup (sort (overlay_works works stored)))

unfoldable pub opoc_complete : RequestId → Data → ℕ → ℕ → Operations → Operations
opoc_complete request_id output total_executions total_consensus ops = record ops {
  outputs_operations =
      insert request_id (output, total_executions, total_consensus) ops.outputs_operations;
}
