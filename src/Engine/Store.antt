-- ===== src/Engine/Store.antt =====
-- pallets/uomi-engine/src/opoc.rs: how the operations of a run are written to storage.
pub mod Frame
pub mod Overlay
pub mod WorksOverlay
pub mod Effect
use uomi_node.Prelude.{ℕ, Bool, true, false, List, [], ◌∷◌, ◌++◌, leb, ◌==◌, if◌then◌else◌}
use uomi_node.Prelude.Key.{nat_key, pair_key}
use uomi_node.Prelude.Map.{Map, put, remove, remove_prefix}
use uomi_node.Engine.{
  AccountId, RequestId, BlockNumber, Data, Event, opoc_blacklist_add, opoc_blacklist_remove,
  opoc_assignment_add, opoc_assignment_remove, request_completed, Chain, Storage, Operations,
}

-- `TEMP_BLOCK_FOR_NEW_OPOC`
abbrev pub temp_block_for_new_opoc : ℕ
temp_block_for_new_opoc = 1950000

unfoldable pub deposit_event : Event → Storage → Storage
deposit_event e s = record s { events = s.events ++ e ∷ [] }

unfoldable pub store_blacklist : Map AccountId Bool → Storage → Storage
unfolding deposit_event
store_blacklist [] s = s
store_blacklist ((a, true) ∷ rest) s = store_blacklist rest (
    deposit_event (opoc_blacklist_add a)
      (record s { opoc_blacklist = put a true s.opoc_blacklist }))
store_blacklist ((a, false) ∷ rest) s = store_blacklist rest (
    deposit_event (opoc_blacklist_remove a)
      (record s { opoc_blacklist = remove a s.opoc_blacklist }))

unfoldable pub store_assignment : RequestId → AccountId → BlockNumber → Storage → Storage
unfolding deposit_event
store_assignment r a expiration s =
    if expiration == 0
    then deposit_event (opoc_assignment_remove r a)
        (record s { opoc_assignment = remove (r, a) s.opoc_assignment })
    else deposit_event (opoc_assignment_add r a expiration)
        (record s { opoc_assignment = put (r, a) expiration s.opoc_assignment })

unfoldable pub store_assignments : Map (RequestId × AccountId) BlockNumber → Storage → Storage
store_assignments [] s = s
store_assignments (((r, a), expiration) ∷ rest) s =
    store_assignments rest (store_assignment r a expiration s)

unfoldable pub store_works_of : AccountId → Map RequestId Bool → Storage → Storage
store_works_of a [] s = s
store_works_of a ((r, true) ∷ rest) s =
    store_works_of a rest (record s { nodes_works = put (a, r) true s.nodes_works })
store_works_of a ((r, false) ∷ rest) s =
    store_works_of a rest (record s { nodes_works = remove (a, r) s.nodes_works })

unfoldable pub store_works : Map AccountId (Map RequestId Bool) → Storage → Storage
store_works [] s = s
store_works ((a, works) ∷ rest) s = store_works rest (store_works_of a works s)

-- A counter of 0 is removed.
unfoldable pub store_counters : Map AccountId ℕ → Map AccountId ℕ → Map AccountId ℕ
store_counters [] m = m
store_counters ((a, n) ∷ rest) m = store_counters rest (if n == 0 then remove a m else put a n m)

-- A completed request leaves the inputs, and all that was stored about its execution goes.
unfoldable pub store_output : Chain → RequestId → Data → ℕ → ℕ → Storage → Storage
unfolding deposit_event
store_output c r output executions consensus s =
    deposit_event (request_completed r output executions consensus) (record s {
      outputs = put r (output, executions, consensus) s.outputs;
      inputs = remove r s.inputs;
      opoc_assignment = remove_prefix r s.opoc_assignment;
      nodes_outputs = remove_prefix r s.nodes_outputs;
      nodes_opoc_l0_inferences =
          if leb temp_block_for_new_opoc c.current_block_number
          then remove_prefix r s.nodes_opoc_l0_inferences
          else s.nodes_opoc_l0_inferences;
    })

unfoldable pub store_outputs : Chain → Map RequestId (Data × ℕ × ℕ) → Storage → Storage
store_outputs c [] s = s
store_outputs c ((r, (output, executions, consensus)) ∷ rest) s =
    store_outputs c rest (store_output c r output executions consensus s)

unfoldable pub opoc_store_operations : Chain → Operations → Storage → Storage
opoc_store_operations c ops s =
    let s1 = store_blacklist ops.opoc_blacklist_operations s in
    let s2 = store_assignments ops.opoc_assignment_operations s1 in
    let s3 = store_works ops.nodes_works_operations s2 in
    let s4 = record s3 {
      nodes_timeouts = store_counters ops.nodes_timeouts_operations s3.nodes_timeouts;
    } in
    let s5 = store_outputs c ops.outputs_operations s4 in
    record s5 { nodes_errors = store_counters ops.nodes_errors_operations s5.nodes_errors }
