-- ===== src/Engine/Run/Keys/Levels.antt =====
-- A run of OPoC names no key twice in any of its maps of operations.
use uomi_node.Prelude.{true, false, ◌≡◌, arith, ok}
use uomi_node.Prelude.Key.{nat_key, pair_key, bytes_key}
use uomi_node.Prelude.Lists.{take}
use uomi_node.Engine.{AccountId, RequestId, BlockNumber, Chain, Storage, Operations, no_operations}
use uomi_node.Engine.Works.{opoc_blacklist_operations_remove, opoc_nodes_works_operations_add}
use uomi_node.Engine.Assignment.{clear_blacklist, give_work}
use uomi_node.Engine.Store.Effect.{KeysDistinct, IsStored, opoc_store_operations-IsStored}
use uomi_node.Engine.Store.{opoc_store_operations}
use uomi_node.Engine.Run.Keys.{
  completed-KeysDistinct, invalid-KeysDistinct, timeout-KeysDistinct, blacklist_entry,
  assignment_entry, works_entry, opoc_complete-KeysDistinct,
}
use uomi_node.Engine.Run.{opoc_run, max_inputs_managed_per_block}
use uomi_node.Engine.Run.Kept.{Closed}
use uomi_node.Engine.Run.Kept.Levels.{run_inputs-Kept}

give_work-KeysDistinct :
    (s : Storage) (r : RequestId) (v : AccountId) (ops : Operations)
    → KeysDistinct ops
    → KeysDistinct (give_work s r v ops)
unfolding give_work opoc_nodes_works_operations_add
give_work-KeysDistinct s r v ops k = works_entry v r true _ (cleared s v ops k)
  where
    cleared :
        (s : Storage) (v : AccountId) (ops : Operations)
        → KeysDistinct ops
        → KeysDistinct (clear_blacklist s v ops)
    cleared s v ops k =
        unfold clear_blacklist in
        unfold opoc_blacklist_operations_remove in ground (arith, k, blacklist_entry v false ops k)

pub nothing-KeysDistinct : KeysDistinct no_operations
nothing-KeysDistinct = record {
  blacklist = tt;
  assignment = tt;
  works = tt;
  works_inside = tt;
  timeouts = tt;
  errors = tt;
  outputs = tt;
}

pub run-Closed : Closed KeysDistinct (λ r. Unit)
run-Closed = record {
  completed = completed-KeysDistinct;
  invalid = λ s r v ops inside k. invalid-KeysDistinct s r v ops k;
  timeout = λ s r v ops inside k. timeout-KeysDistinct s r v ops k;
  work = give_work-KeysDistinct;
  assigned = λ r v e ops inside k. assignment_entry r v e ops k;
  complete = λ r d executions agreeing ops inside k.
      opoc_complete-KeysDistinct r d executions agreeing ops k;
}

pub opoc_run-KeysDistinct :
    (c : Chain) (s : Storage) (current : BlockNumber) (ops : Operations)
    → opoc_run c s current ≡ ok ops
    → KeysDistinct ops
unfolding opoc_run
opoc_run-KeysDistinct c s current ops h =
    (run_inputs-Kept KeysDistinct (λ r. Unit) run-Closed c s current
        (take max_inputs_managed_per_block s.inputs) no_operations (λ r inside. tt)
        nothing-KeysDistinct).holds
      ops h

-- Storing what a run of OPoC gives overlays the storage by it, for every request and account: the
-- run names no key of any map twice.
pub opoc_run-IsStored :
    (c : Chain) (s : Storage) (current : BlockNumber) (ops : Operations)
    → opoc_run c s current ≡ ok ops
    → (r : RequestId) (a : AccountId) → IsStored ops s (opoc_store_operations c ops s) r a
opoc_run-IsStored c s current ops h r a =
    opoc_store_operations-IsStored c ops s r a (opoc_run-KeysDistinct c s current ops h)
