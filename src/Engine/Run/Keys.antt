-- ===== src/Engine/Run/Keys.antt =====
-- The changes of the operations name no key twice in any of the maps.
pub mod Levels
use uomi_node.Prelude.{
  ℕ, Bool, true, false, none, some, Option, ◌≡◌, refl, inl, inr, List, [], ◌∷◌, arith, Outcome, ok,
  err, panic, ◌>>=◌, or_logged, Option-cases, if◌then◌else◌,
}
use uomi_node.Prelude.Key.{nat_key, pair_key}
use uomi_node.Prelude.Lists.{Distinct}
use uomi_node.Prelude.Map.{Map, lookup, put, place, insert, keys, keys-insert-Distinct}
use uomi_node.Engine.{
  AccountId, RequestId, BlockNumber, Data, EngineError, Chain, Storage, Operations, no_operations,
  add_u256,
}
use uomi_node.Engine.Selection.{works_or_empty}
use uomi_node.Engine.Works.{
  opoc_blacklist_operations_add, opoc_blacklist_operations_remove, opoc_assignment_operations_add,
  opoc_assignment_operations_remove, opoc_nodes_works_operations_add,
  opoc_nodes_works_operations_remove, opoc_nodes_errors_operations_incr,
  opoc_nodes_timeouts_operations_incr, opoc_complete,
}
use uomi_node.Engine.Deassignment.{
  opoc_deassignment_per_completed, opoc_deassignment_per_invalid_output,
  opoc_deassignment_per_timeout,
}
use uomi_node.Engine.Store.Effect.{KeysDistinct}
use uomi_node.Engine.Store.WorksOverlay.{WorksDistinct}

pub blacklist_entry :
    (v : AccountId) (b : Bool) (ops : Operations)
    → KeysDistinct ops
    → KeysDistinct
        (record ops { opoc_blacklist_operations = insert v b ops.opoc_blacklist_operations })
blacklist_entry v b ops k =
    ground (arith, k, keys-insert-Distinct v b ops.opoc_blacklist_operations)

pub assignment_entry :
    (r : RequestId) (v : AccountId) (e : BlockNumber) (ops : Operations)
    → KeysDistinct ops
    → KeysDistinct
        (record ops { opoc_assignment_operations = insert (r, v) e ops.opoc_assignment_operations })
assignment_entry r v e ops k =
    ground (arith, k, keys-insert-Distinct (r, v) e ops.opoc_assignment_operations)

put-WorksDistinct :
    (v : AccountId) (works : Map RequestId Bool) (m : Map AccountId (Map RequestId Bool))
    → Distinct (keys works)
    → WorksDistinct m
    → WorksDistinct (put v works m)
unfolding put
put-WorksDistinct v works [] d w = (d, tt)
put-WorksDistinct v works ((a, x) ∷ m) d w = ground (arith, put-WorksDistinct v works m d w.1)

place-WorksDistinct :
    (v : AccountId) (works : Map RequestId Bool) (m : Map AccountId (Map RequestId Bool))
    → Distinct (keys works)
    → WorksDistinct m
    → WorksDistinct (place v works m)
unfolding place
place-WorksDistinct v works [] d w = (d, tt)
place-WorksDistinct v works ((a, x) ∷ m) d w = ground (arith, place-WorksDistinct v works m d w.1)

insert-WorksDistinct :
    (v : AccountId) (works : Map RequestId Bool) (m : Map AccountId (Map RequestId Bool))
    → Distinct (keys works)
    → WorksDistinct m
    → WorksDistinct (insert v works m)
unfolding insert
insert-WorksDistinct v works m d w =
    ground (arith, put-WorksDistinct v works m d w, place-WorksDistinct v works m d w)

works_of-Distinct :
    (v : AccountId) (m : Map AccountId (Map RequestId Bool))
    → WorksDistinct m
    → Distinct (keys (works_or_empty (lookup v m)))
unfolding lookup
works_of-Distinct v [] w = tt
works_of-Distinct v ((a, x) ∷ m) w = ground (arith, works_of-Distinct v m w.1)

pub works_entry :
    (v : AccountId) (r : RequestId) (b : Bool) (ops : Operations)
    → KeysDistinct ops
    → KeysDistinct (record ops {
      nodes_works_operations =
          insert v
            (insert r b (works_or_empty (lookup v ops.nodes_works_operations)))
            ops.nodes_works_operations;
    })
works_entry v r b ops k =
    let works = works_or_empty (lookup v ops.nodes_works_operations) in
    let d : Distinct (keys (insert r b works)) =
      keys-insert-Distinct r b works
        (works_of-Distinct v ops.nodes_works_operations k.works_inside) in
    record {
      blacklist = k.blacklist;
      assignment = k.assignment;
      works = keys-insert-Distinct v (insert r b works) ops.nodes_works_operations k.works;
      works_inside =
          insert-WorksDistinct v (insert r b works) ops.nodes_works_operations d k.works_inside;
      timeouts = k.timeouts;
      errors = k.errors;
      outputs = k.outputs;
    }

errors_entry :
    (v : AccountId) (n : ℕ) (ops : Operations)
    → KeysDistinct ops
    → KeysDistinct (record ops { nodes_errors_operations = insert v n ops.nodes_errors_operations })
errors_entry v n ops k = ground (arith, k, keys-insert-Distinct v n ops.nodes_errors_operations)

timeouts_entry :
    (v : AccountId) (n : ℕ) (ops : Operations)
    → KeysDistinct ops
    → KeysDistinct
        (record ops { nodes_timeouts_operations = insert v n ops.nodes_timeouts_operations })
timeouts_entry v n ops k = ground (arith, k, keys-insert-Distinct v n ops.nodes_timeouts_operations)

pub opoc_complete-KeysDistinct :
    (r : RequestId) (d : Data) (executions agreeing : ℕ) (ops : Operations)
    → KeysDistinct ops
    → KeysDistinct (opoc_complete r d executions agreeing ops)
unfolding opoc_complete
opoc_complete-KeysDistinct r d executions agreeing ops k =
    ground (arith, k, keys-insert-Distinct r (d, executions, agreeing) ops.outputs_operations)

-- The three ways in which a validator leaves a request.
pub completed-KeysDistinct :
    (v : AccountId) (r : RequestId) (ops : Operations)
    → KeysDistinct ops
    → KeysDistinct (opoc_deassignment_per_completed v r ops)
unfolding opoc_deassignment_per_completed opoc_nodes_works_operations_remove
completed-KeysDistinct v r ops k = works_entry v r false ops k

pub invalid-KeysDistinct :
    (s : Storage) (r : RequestId) (v : AccountId) (ops : Operations)
    → KeysDistinct ops
    → KeysDistinct (opoc_deassignment_per_invalid_output s r v ops)
unfolding opoc_deassignment_per_invalid_output opoc_nodes_works_operations_remove
    opoc_assignment_operations_remove opoc_nodes_errors_operations_incr
    opoc_blacklist_operations_add
invalid-KeysDistinct s r v ops k =
    blacklist_entry v true _
      (errors_entry v _ _ (assignment_entry r v 0 _ (works_entry v r false ops k)))

pub timeout-KeysDistinct :
    (s : Storage) (r : RequestId) (v : AccountId) (ops : Operations)
    → KeysDistinct ops
    → KeysDistinct (opoc_deassignment_per_timeout s r v ops)
unfolding opoc_deassignment_per_timeout opoc_nodes_works_operations_remove
    opoc_assignment_operations_remove opoc_nodes_timeouts_operations_incr
    opoc_blacklist_operations_add
timeout-KeysDistinct s r v ops k =
    blacklist_entry v true _
      (timeouts_entry v _ _ (assignment_entry r v 0 _ (works_entry v r false ops k)))
