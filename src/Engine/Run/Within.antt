-- ===== src/Engine/Run/Within.antt =====
-- The requests that the operations of a run of OPoC are about.
use uomi_node.Prelude.{
  ℕ, true, ◌≡◌, ◌⊎◌, inl, inr, sym, subst, ap, ◌∙◌, [], ◌∷◌, arith, ok, Bool-cases, zero, suc,
}
use uomi_node.Prelude.Key.{Key, nat_key, pair_key}
use uomi_node.Prelude.Lists.{take, contains}
use uomi_node.Prelude.Map.{Map, keys, insert, contains_key, lookup, lookup-insert, contains-keys}
use uomi_node.Engine.{
  AccountId, RequestId, BlockNumber, Data, Input, Chain, Storage, Operations, no_operations,
}
use uomi_node.Engine.Assignment.{clear_blacklist, give_work}
use uomi_node.Engine.Works.{
  opoc_complete, opoc_blacklist_operations_add, opoc_blacklist_operations_remove,
  opoc_assignment_operations_remove, opoc_nodes_works_operations_add,
  opoc_nodes_works_operations_remove, opoc_nodes_errors_operations_incr,
  opoc_nodes_timeouts_operations_incr,
}
use uomi_node.Engine.Deassignment.{
  opoc_deassignment_per_timeout, opoc_deassignment_per_invalid_output,
  opoc_deassignment_per_completed,
}
use uomi_node.Engine.Run.{opoc_run, max_inputs_managed_per_block}
use uomi_node.Engine.Run.Kept.{Closed}
use uomi_node.Engine.Run.Kept.Levels.{run_inputs-Kept}

-- Every request that is assigned, released or completed is one of those of which `R` holds.
pub record Within (R : RequestId → Type 0) (ops : Operations) : Type 0 where
  pub assigned :
      (r : RequestId) (a : AccountId)
      → contains_key ops.opoc_assignment_operations (r, a) ≡ true
      → R r
  pub completed : (r : RequestId) → contains_key ops.outputs_operations r ≡ true → R r

inserted {ℓ κ} :
    {K : Type ℓ} {V : Type κ} ⦃e : Key K⦄ (k j : K) (v : V) (m : Map K V)
    → contains_key (insert k v m) j ≡ true
    → (k ≡ j) ⊎ (contains_key m j ≡ true)
inserted ⦃e⦄ k j v m h = elim (Bool-cases (e.beq k j)) [
  | inl same ↦ inl ((e.beq_iff k j).0 same)
  | inr other ↦ inr (ground (arith, lookup-insert k j v m, h, other))
]

module _ (R : RequestId → Type 0) where
  assignment-Within :
      (r : RequestId) (v : AccountId) (e : BlockNumber) (ops : Operations)
      → R r
      → Within R ops
      → Within R (record ops {
        opoc_assignment_operations = insert (r, v) e ops.opoc_assignment_operations;
      })
  assignment-Within r v e ops about w = record {
    assigned = λ q a h. elim (inserted (r, v) (q, a) e ops.opoc_assignment_operations h) [
      | inl same ↦ subst R (ap (λ (k : RequestId × AccountId). k.0) same) about
      | inr old ↦ w.assigned q a old
    ];
    completed = w.completed;
  }

  complete-Within :
      (r : RequestId) (d : Data) (executions agreeing : ℕ) (ops : Operations)
      → R r
      → Within R ops
      → Within R (opoc_complete r d executions agreeing ops)
  unfolding opoc_complete
  complete-Within r d executions agreeing ops about w = record {
    assigned = w.assigned;
    completed = λ q h. elim (inserted r q (d, executions, agreeing) ops.outputs_operations h) [
      | inl same ↦ subst R same about
      | inr old ↦ w.completed q old
    ];
  }

  completed-Within :
      (v : AccountId) (r : RequestId) (ops : Operations)
      → Within R ops
      → Within R (opoc_deassignment_per_completed v r ops)
  unfolding opoc_deassignment_per_completed opoc_nodes_works_operations_remove
  completed-Within v r ops w = record { assigned = w.assigned; completed = w.completed }

  invalid-Within :
      (s : Storage) (r : RequestId) (v : AccountId) (ops : Operations)
      → R r
      → Within R ops
      → Within R (opoc_deassignment_per_invalid_output s r v ops)
  unfolding opoc_deassignment_per_invalid_output opoc_nodes_works_operations_remove
      opoc_assignment_operations_remove opoc_nodes_errors_operations_incr
      opoc_blacklist_operations_add
  invalid-Within s r v ops about w =
      let released = assignment-Within r v 0 ops about w in
      record { assigned = released.assigned; completed = released.completed }

  timeout-Within :
      (s : Storage) (r : RequestId) (v : AccountId) (ops : Operations)
      → R r
      → Within R ops
      → Within R (opoc_deassignment_per_timeout s r v ops)
  unfolding opoc_deassignment_per_timeout opoc_nodes_works_operations_remove
      opoc_assignment_operations_remove opoc_nodes_timeouts_operations_incr
      opoc_blacklist_operations_add
  timeout-Within s r v ops about w =
      let released = assignment-Within r v 0 ops about w in
      record { assigned = released.assigned; completed = released.completed }

  work-Within :
      (s : Storage) (r : RequestId) (v : AccountId) (ops : Operations)
      → Within R ops
      → Within R (give_work s r v ops)
  unfolding give_work opoc_nodes_works_operations_add clear_blacklist
      opoc_blacklist_operations_remove
  work-Within s r v ops w = ground (arith, w)

  pub Within-Closed : Closed (Within R) R
  Within-Closed = record {
    completed = completed-Within;
    invalid = invalid-Within;
    timeout = timeout-Within;
    work = work-Within;
    assigned = assignment-Within;
    complete = complete-Within;
  }

  pub nothing-Within : Within R no_operations
  unfolding lookup
  nothing-Within = record { assigned = λ r a h. cc; completed = λ r h. cc }

keys-take :
    (n : ℕ) (m : Map RequestId Input) (r : RequestId)
    → contains (keys (take n m)) r ≡ true
    → contains (keys m) r ≡ true
keys-take zero m r h = cc
keys-take (suc n) [] r h = cc
keys-take (suc n) ((q, i) ∷ m) r h = ground (arith, keys-take n m r, h)

-- A run assigns, releases and completes only requests that are pending.
pub opoc_run-Within :
    (c : Chain) (s : Storage) (current : BlockNumber) (ops : Operations)
    → opoc_run c s current ≡ ok ops
    → Within (λ r. contains_key s.inputs r ≡ true) ops
unfolding opoc_run
opoc_run-Within c s current ops h =
    let R : RequestId → Type 0 = λ r. contains_key s.inputs r ≡ true in
    (run_inputs-Kept (Within R) R (Within-Closed R) c s current
        (take max_inputs_managed_per_block s.inputs) no_operations
        (λ r inside.
          sym (contains-keys s.inputs r) ∙ keys-take max_inputs_managed_per_block s.inputs r inside)
        (nothing-Within R)).holds
      ops h
