-- ===== src/Engine/Store/Effect.antt =====
-- The effect of `opoc_store_operations` on every storage item that the operations touch.
use uomi_node.Prelude.{ℕ, Bool, false, Option, none, ◌≡◌, refl, ap, ◌∙◌, List, arith, if◌then◌else◌}
use uomi_node.Prelude.Key.{nat_key, pair_key}
use uomi_node.Prelude.Lists.{Distinct}
use uomi_node.Prelude.Map.{Map, lookup, keys, contains_key, or_default}
use uomi_node.Engine.{
  AccountId, RequestId, BlockNumber, Data, Event, Input, Chain, Storage, Operations,
}
use uomi_node.Engine.Selection.{works_or_empty}
use uomi_node.Engine.Works.{opoc_blacklist_operations_check}
use uomi_node.Engine.Store.{
  store_blacklist, store_assignments, store_works, store_outputs, store_counters,
  opoc_store_operations,
}
use uomi_node.Engine.Store.Frame.{
  store_blacklist_frame, store_assignments_frame, store_works_frame, store_outputs_frame,
}
use uomi_node.Engine.Store.Overlay.{
  assigned_after, or_else, IsCleared, lookup-store_assignments, lookup-store_counters,
  blacklisted-store_blacklist, store_outputs-IsCleared,
}
use uomi_node.Engine.Store.WorksOverlay.{works_after, WorksDistinct, lookup-store_works}

-- No map of operations names a key twice, as it is of every `BTreeMap`.
pub record KeysDistinct (ops : Operations) : Type 0 where
  pub blacklist : Distinct (keys ops.opoc_blacklist_operations)
  pub assignment : Distinct (keys ops.opoc_assignment_operations)
  pub works : Distinct (keys ops.nodes_works_operations)
  pub works_inside : WorksDistinct ops.nodes_works_operations
  pub timeouts : Distinct (keys ops.nodes_timeouts_operations)
  pub errors : Distinct (keys ops.nodes_errors_operations)
  pub outputs : Distinct (keys ops.outputs_operations)

-- The storage `t` is `s` overlaid by the operations.
pub record IsStored (ops : Operations) (s t : Storage) (r : RequestId) (a : AccountId)
    : Type 0 where
  pub blacklist :
      or_default (lookup a t.opoc_blacklist) false ≡ opoc_blacklist_operations_check s ops a
  pub assignment : lookup (r, a) t.opoc_assignment ≡ (
      if contains_key ops.outputs_operations r
      then none
      else assigned_after
          (lookup (r, a) ops.opoc_assignment_operations)
          (lookup (r, a) s.opoc_assignment))
  pub works :
      lookup (a, r) t.nodes_works
      ≡ works_after
          (lookup r (works_or_empty (lookup a ops.nodes_works_operations)))
          (lookup (a, r) s.nodes_works)
  pub timeouts :
      or_default (lookup a t.nodes_timeouts) 0
      ≡ or_default (or_else (lookup a ops.nodes_timeouts_operations) (lookup a s.nodes_timeouts)) 0
  pub errors :
      or_default (lookup a t.nodes_errors) 0
      ≡ or_default (or_else (lookup a ops.nodes_errors_operations) (lookup a s.nodes_errors)) 0
  pub outputs : lookup r t.outputs ≡ or_else (lookup r ops.outputs_operations) (lookup r s.outputs)
  pub inputs :
      lookup r t.inputs
      ≡ (if contains_key ops.outputs_operations r then none else lookup r s.inputs)
  pub answers :
      lookup (r, a) t.nodes_outputs
      ≡ (if contains_key ops.outputs_operations r then none else lookup (r, a) s.nodes_outputs)

check-lem :
    (s : Storage) (ops : Operations) (a : AccountId)
    → or_default
        (or_else (lookup a ops.opoc_blacklist_operations) (lookup a s.opoc_blacklist))
        false
      ≡ opoc_blacklist_operations_check s ops a
unfolding opoc_blacklist_operations_check
check-lem s ops a = ground arith

module _ (c : Chain) (ops : Operations) (s : Storage) (r : RequestId) (a : AccountId)
    (d : KeysDistinct ops) where
  blacklisted : Storage
  blacklisted = store_blacklist ops.opoc_blacklist_operations s

  assigned : Storage
  assigned = store_assignments ops.opoc_assignment_operations blacklisted

  worked : Storage
  worked = store_works ops.nodes_works_operations assigned

  counted : Storage
  counted = record worked {
    nodes_timeouts = store_counters ops.nodes_timeouts_operations worked.nodes_timeouts;
  }

  done : Storage
  done = store_outputs c ops.outputs_operations counted

  -- Whatever only the last loops write is the same before them.
  counted_frame {κ} :
      {A : Type κ} (f : Storage → A)
      → ((t : Storage) (m : Map AccountId Bool) (es : List Event)
          → f (record t { opoc_blacklist = m; events = es }) ≡ f t)
      → ((t : Storage) (m : Map (RequestId × AccountId) BlockNumber) (es : List Event)
          → f (record t { opoc_assignment = m; events = es }) ≡ f t)
      → ((t : Storage) (m : Map (AccountId × RequestId) Bool)
          → f (record t { nodes_works = m }) ≡ f t)
      → f worked ≡ f s
  unfolding worked assigned blacklisted
  counted_frame f hb ha hw =
      store_works_frame f hw _ _ ∙ store_assignments_frame f ha _ _ ∙ store_blacklist_frame f hb _ s

  cleared : IsCleared ops.outputs_operations counted done r
  unfolding done
  cleared = store_outputs-IsCleared c ops.outputs_operations counted r d.outputs

  blacklist_after :
      or_default (lookup a done.opoc_blacklist) false ≡ opoc_blacklist_operations_check s ops a
  unfolding done counted worked assigned blacklisted
  blacklist_after =
      let f : Storage → Bool = λ t. or_default (lookup a t.opoc_blacklist) false in
      store_outputs_frame f (λ _ _ _ _ _ _ _. refl) c _ counted
      ∙ store_works_frame f (λ _ _. refl) _ _
      ∙ store_assignments_frame f (λ _ _ _. refl) _ _
      ∙ blacklisted-store_blacklist _ s a d.blacklist
      ∙ check-lem s ops a

  assignment_before :
      lookup (r, a) counted.opoc_assignment
      ≡ assigned_after
          (lookup (r, a) ops.opoc_assignment_operations)
          (lookup (r, a) s.opoc_assignment)
  unfolding counted worked assigned blacklisted
  assignment_before =
      store_works_frame (λ t. lookup (r, a) t.opoc_assignment) (λ _ _. refl) _ _
      ∙ lookup-store_assignments _ _ (r, a) d.assignment
      ∙ ap (assigned_after (lookup (r, a) ops.opoc_assignment_operations))
          (store_blacklist_frame (λ t. lookup (r, a) t.opoc_assignment) (λ _ _ _. refl) _ s)

  works_stored :
      lookup (a, r) done.nodes_works
      ≡ works_after
          (lookup r (works_or_empty (lookup a ops.nodes_works_operations)))
          (lookup (a, r) s.nodes_works)
  unfolding done counted worked assigned blacklisted
  works_stored =
      let f : Storage → Option Bool = λ t. lookup (a, r) t.nodes_works in
      store_outputs_frame f (λ _ _ _ _ _ _ _. refl) c _ counted
      ∙ lookup-store_works _ _ a r d.works d.works_inside
      ∙ ap (works_after (lookup r (works_or_empty (lookup a ops.nodes_works_operations)))) (
          store_assignments_frame f (λ _ _ _. refl) _ _
          ∙ store_blacklist_frame f (λ _ _ _. refl) _ s)

  timeouts_stored :
      or_default (lookup a done.nodes_timeouts) 0
      ≡ or_default (or_else (lookup a ops.nodes_timeouts_operations) (lookup a s.nodes_timeouts)) 0
  unfolding done counted
  timeouts_stored =
      store_outputs_frame (λ t. or_default (lookup a t.nodes_timeouts) 0) (λ _ _ _ _ _ _ _. refl) c
        _ counted
      ∙ lookup-store_counters _ worked.nodes_timeouts a d.timeouts
      ∙ ap (λ (o : Option ℕ). or_default (or_else (lookup a ops.nodes_timeouts_operations) o) 0)
          (counted_frame (λ t. lookup a t.nodes_timeouts) (λ _ _ _. refl) (λ _ _ _. refl)
            (λ _ _. refl))

  errors_stored :
      or_default (lookup a (store_counters ops.nodes_errors_operations done.nodes_errors)) 0
      ≡ or_default (or_else (lookup a ops.nodes_errors_operations) (lookup a s.nodes_errors)) 0
  unfolding done counted
  errors_stored =
      let f : Storage → Option ℕ = λ t. lookup a t.nodes_errors in
      lookup-store_counters _ done.nodes_errors a d.errors
      ∙ ap (λ (o : Option ℕ). or_default (or_else (lookup a ops.nodes_errors_operations) o) 0)
          (store_outputs_frame f (λ _ _ _ _ _ _ _. refl) c _ counted
            ∙ counted_frame f (λ _ _ _. refl) (λ _ _ _. refl) (λ _ _. refl))

  assignment_stored : lookup (r, a) done.opoc_assignment ≡ (
      if contains_key ops.outputs_operations r
      then none
      else assigned_after
          (lookup (r, a) ops.opoc_assignment_operations)
          (lookup (r, a) s.opoc_assignment))
  assignment_stored =
      cleared.assignment a
      ∙ ap (λ (o : Option BlockNumber). if contains_key ops.outputs_operations r then none else o)
          assignment_before

  outputs_stored :
      lookup r done.outputs ≡ or_else (lookup r ops.outputs_operations) (lookup r s.outputs)
  outputs_stored =
      cleared.outputs
      ∙ ap (or_else (lookup r ops.outputs_operations)) (
          unfold counted in
          counted_frame (λ t. lookup r t.outputs) (λ _ _ _. refl) (λ _ _ _. refl) (λ _ _. refl))

  inputs_stored :
      lookup r done.inputs
      ≡ (if contains_key ops.outputs_operations r then none else lookup r s.inputs)
  inputs_stored =
      cleared.inputs
      ∙ ap (λ (o : Option Input). if contains_key ops.outputs_operations r then none else o)
          (unfold counted in
            counted_frame (λ t. lookup r t.inputs) (λ _ _ _. refl) (λ _ _ _. refl) (λ _ _. refl))

  answers_stored :
      lookup (r, a) done.nodes_outputs
      ≡ (if contains_key ops.outputs_operations r then none else lookup (r, a) s.nodes_outputs)
  answers_stored =
      cleared.answers a
      ∙ ap (λ (o : Option Data). if contains_key ops.outputs_operations r then none else o)
          (unfold counted in
            counted_frame (λ t. lookup (r, a) t.nodes_outputs) (λ _ _ _. refl) (λ _ _ _. refl)
              (λ _ _. refl))

  -- Storing the operations of a run overlays the storage by them: blacklist, assignments, works and
  -- counters take the new entries, and a completed request leaves the inputs, its assignments and
  -- its answers, and has its output, for every request and account, if no map of operations names
  -- a key twice.
  pub opoc_store_operations-IsStored : IsStored ops s (opoc_store_operations c ops s) r a
  unfolding opoc_store_operations
  opoc_store_operations-IsStored = record {
    blacklist = unfold done counted worked assigned blacklisted in blacklist_after;
    assignment = unfold done counted worked assigned blacklisted in assignment_stored;
    works = unfold done counted worked assigned blacklisted in works_stored;
    timeouts = unfold done counted worked assigned blacklisted in timeouts_stored;
    errors = unfold done counted worked assigned blacklisted in errors_stored;
    outputs = unfold done counted worked assigned blacklisted in outputs_stored;
    inputs = unfold done counted worked assigned blacklisted in inputs_stored;
    answers = unfold done counted worked assigned blacklisted in answers_stored;
  }
