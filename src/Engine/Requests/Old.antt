-- ===== src/Engine/Requests/Old.antt =====
-- pallets/uomi-engine/src/lib.rs: the assignment of a request of the first blocks of the finney
-- chain takes no request away.
use uomi_node.Prelude.{
  true, Option, none, some, ◌≡◌, refl, sym, ap, ◌∙◌, List, [], ◌∷◌, arith, Outcome, ok, err, panic,
  ◌>>=◌, or_logged, >>=_inverted, ok-injective, some-injective,
}
use uomi_node.Prelude.Map.{Map}
use uomi_node.Engine.{
  AccountId, RequestId, BlockNumber, EngineError, Input, Chain, Storage, Operations, no_operations,
  add_u256,
}
use uomi_node.Engine.Works.{
  opoc_blacklist_operations_remove, opoc_assignment_operations_add, opoc_nodes_works_operations_add,
  opoc_nodes_works_operations_sum_execution_max_time,
}
use uomi_node.Engine.Assignment.{clear_blacklist, give_work, assign_validator, assign_validators}
use uomi_node.Engine.FinneyV1.{
  and_then, opoc_assignment_finney_v1, opoc_assignment_get_random_validators_finney_v1,
}
use uomi_node.Engine.Store.{opoc_store_operations, store_outputs}
use uomi_node.Engine.Store.Frame.{store_blacklist_frame, store_assignments_frame, store_works_frame}
use uomi_node.Engine.Requests.{old_unsecured_mode}

give_work-outputs :
    (s : Storage) (r : RequestId) (v : AccountId) (ops : Operations)
    → (give_work s r v ops).outputs_operations ≡ ops.outputs_operations
unfolding give_work opoc_nodes_works_operations_add clear_blacklist opoc_blacklist_operations_remove
give_work-outputs s r v ops = ground (arith)

pub assign_validators-outputs :
    (s : Storage) (r : RequestId) (current : BlockNumber) (vs : List AccountId)
    (ops ops' : Operations)
    → assign_validators s r current vs ops ≡ ok ops'
    → ops'.outputs_operations ≡ ops.outputs_operations
unfolding assign_validators assign_validator opoc_assignment_operations_add
assign_validators-outputs s r current [] ops ops' h =
    ap (λ (o : Operations). o.outputs_operations) (sym (ok-injective h))
assign_validators-outputs s r current (v ∷ vs) ops ops' h =
    let added = give_work s r v ops in
    let (given, step, rest) = >>=_inverted (assign_validator s r current v ops) _ (sym h) in
    let (sum, _, h1) =
      >>=_inverted (opoc_nodes_works_operations_sum_execution_max_time s added v) _ (sym step) in
    let (e, _, h2) = >>=_inverted (add_u256 current sum) _ (sym h1) in
    assign_validators-outputs s r current vs given ops' rest
    ∙ ap (λ (o : Operations). o.outputs_operations) (sym (ok-injective h2))
    ∙ give_work-outputs s r v ops

stored-inputs :
    (c : Chain) (ops : Operations) (s : Storage)
    → ops.outputs_operations ≡ []
    → (opoc_store_operations c ops s).inputs ≡ s.inputs
unfolding opoc_store_operations store_outputs
stored-inputs c ops s nothing = rw nothing (
    store_works_frame inputs (λ s m. refl) ops.nodes_works_operations _
    ∙ store_assignments_frame inputs (λ s m es. refl) ops.opoc_assignment_operations _
    ∙ store_blacklist_frame inputs (λ s m es. refl) ops.opoc_blacklist_operations s)
  where
    inputs : Storage → Map RequestId Input
    inputs s = s.inputs

-- What an assignment gives is stored, or nothing is.
assigned-inputs :
    (c : Chain) (s s' : Storage) (m : Outcome EngineError Operations)
    → ((ops : Operations) → m ≡ ok ops → ops.outputs_operations ≡ [])
    → or_logged (m >>= λ ops. ok (opoc_store_operations c ops s)) s ≡ ok s'
    → s'.inputs ≡ s.inputs
assigned-inputs c s s' (ok ops) nothing h =
    ap (λ (s : Storage). s.inputs) (sym (ok-injective h)) ∙ stored-inputs c ops s (nothing ops refl)
assigned-inputs c s s' (err e) nothing h = ap (λ (s : Storage). s.inputs) (sym (ok-injective h))
assigned-inputs c s s' panic nothing h = cc

chosen-inputs :
    (c : Chain) (r : RequestId) (s s' : Storage) (m : Option (Outcome EngineError (List AccountId)))
    → elim (and_then m (λ vs. assign_validators s r c.current_block_number vs no_operations)) [
      | none ↦ none
      | some o ↦ some (or_logged (o >>= λ ops. ok (opoc_store_operations c ops s)) s)
    ]
      ≡ some (ok s')
    → s'.inputs ≡ s.inputs
chosen-inputs c r s s' none h = cc
chosen-inputs c r s s' (some m) h =
    assigned-inputs c s s'
      (m >>= λ vs. assign_validators s r c.current_block_number vs no_operations)
      (λ ops e.
        let (vs, _, given) = >>=_inverted m _ (sym e) in
        assign_validators-outputs s r c.current_block_number vs no_operations ops given)
      (some-injective h)

pub old_unsecured_mode-inputs :
    (c : Chain) (r : RequestId) (s s' : Storage)
    → old_unsecured_mode c r s ≡ some (ok s')
    → s'.inputs ≡ s.inputs
unfolding old_unsecured_mode opoc_assignment_finney_v1
old_unsecured_mode-inputs c r s s' h =
    chosen-inputs c r s s'
      (opoc_assignment_get_random_validators_finney_v1 c s no_operations.nodes_works_operations 1
        true [])
      h
