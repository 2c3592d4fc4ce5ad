-- ===== src/Engine/Run/Level1/Agreement.antt =====
-- What level 1 does when all validators of a request have answered.
use uomi_node.Prelude.{ℕ, ◌%◌, ◌^◌, true, false, some, ◌≡◌, refl, ◌∙◌, List, [], ◌∷◌, ok, panic}
use uomi_node.Prelude.Key.{nat_key, bytes_key, ◌=?◌}
use uomi_node.Prelude.Lists.{length, all}
use uomi_node.Prelude.Map.{Map, lookup, keys, values, lookup-insert, beq_refl}
use uomi_node.Engine.{AccountId, RequestId, BlockNumber, Data, Chain, Storage, Operations}
use uomi_node.Engine.Assignment.{opoc_assignment}
use uomi_node.Engine.Deassignment.{opoc_deassignment_per_completed}
use uomi_node.Engine.Selection.Choice.{random_validators-zero}
use uomi_node.Engine.Works.{opoc_nodes_works_operations_remove, opoc_complete}
use uomi_node.Engine.Run.Level1.{complete_all, level_2_validators, level_1_answers}

complete_all-blacklist :
    (r : RequestId) (vs : List AccountId) (ops : Operations)
    → (complete_all r vs ops).opoc_blacklist_operations ≡ ops.opoc_blacklist_operations
unfolding complete_all opoc_deassignment_per_completed opoc_nodes_works_operations_remove
complete_all-blacklist r [] ops = refl
complete_all-blacklist r (v ∷ vs) ops = complete_all-blacklist r vs _

complete_all-assignment :
    (r : RequestId) (vs : List AccountId) (ops : Operations)
    → (complete_all r vs ops).opoc_assignment_operations ≡ ops.opoc_assignment_operations
unfolding complete_all opoc_deassignment_per_completed opoc_nodes_works_operations_remove
complete_all-assignment r [] ops = refl
complete_all-assignment r (v ∷ vs) ops = complete_all-assignment r vs _

module _ (c : Chain) (s : Storage) (current : BlockNumber) (r : RequestId) (v : AccountId)
    (o : Data) (rest : Map AccountId Data) (ops : Operations) where
  -- When all answers of level 1 are the same, the request is completed with that output, with all
  -- executions in consensus, and no validator is blacklisted or loses an assignment.
  pub level_1_answers-agree :
      all (λ d. d =? o) (values rest) ≡ true
      → (ops' : Operations) × (level_1_answers c s current r ((v, o) ∷ rest) ops ≡ ok ops')
        × (lookup r ops'.outputs_operations
            ≡ some (o, length ((v, o) ∷ rest) % 2 ^ 32, length ((v, o) ∷ rest) % 2 ^ 32))
        × (ops'.opoc_blacklist_operations ≡ ops.opoc_blacklist_operations)
        × (ops'.opoc_assignment_operations ≡ ops.opoc_assignment_operations)
  level_1_answers-agree same =
      let n : ℕ = length ((v, o) ∷ rest) % 2 ^ 32 in
      let released = complete_all r (keys ((v, o) ∷ rest)) ops in
      (
        opoc_complete r o n n released,
        (unfold level_1_answers in rw same),
        (unfold opoc_complete in
            (lookup-insert r r (o, n, n) released.outputs_operations ∙ rw (beq_refl r))),
        (unfold opoc_complete in complete_all-blacklist r (keys ((v, o) ∷ rest)) ops),
        (unfold opoc_complete in complete_all-assignment r (keys ((v, o) ∷ rest)) ops),
      )

  -- When the answers of level 1 differ and every active validator has already answered, the run
  -- panics, instead of waiting: nobody is left for level 2, and the draw divides by zero.
  pub level_1_answers-exhausted :
      all (λ d. d =? o) (values rest) ≡ false
      → level_2_validators c (keys ((v, o) ∷ rest)) ≡ []
      → level_1_answers c s current r ((v, o) ∷ rest) ops ≡ panic
  unfolding level_1_answers opoc_assignment
  level_1_answers-exhausted differ nobody = rw (differ, nobody, random_validators-zero)
