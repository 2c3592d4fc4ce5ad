-- ===== src/Engine/Run/Kept/Levels.antt =====
-- What every branch of a run of OPoC keeps of its operations.
use uomi_node.Prelude.{
  ℕ, ◌-◌, Bool, true, false, not, none, some, Option, ◌≡◌, inl, inr, List, [], ◌∷◌, arith, ltb,
}
use uomi_node.Prelude.Key.{nat_key, pair_key, bytes_key}
use uomi_node.Prelude.Lists.{contains}
use uomi_node.Prelude.Map.{Map, keys, values}
use uomi_node.Engine.{
  AccountId, RequestId, BlockNumber, Data, Input, Chain, Storage, Operations, add_u256,
}
use uomi_node.Engine.Selection.{opoc_assignment_get_random_validators}
use uomi_node.Engine.Works.{
  opoc_assignment_operations_add, opoc_nodes_works_operations_sum_execution_max_time,
}
use uomi_node.Engine.Deassignment.{opoc_deassignment_per_timeout}
use uomi_node.Engine.Assignment.{give_work, assign_validator, assign_validators, opoc_assignment}
use uomi_node.Engine.Outputs.{Collected, opoc_get_outputs}
use uomi_node.Engine.Run.{
  as_u32, nft_file_is_usable, input_file_is_usable, run_levels, run_input, run_inputs,
}
use uomi_node.Engine.Run.Level0.{
  level_0_timeout, level_0_completed, level_0_answer, level_0_decide, check_level_0,
}
use uomi_node.Engine.Run.Level1.{
  timeout_all, complete_all, level_1_timeout, level_1_answers, level_1_decide, check_level_1,
}
use uomi_node.Engine.Run.Level2.{
  most_common, count_values, judge_outputs, verdict_on, level_2_verdict, level_2_decide,
  check_level_2,
}
use uomi_node.Engine.Run.Kept.{
  list_cases, contains_first, contains_later, Closed, Kept, Kept-ok, Kept-panic, Kept-bind,
  Kept-after, Kept-or_logged, Kept-if,
}

module _ (P : Operations → Type 0) (R : RequestId → Type 0) (closed : Closed P R) where
  pub assign_validators-Kept :
      (s : Storage) (r : RequestId) (in_run : R r) (current : BlockNumber) (vs : List AccountId)
      (ops : Operations)
      → P ops
      → Kept P (assign_validators s r current vs ops)
  unfolding assign_validators assign_validator opoc_assignment_operations_add
  assign_validators-Kept s r in_run current [] ops k = Kept-ok P k
  assign_validators-Kept s r in_run current (v ∷ vs) ops k =
      let added = give_work s r v ops in
      Kept-bind P (assign_validator s r current v ops) _
        (Kept-after P (opoc_nodes_works_operations_sum_execution_max_time s added v) _ (λ sum.
          Kept-after P (add_u256 current sum) _
            (λ e. Kept-ok P (closed.assigned r v e added in_run (closed.work s r v ops k)))))
        (λ ops' k'. assign_validators-Kept s r in_run current vs ops' k')

  opoc_assignment-Kept :
      (c : Chain) (s : Storage) (r : RequestId) (in_run : R r) (current : BlockNumber) (amount : ℕ)
      (exclude : List AccountId) (first_free : Bool) (ops : Operations)
      → P ops
      → Kept P (opoc_assignment c s r current amount exclude first_free ops)
  unfolding opoc_assignment
  opoc_assignment-Kept c s r in_run current amount exclude first_free ops k =
      Kept-after P
        (opoc_assignment_get_random_validators c s ops.nodes_works_operations amount first_free
          exclude)
        _ (λ vs. assign_validators-Kept s r in_run current vs ops k)

  timeout_all-kept :
      (s : Storage) (r : RequestId) (in_run : R r) (vs : List AccountId) (ops : Operations)
      → P ops
      → P (timeout_all s r vs ops)
  unfolding timeout_all
  timeout_all-kept s r in_run [] ops k = k
  timeout_all-kept s r in_run (v ∷ vs) ops k =
      timeout_all-kept s r in_run vs _ (closed.timeout s r v ops in_run k)

  complete_all-kept :
      (r : RequestId) (vs : List AccountId) (ops : Operations) → P ops → P (complete_all r vs ops)
  unfolding complete_all
  complete_all-kept r [] ops k = k
  complete_all-kept r (v ∷ vs) ops k = complete_all-kept r vs _ (closed.completed v r ops k)

  judge_outputs-kept :
      (s : Storage) (r : RequestId) (in_run : R r) (d : Data) (outputs : Map AccountId Data)
      (ops : Operations)
      → P ops
      → P (judge_outputs s r d outputs ops)
  unfolding judge_outputs
  judge_outputs-kept s r in_run d [] ops k = k
  judge_outputs-kept s r in_run d ((v, o) ∷ outputs) ops k =
      judge_outputs-kept s r in_run d outputs _
        (ground (arith, closed.completed v r ops k, closed.invalid s r v ops in_run k))

  module _ (c : Chain) (s : Storage) (current : BlockNumber) (r : RequestId) (in_run : R r) where
    level_0-Kept :
        (level_1 : ℕ) (ops : Operations) (collected : Collected)
        → P ops
        → Kept P (level_0_decide c s current r level_1 ops collected)
    unfolding level_0_decide
    level_0-Kept level_1 ops collected k = elim (list_cases collected.validators_not_completed) [
      | inr (v, vs, e) ↦ rw e (Kept-ok P k)
      | inl none_waits ↦ rw none_waits (elim (list_cases collected.validators_in_timeout) [
        | inr (v, vs, e) ↦ rw e (
            unfold level_0_timeout in
            Kept-or_logged P
              (opoc_assignment c s r current 1 [] true (opoc_deassignment_per_timeout s r v ops)) _
              (opoc_assignment-Kept c s r in_run current 1 [] true _
                (closed.timeout s r v ops in_run k))
              (closed.timeout s r v ops in_run k))
        | inl none_late ↦ rw none_late (answered collected.outputs)
      ])
    ]
      where
        answered : (m : Map AccountId Data) → Kept P (level_0_answer c s current r level_1 m ops)
        answered [] = unfold level_0_answer in Kept-panic P
        answered ((v, o) ∷ rest) =
            let k' = closed.completed v r ops k in
            unfold level_0_answer in
            unfold level_0_completed in
            Kept-if P (ltb 1 level_1) _ _
              (Kept-or_logged P _ _
                (opoc_assignment-Kept c s r in_run current (level_1 - 1) (v ∷ []) false _ k') k')
              (Kept-ok P (closed.complete r o 1 1 _ in_run k'))

    level_1_timeout-Kept :
        (collected : Collected) (ops : Operations)
        → P ops
        → Kept P (level_1_timeout c s current r collected ops)
    unfolding level_1_timeout
    level_1_timeout-Kept collected ops k =
        let k' = timeout_all-kept s r in_run collected.validators_in_timeout ops k in
        Kept-or_logged P _ _ (opoc_assignment-Kept c s r in_run current _ _ false _ k') k'

    level_1_answers-Kept :
        (m : Map AccountId Data) (ops : Operations)
        → P ops
        → Kept P (level_1_answers c s current r m ops)
    unfolding level_1_answers
    level_1_answers-Kept [] ops k = Kept-panic P
    level_1_answers-Kept ((v, o) ∷ rest) ops k =
        let k' = complete_all-kept r (keys ((v, o) ∷ rest)) ops k in
        Kept-if P _ _ _ (Kept-ok P (closed.complete r o _ _ _ in_run k'))
          (Kept-or_logged P _ _ (opoc_assignment-Kept c s r in_run current _ _ false _ k') k')

    level_1-Kept :
        (ops : Operations) (collected : Collected)
        → P ops
        → Kept P (level_1_decide c s current r ops collected)
    unfolding level_1_decide
    level_1-Kept ops collected k = elim (list_cases collected.validators_in_timeout) [
      | inr (v, vs, e) ↦
          rw e (level_1_timeout-Kept (record collected { validators_in_timeout = v ∷ vs }) ops k)
      | inl none_late ↦ rw none_late (elim (list_cases collected.validators_not_completed) [
        | inr (v, vs, e) ↦ rw e (Kept-ok P k)
        | inl none_waits ↦ rw none_waits (level_1_answers-Kept collected.outputs ops k)
      ])
    ]

    verdict_on-Kept :
        (m : Map AccountId Data) (vote : Option (Data × ℕ)) (ops : Operations)
        → P ops
        → Kept P (verdict_on s r m ops vote)
    unfolding verdict_on
    verdict_on-Kept m none ops k = Kept-panic P
    verdict_on-Kept m (some (d, n)) ops k =
        Kept-ok P (closed.complete r d _ _ _ in_run (judge_outputs-kept s r in_run d m ops k))

    level_2-Kept :
        (ops : Operations) (collected : Collected)
        → P ops
        → Kept P (level_2_decide s r ops collected)
    unfolding level_2_decide level_2_verdict
    level_2-Kept ops collected k = elim (list_cases collected.validators_not_completed) [
      | inr (v, vs, e) ↦ rw e (Kept-ok P k)
      | inl none_waits ↦ rw none_waits (
          verdict_on-Kept collected.outputs
            (most_common (count_values (values collected.outputs) [])) _
            (timeout_all-kept s r in_run collected.validators_in_timeout ops k))
    ]

    run_levels-Kept :
        (level_1 : ℕ) (ops : Operations) → P ops → Kept P (run_levels c s current r level_1 ops)
    unfolding run_levels check_level_0 check_level_1 check_level_2
    run_levels-Kept level_1 ops k =
        Kept-if P _ _ _
          (Kept-or_logged P _ _ (opoc_assignment-Kept c s r in_run current 1 [] true ops k) k)
          (Kept-if P _ _ _ (level_0-Kept level_1 ops (opoc_get_outputs s r current) k) (
            Kept-if P _ _ _ (level_1-Kept ops (opoc_get_outputs s r current) k)
              (Kept-if P _ _ _ (level_2-Kept ops (opoc_get_outputs s r current) k) (Kept-ok P k))))

    run_input-Kept :
        (input : Input) (ops : Operations) → P ops → Kept P (run_input c s current r input ops)
    unfolding run_input
    run_input-Kept input ops k = Kept-after P (as_u32 input.nft_required_consensus) _ (λ level_1.
        Kept-after P (nft_file_is_usable c current input) _ (λ nft_usable.
          Kept-if P (not nft_usable) _ _ (Kept-ok P k) (
            Kept-after P (input_file_is_usable c current input) _ (λ input_usable.
              Kept-if P (not input_usable) _ _ (Kept-ok P k) (run_levels-Kept level_1 ops k)))))

  pub run_inputs-Kept :
      (c : Chain) (s : Storage) (current : BlockNumber) (m : Map RequestId Input) (ops : Operations)
      → ((r : RequestId) → contains (keys m) r ≡ true → R r)
      → P ops
      → Kept P (run_inputs c s current m ops)
  unfolding run_inputs
  run_inputs-Kept c s current [] ops in_run k = Kept-ok P k
  run_inputs-Kept c s current ((r, input) ∷ rest) ops in_run k =
      Kept-bind P (run_input c s current r input ops) _
        (run_input-Kept c s current r (in_run r (contains_first r (keys rest))) input ops k)
        (λ ops' k'.
          run_inputs-Kept c s current rest ops'
            (λ q inside. in_run q (contains_later r q (keys rest) inside)) k')
