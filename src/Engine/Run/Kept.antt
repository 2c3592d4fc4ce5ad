-- ===== src/Engine/Run/Kept.antt =====
-- What a run of OPoC keeps of its operations, from the changes that it is made of.
pub mod Levels
use uomi_node.Prelude.{
  ℕ, ◌-◌, Bool, true, false, not, none, some, Option, ◌≡◌, ◌⊎◌, refl, subst, inl, inr, List, [],
  ◌∷◌, arith, Outcome, ok, err, panic, ◌>>=◌, or_logged, ok-injective, if◌then◌else◌, ltb,
}
use uomi_node.Prelude.Key.{nat_key, pair_key, bytes_key}
use uomi_node.Prelude.Lists.{contains}
use uomi_node.Prelude.Map.{Map, keys, values, insert}
use uomi_node.Engine.{
  AccountId, RequestId, BlockNumber, Data, EngineError, Input, Chain, Storage, Operations, add_u256,
}
use uomi_node.Engine.Selection.{opoc_assignment_get_random_validators}
use uomi_node.Engine.Works.{
  opoc_complete, opoc_assignment_operations_add, opoc_nodes_works_operations_sum_execution_max_time,
}
use uomi_node.Engine.Deassignment.{
  opoc_deassignment_per_timeout, opoc_deassignment_per_invalid_output,
  opoc_deassignment_per_completed,
}
use uomi_node.Engine.Assignment.{give_work, assign_validator, assign_validators, opoc_assignment}
use uomi_node.Engine.Outputs.{Collected, opoc_get_outputs}
use uomi_node.Engine.Run.{
  as_u32, nft_file_is_usable, input_file_is_usable, run_levels, run_input, run_inputs,
}
use uomi_node.Engine.Run.Level0.{
  level_0_timeout, level_0_completed, level_0_answer, level_0_decide, check_level_0,
}
use uomi_node.Engine.Run.Level1.{
  timeout_all, complete_all, level_1_timeout, level_1_answers, level_1_decide, check_level_1,
}
use uomi_node.Engine.Run.Level2.{
  most_common, count_values, judge_outputs, verdict_on, level_2_verdict, level_2_decide,
  check_level_2,
}

list_cases : {A : Type 0} (xs : List A) → (xs ≡ []) ⊎ ((a : A) × (as' : List A) × (xs ≡ a ∷ as'))
list_cases [] = inl refl
list_cases (x ∷ xs) = inr (x, xs, refl)

contains_first : (r : RequestId) (rs : List RequestId) → contains (r ∷ rs) r ≡ true
contains_first r rs = ground (arith)

contains_later :
    (r q : RequestId) (rs : List RequestId) → contains rs q ≡ true → contains (r ∷ rs) q ≡ true
contains_later r q rs inside = ground (arith, inside)

-- A property of operations that every change of a run keeps, for a request that it may be about.
pub record Closed (P : Operations → Type 0) (R : RequestId → Type 0) : Type 0 where
  pub completed :
      (v : AccountId) (r : RequestId) (ops : Operations)
      → P ops
      → P (opoc_deassignment_per_completed v r ops)
  pub invalid :
      (s : Storage) (r : RequestId) (v : AccountId) (ops : Operations)
      → R r
      → P ops
      → P (opoc_deassignment_per_invalid_output s r v ops)
  pub timeout :
      (s : Storage) (r : RequestId) (v : AccountId) (ops : Operations)
      → R r
      → P ops
      → P (opoc_deassignment_per_timeout s r v ops)
  pub work :
      (s : Storage) (r : RequestId) (v : AccountId) (ops : Operations)
      → P ops
      → P (give_work s r v ops)
  pub assigned :
      (r : RequestId) (v : AccountId) (e : BlockNumber) (ops : Operations)
      → R r
      → P ops
      → P (record ops {
        opoc_assignment_operations = insert (r, v) e ops.opoc_assignment_operations;
      })
  pub complete :
      (r : RequestId) (d : Data) (executions agreeing : ℕ) (ops : Operations)
      → R r
      → P ops
      → P (opoc_complete r d executions agreeing ops)

module _ (P : Operations → Type 0) where
  -- What holds of the operations that an outcome gives, if it gives any.
  pub record Kept (m : Outcome EngineError Operations) : Type 0 where
    pub holds : (ops : Operations) → m ≡ ok ops → P ops

  Kept-ok : {ops : Operations} → P ops → Kept (ok ops)
  Kept-ok k = record { holds = λ ops' e. subst P (ok-injective e) k }

  Kept-err : {e : EngineError} → Kept (err e)
  Kept-err = record { holds = λ ops h. cc }

  Kept-panic : Kept panic
  Kept-panic = record { holds = λ ops h. cc }

  Kept-bind :
      (m : Outcome EngineError Operations) (f : Operations → Outcome EngineError Operations)
      → Kept m
      → ((ops : Operations) → P ops → Kept (f ops))
      → Kept (m >>= f)
  Kept-bind (ok ops) f k h = h ops (k.holds ops refl)
  Kept-bind (err e) f k h = Kept-err
  Kept-bind panic f k h = Kept-panic

  -- After a step that gives something else.
  Kept-after :
      {A : Type 0} (m : Outcome EngineError A) (f : A → Outcome EngineError Operations)
      → ((a : A) → Kept (f a))
      → Kept (m >>= f)
  Kept-after (ok a) f h = h a
  Kept-after (err e) f h = Kept-err
  Kept-after panic f h = Kept-panic

  Kept-or_logged :
      (m : Outcome EngineError Operations) (ops : Operations)
      → Kept m
      → P ops
      → Kept (or_logged m ops)
  Kept-or_logged (ok a) ops m k = m
  Kept-or_logged (err e) ops m k = Kept-ok k
  Kept-or_logged panic ops m k = Kept-panic

  Kept-if :
      (b : Bool) (m n : Outcome EngineError Operations)
      → Kept m
      → Kept n
      → Kept (if b then m else n)
  Kept-if true m n h k = h
  Kept-if false m n h k = k
