-- ===== src/Engine/Tests.antt =====
-- Runs of the OPoC model on small states, and instances of its theorems.
pub mod Runs
pub mod Requests
pub mod Worker
pub mod Steps
use uomi_node.Prelude.{ℕ, true, false, ◌≡◌, refl, List, [], ◌∷◌, arith, ok, err, panic}
use uomi_node.Prelude.Key.{nat_key, pair_key}
use uomi_node.Prelude.Map.{Map, lookup, iter_prefix}
use uomi_node.Engine.{
  Chain, Storage, Input, Operations, not_enough_validators, empty_storage, no_operations,
  default_input,
}
use uomi_node.Engine.Selection.{
  get_active_validators, opoc_nodes_works_operations_count, potential_validators, select,
  find_unused, byte_index, random_index, opoc_assignment_get_random_validators,
}
use uomi_node.Engine.Selection.Choice.{
  IsChoice, random_validators-IsChoice, random_validators-zero, random_validators-idle,
}
use uomi_node.Engine.Outputs.{opoc_get_outputs}
use uomi_node.Engine.Outputs.Partition.{IsCollected, opoc_get_outputs-IsCollected}
use uomi_node.Engine.Run.Level2.{judge_outputs, count_values, most_common}
use uomi_node.Engine.Run.Level2.Majority.{IsWinner, most_common-IsWinner}
use uomi_node.Engine.Run.Level2.Judgement.{IsJudged, judge_outputs-IsJudged}
use uomi_node.Engine.Store.{opoc_store_operations}
use uomi_node.Engine.Store.Effect.{IsStored, KeysDistinct, opoc_store_operations-IsStored}

-- Five validators, of which four are in the session.
abbrev pub chain : Chain
chain = record {
  validators = 11 ∷ 12 ∷ 13 ∷ 14 ∷ 15 ∷ [];
  session_validators = 15 ∷ 13 ∷ 12 ∷ 11 ∷ [];
  current_block_number = 2000000;
  random_seed_old = [];
  random_seed = 7 ∷ 1 ∷ 0 ∷ 0 ∷ 3 ∷ 0 ∷ 0 ∷ 9 ∷ [];
  get_cid_status = λ _. ok (0, 1);
}

abbrev request : Input
request = record default_input { nft_required_consensus = 2; nft_execution_max_time = 10 }

-- Request 1 is assigned to two validators, one of which has answered.
abbrev storage : Storage
storage = record empty_storage {
  inputs = (1, request) ∷ [];
  opoc_assignment = ((1, 11), 2000010) ∷ ((1, 12), 1999999) ∷ [];
  nodes_outputs = ((1, 11), 5 ∷ []) ∷ [];
  nodes_works = ((11, 1), true) ∷ ((12, 1), true) ∷ [];
}

drawn : opoc_assignment_get_random_validators chain storage [] 2 false (12 ∷ []) ≡ ok (15 ∷ 11 ∷ [])
unfolding opoc_assignment_get_random_validators potential_validators get_active_validators select
    find_unused byte_index random_index
drawn = refl

random_validators-IsChoice_example :
    (vs : List ℕ) × (opoc_assignment_get_random_validators chain storage [] 2 false (12 ∷ [])
      ≡ ok vs)
    × IsChoice chain (12 ∷ []) 2 vs
unfolding get_active_validators
random_validators-IsChoice_example =
    random_validators-IsChoice chain storage [] 2 false (12 ∷ []) (omega arith) (omega arith)
      (omega arith) (refl, (refl, (refl, (refl, (refl, tt)))))

drawn_idle : opoc_assignment_get_random_validators chain storage [] 1 true [] ≡ ok (15 ∷ [])
unfolding opoc_assignment_get_random_validators potential_validators get_active_validators select
    find_unused byte_index random_index opoc_nodes_works_operations_count iter_prefix lookup
drawn_idle = refl

random_validators-idle_example : opoc_nodes_works_operations_count storage [] 15 ≡ 0
unfolding get_active_validators opoc_nodes_works_operations_count iter_prefix lookup
random_validators-idle_example =
    random_validators-idle chain storage [] 1 [] (15 ∷ []) 15 (omega arith) (omega arith)
      (refl, (refl, (refl, (refl, (refl, tt))))) drawn_idle refl

opoc_get_outputs-IsCollected_example :
    IsCollected storage 1 2000000 (opoc_get_outputs storage 1 2000000) 12
opoc_get_outputs-IsCollected_example =
    (opoc_get_outputs-IsCollected storage 1 2000000 (refl, (refl, tt))).1 12

abbrev answers : Map ℕ (List ℕ)
answers = (11, 5 ∷ []) ∷ (12, 6 ∷ []) ∷ (13, 5 ∷ []) ∷ []

judge_outputs-IsJudged_example :
    IsJudged storage 1
      (5 ∷ [])
      answers
      no_operations
      (judge_outputs storage 1 (5 ∷ []) answers no_operations)
      12
judge_outputs-IsJudged_example =
    judge_outputs-IsJudged storage 1 (5 ∷ []) answers no_operations 12 (refl, (refl, (refl, tt)))

-- Validator 12 loses request 1, and request 2 is complete.
abbrev operations : Operations
operations = record no_operations {
  opoc_blacklist_operations = (12, true) ∷ [];
  opoc_assignment_operations = ((1, 12), 0) ∷ [];
  nodes_works_operations = (12, (1, false) ∷ []) ∷ [];
  nodes_timeouts_operations = (12, 1) ∷ [];
  outputs_operations = (2, (9 ∷ [], 1, 1)) ∷ [];
}

operations-KeysDistinct : KeysDistinct operations
operations-KeysDistinct = record {
  blacklist = (refl, tt);
  assignment = (refl, tt);
  works = (refl, tt);
  works_inside = ((refl, tt), tt);
  timeouts = (refl, tt);
  errors = tt;
  outputs = (refl, tt);
}

opoc_store_operations-IsStored_example :
    IsStored operations storage (opoc_store_operations chain operations storage) 1 12
opoc_store_operations-IsStored_example =
    opoc_store_operations-IsStored chain operations storage 1 12 operations-KeysDistinct
