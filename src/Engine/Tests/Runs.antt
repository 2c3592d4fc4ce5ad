-- ===== src/Engine/Tests/Runs.antt =====
-- The levels of OPoC on a small chain.
use uomi_node.Prelude.{
  ℕ, ◌^◌, true, false, some, ◌≡◌, ◌≢◌, ◌⊎◌, refl, List, [], ◌∷◌, arith, ok, err, panic,
}
use uomi_node.Prelude.Key.{nat_key, pair_key, bytes_key}
use uomi_node.Prelude.Lists.{contains}
use uomi_node.Prelude.Map.{lookup, iter_prefix}
use uomi_node.Engine.{
  request_id_exists, Data, Chain, Storage, Operations, empty_storage, no_operations, default_input,
}
use uomi_node.Engine.Selection.{get_active_validators}
use uomi_node.Engine.Selection.Choice.{IsChoice}
use uomi_node.Engine.Assignment.{opoc_assignment}
use uomi_node.Engine.Assignment.Effect.{IsGiven, IsKept}
use uomi_node.Engine.Assignment.Given.{Overflows, FitsAll, opoc_assignment-IsGiven}
use uomi_node.Engine.Outputs.{opoc_get_outputs, collect, collect_one}
use uomi_node.Engine.Run.{
  opoc_run, run_inputs, run_input, as_u32, nft_file_is_usable, input_file_is_usable, run_levels,
}
use uomi_node.Engine.Calls.{unsigned, address_is_active_validator, store_nodes_outputs}
use uomi_node.Engine.Calls.Answers.{store_nodes_outputs-counted, store_nodes_outputs-keeps}
use uomi_node.Engine.Run.Bounds.{lost, opoc_run-stops}
use uomi_node.Engine.Run.Level0.{check_level_0, level_0_decide}
use uomi_node.Engine.Deassignment.{opoc_deassignment_per_completed}
use uomi_node.Engine.Run.Level0.Cases.{IsSpread, check_level_0-spreads}
use uomi_node.Engine.Run.Level1.{level_1_answers, level_2_validators}
use uomi_node.Engine.Run.Level1.Agreement.{level_1_answers-agree, level_1_answers-exhausted}

abbrev two_validators : Chain
two_validators = record {
  validators = 11 ∷ 12 ∷ [];
  session_validators = 11 ∷ 12 ∷ [];
  current_block_number = 2000000;
  random_seed_old = [];
  random_seed = 7 ∷ 1 ∷ 0 ∷ 0 ∷ [];
  get_cid_status = λ _. ok (0, 1);
}

abbrev one_assigned : Storage
one_assigned = record empty_storage { opoc_assignment = ((1, 11), 2000010) ∷ [] }

abbrev one : Data
one = 5 ∷ []

opoc_assignment-IsGiven_example :
    (vs : List ℕ) × IsChoice two_validators (12 ∷ []) 1 vs
    × ((Overflows one_assigned 1 2000000 vs no_operations
          × (opoc_assignment two_validators one_assigned 1 2000000 1 (12 ∷ []) true no_operations
              ≡ panic))
        ⊎ (FitsAll one_assigned 1 2000000 vs no_operations
            × (ops' : Operations) × (opoc_assignment two_validators one_assigned 1 2000000 1
                  (12 ∷ [])
                  true
                  no_operations
                ≡ ok ops')
            × ((v : ℕ) → contains vs v ≡ true → IsGiven one_assigned 1 2000000 ops' v)
            × ((w : ℕ)
                → contains vs w ≡ false
                → IsKept one_assigned 1 2000000 no_operations ops' w)))
unfolding get_active_validators
opoc_assignment-IsGiven_example =
    opoc_assignment-IsGiven two_validators one_assigned 1 2000000 1 (12 ∷ []) true no_operations
      (omega (arith)) (omega (arith)) (omega (arith)) (refl, (refl, tt))

answers_agree :
    (ops' : Operations) × (level_1_answers two_validators one_assigned 2000000 1
        ((11, one) ∷ (12, one) ∷ [])
        no_operations
      ≡ ok ops')
    × (lookup 1 ops'.outputs_operations ≡ some (one, 2, 2))
    × (ops'.opoc_blacklist_operations ≡ no_operations.opoc_blacklist_operations)
    × (ops'.opoc_assignment_operations ≡ no_operations.opoc_assignment_operations)
answers_agree =
    level_1_answers-agree two_validators one_assigned 2000000 1 11 one ((12, one) ∷ [])
      no_operations refl

nobody_left : level_2_validators two_validators (11 ∷ 12 ∷ []) ≡ []
unfolding level_2_validators get_active_validators
nobody_left = refl

level_1_answers-exhausted_example :
    level_1_answers two_validators one_assigned 2000000 1
      ((11, one) ∷ (12, 6 ∷ []) ∷ [])
      no_operations
    ≡ panic
level_1_answers-exhausted_example =
    level_1_answers-exhausted two_validators one_assigned 2000000 1 11 one ((12, 6 ∷ []) ∷ [])
      no_operations refl nobody_left

-- The only validator has answered, and one more is to be drawn.
abbrev one_answered : Storage
one_answered = record one_assigned { nodes_outputs = ((1, 11), one) ∷ [] }

check_level_0-spreads_example :
    (vs : List ℕ) × IsChoice two_validators (11 ∷ []) 1 vs
    × ((Overflows one_answered 1 2000000 vs (opoc_deassignment_per_completed 11 1 no_operations)
          × (check_level_0 two_validators one_answered 2000000 1 2 no_operations ≡ panic))
        ⊎ ((ops' : Operations) × (check_level_0 two_validators one_answered 2000000 1 2
                no_operations
              ≡ ok ops')
            × IsSpread one_answered 1 2000000 11 vs no_operations ops'))
unfolding get_active_validators iter_prefix lookup
check_level_0-spreads_example =
    check_level_0-spreads two_validators one_answered 2000000 1 2 no_operations 11 2000010 one refl
      refl (omega arith) (omega arith) (omega arith) (refl, (refl, tt))

-- Two validators have answered, one of them otherwise.
abbrev disputed : Storage
disputed = record one_assigned {
  opoc_assignment = ((1, 11), 2000010) ∷ ((1, 12), 2000010) ∷ [];
  nodes_outputs = ((1, 11), one) ∷ ((1, 12), 6 ∷ []) ∷ [];
}

-- Request 1 waits for its only validator.
abbrev waiting : Storage
waiting = record one_assigned {
  inputs = (1, record default_input { nft_required_consensus = 2 }) ∷ [];
}

ran : (ops : Operations) × (opoc_run two_validators waiting 2000000 ≡ ok ops)
unfolding opoc_run run_inputs run_input as_u32 nft_file_is_usable input_file_is_usable run_levels
    check_level_0 level_0_decide opoc_get_outputs collect collect_one iter_prefix lookup
ran = (_, refl)

-- After it a request that requires too much
abbrev overfull : Storage
overfull = record waiting {
  inputs =
      (1, record default_input { nft_required_consensus = 2 })
      ∷ (2, record default_input { nft_required_consensus = 2 ^ 32 })
      ∷ [];
}

opoc_run-stops_example :
    (opoc_run two_validators overfull 2000000
      ≡ lost (run_inputs two_validators overfull 2000000 waiting.inputs no_operations))
    × ((ops : Operations) → opoc_run two_validators overfull 2000000 ≢ ok ops)
opoc_run-stops_example =
    opoc_run-stops two_validators overfull 2000000 waiting.inputs [] 2
      (record default_input { nft_required_consensus = 2 ^ 32 }) refl (omega arith)

given : lookup (1, 11) waiting.opoc_assignment ≡ some 2000010
unfolding lookup
given = refl

store_nodes_outputs-counted_example :
    (s' : Storage) × (store_nodes_outputs two_validators unsigned 1 one 11 waiting ≡ ok s')
    × ((current : ℕ)
        → (lookup 11 (opoc_get_outputs s' 1 current).outputs ≡ some one)
          × (contains (opoc_get_outputs s' 1 current).validators_in_timeout 11 ≡ false)
          × (contains (opoc_get_outputs s' 1 current).validators_not_completed 11 ≡ false))
    × ((current w : ℕ)
        → 11 ≢ w
        → lookup w (opoc_get_outputs s' 1 current).outputs
          ≡ lookup w (opoc_get_outputs waiting 1 current).outputs)
    × ((again : Data)
        → store_nodes_outputs two_validators unsigned 1 again 11 s' ≡ err request_id_exists)
unfolding address_is_active_validator lookup
store_nodes_outputs-counted_example =
    store_nodes_outputs-counted two_validators 1 one 11 waiting 2000010 (refl, tt) refl given refl

stored : (s' : Storage) × (store_nodes_outputs two_validators unsigned 1 one 11 waiting ≡ ok s')
unfolding store_nodes_outputs address_is_active_validator lookup
stored = (_, refl)

answer_keeps_rest :
    (unsigned ≡ unsigned)
    × (address_is_active_validator two_validators 11 ≡ true)
    × ((q w : ℕ) (o : Data)
        → lookup (q, w) waiting.nodes_outputs ≡ some o
        → lookup (q, w) stored.0.nodes_outputs ≡ some o)
answer_keeps_rest =
    store_nodes_outputs-keeps two_validators unsigned 1 one 11 waiting stored.0 stored.1
