-- ===== src/Engine/Run/Level2.antt =====
-- pallets/uomi-engine/src/opoc.rs: the branch of `opoc_run` for a request with more assignments
-- than its required consensus.
pub mod Majority
pub mod Judgement
pub mod Verdict
pub mod Check
use uomi_node.Prelude.{
  ℕ, ◌+◌, ◌%◌, ◌^◌, Option, none, some, List, [], ◌∷◌, Outcome, ok, panic, leb, if◌then◌else◌,
}
use uomi_node.Prelude.Key.{nat_key, bytes_key, ◌=?◌}
use uomi_node.Prelude.Lists.{length}
use uomi_node.Prelude.Map.{Map, values, lookup, insert, or_default}
use uomi_node.Engine.{AccountId, RequestId, BlockNumber, Data, EngineError, Storage, Operations}
use uomi_node.Engine.Deassignment.{
  opoc_deassignment_per_invalid_output, opoc_deassignment_per_completed,
}
use uomi_node.Engine.Outputs.{Collected, opoc_get_outputs}
use uomi_node.Engine.Run.Level1.{timeout_all}
use uomi_node.Engine.Works.{opoc_complete}

-- `*value_counts.entry(value).or_insert(0) += 1`, over all values
unfoldable pub count_values : List Data → Map Data ℕ → Map Data ℕ
count_values [] counts = counts
count_values (v ∷ vs) counts =
    count_values vs (insert v (or_default (lookup v counts) 0 + 1) counts)

-- `max_by_key` keeps the last of several maxima.
unfoldable pub max_by_count : Data × ℕ → Map Data ℕ → Data × ℕ
max_by_count best [] = best
max_by_count best (entry ∷ rest) = max_by_count (if leb best.1 entry.1 then entry else best) rest

unfoldable pub most_common : Map Data ℕ → Option (Data × ℕ)
unfolding max_by_count
most_common [] = none
most_common (entry ∷ rest) = some (max_by_count entry rest)

-- The loop over the outputs: a validator with another output is punished, the others released.
unfoldable pub judge_outputs :
    Storage → RequestId → Data → Map AccountId Data → Operations → Operations
judge_outputs s request_id consensus [] ops = ops
judge_outputs s request_id consensus ((v, output) ∷ rest) ops =
    judge_outputs s request_id consensus rest (
      if output =? consensus
      then opoc_deassignment_per_completed v request_id ops
      else opoc_deassignment_per_invalid_output s request_id v ops)

-- Nobody answered: `expect` panics.
unfoldable pub verdict_on :
    Storage
    → RequestId
    → Map AccountId Data
    → Operations
    → Option (Data × ℕ)
    → Outcome EngineError Operations
verdict_on s request_id outputs ops none = panic
verdict_on s request_id outputs ops (some (consensus, count)) = ok (
    opoc_complete request_id consensus (length outputs % 2 ^ 32) (count % 2 ^ 32)
      (judge_outputs s request_id consensus outputs ops))

unfoldable pub level_2_verdict :
    Storage → RequestId → Map AccountId Data → Operations → Outcome EngineError Operations
level_2_verdict s request_id outputs ops =
    verdict_on s request_id outputs ops (most_common (count_values (values outputs) []))

-- The decision on what `opoc_get_outputs` has found.
unfoldable pub level_2_decide :
    Storage → RequestId → Operations → Collected → Outcome EngineError Operations
level_2_decide s request_id ops collected = elim collected.validators_not_completed [
  | waiting ∷ _ ↦ ok ops
  | [] ↦
      level_2_verdict s request_id collected.outputs
        (timeout_all s request_id collected.validators_in_timeout ops)
]

unfoldable pub check_level_2 :
    Storage → BlockNumber → RequestId → Operations → Outcome EngineError Operations
check_level_2 s current_block request_id ops =
    level_2_decide s request_id ops (opoc_get_outputs s request_id current_block)
