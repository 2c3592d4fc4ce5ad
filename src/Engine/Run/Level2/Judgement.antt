-- ===== src/Engine/Run/Level2/Judgement.antt =====
-- What level 2 does to the validators of a request, by their outputs.
use uomi_node.Prelude.{
  ℕ, ◌+◌, ◌%◌, ◌^◌, Bool, true, false, not, Option, none, some, ◌≡◌, refl, [], ◌∷◌, arith,
  if◌then◌else◌,
}
use uomi_node.Prelude.Key.{nat_key, pair_key, bytes_key, ◌=?◌}
use uomi_node.Prelude.Lists.{Distinct}
use uomi_node.Prelude.Map.{Map, lookup, keys, or_default, lookup-insert, contains-keys}
use uomi_node.Engine.{AccountId, RequestId, Data, Storage, Operations}
use uomi_node.Engine.Works.{
  opoc_nodes_works_operations_remove, opoc_assignment_operations_remove,
  opoc_nodes_errors_operations_incr, opoc_blacklist_operations_add,
}
use uomi_node.Engine.Deassignment.{
  opoc_deassignment_per_invalid_output, opoc_deassignment_per_completed,
}
use uomi_node.Engine.Run.Level2.{judge_outputs}

-- Whether a validator has given another output than the consensus.
abbrev pub is_wrong : Data → Option Data → Bool
is_wrong consensus none = false
is_wrong consensus (some o) = not (o =? consensus)

-- The errors of a validator as the operations have them, or as they are stored.
abbrev pub errors_of : Storage → Operations → AccountId → ℕ
errors_of s ops v =
    or_default (lookup v ops.nodes_errors_operations) (or_default (lookup v s.nodes_errors) 0)

module _ (s : Storage) (r : RequestId) (consensus : Data) where
  -- What the loop leaves of one validator.
  pub record IsJudged (outputs : Map AccountId Data) (ops ops' : Operations) (v : AccountId)
      : Type 0 where
    pub blacklist : lookup v ops'.opoc_blacklist_operations ≡ (
        if is_wrong consensus (lookup v outputs)
        then some true
        else lookup v ops.opoc_blacklist_operations)
    pub assignment : lookup (r, v) ops'.opoc_assignment_operations ≡ (
        if is_wrong consensus (lookup v outputs)
        then some 0
        else lookup (r, v) ops.opoc_assignment_operations)
    pub errors : errors_of s ops' v ≡ (
        if is_wrong consensus (lookup v outputs)
        then (errors_of s ops v + 1) % 2 ^ 32
        else errors_of s ops v)

  judge_one :
      (w : AccountId) (o : Data) (ops : Operations) (v : AccountId)
      → IsJudged
          ((w, o) ∷ [])
          ops
          (if o =? consensus
            then opoc_deassignment_per_completed w r ops
            else opoc_deassignment_per_invalid_output s r w ops)
          v
  unfolding opoc_deassignment_per_completed opoc_deassignment_per_invalid_output
      opoc_nodes_works_operations_remove opoc_assignment_operations_remove
      opoc_nodes_errors_operations_incr opoc_blacklist_operations_add lookup
  judge_one w o ops v = record {
    blacklist = ground (arith, lookup-insert w v true ops.opoc_blacklist_operations);
    assignment = ground (arith, lookup-insert (r, w) (r, v) 0 ops.opoc_assignment_operations);
    errors =
        ground
          (arith, lookup-insert w v ((errors_of s ops w + 1) % 2 ^ 32) ops.nodes_errors_operations);
  }

  -- The loop over the outputs of level 2 blacklists exactly the validators whose output is not the
  -- consensus, takes the request from them and counts one error more; the blacklist, the assignment
  -- and the errors of every other validator stay, if no validator has two outputs.
  pub judge_outputs-IsJudged :
      (outputs : Map AccountId Data) (ops : Operations) (v : AccountId)
      → Distinct (keys outputs)
      → IsJudged outputs ops (judge_outputs s r consensus outputs ops) v
  unfolding judge_outputs lookup
  judge_outputs-IsJudged [] ops v d = record { blacklist = refl; assignment = refl; errors = refl }
  judge_outputs-IsJudged ((w, o) ∷ outputs) ops v d =
      let ops' =
        if o =? consensus
        then opoc_deassignment_per_completed w r ops
        else opoc_deassignment_per_invalid_output s r w ops in
      let one = judge_one w o ops v in
      let rest = judge_outputs-IsJudged outputs ops' v d.1 in
      record {
        blacklist = ground (arith, one.blacklist, rest.blacklist, contains-keys outputs w, d.0);
        assignment = ground (arith, one.assignment, rest.assignment, contains-keys outputs w, d.0);
        errors = ground (arith, one.errors, rest.errors, contains-keys outputs w, d.0);
      }
