-- ===== src/Engine/Assignment/Overflow.antt =====
-- When the expiration of a validator that is drawn does not fit 256 bits.
use uomi_node.Prelude.{
  ℕ, ◌+◌, ◌≤◌, ◌<◌, ◌^◌, true, false, ◌≡◌, refl, ◌⊎◌, inl, inr, List, [], ◌∷◌, arith, ok, panic,
  if◌then◌else◌, Bool-cases, ltb,
}
use uomi_node.Prelude.Key.{nat_key, pair_key}
use uomi_node.Prelude.Map.{lookup, insert, or_default, lookup-insert, keys, iter_prefix}
use uomi_node.Engine.{
  AccountId, RequestId, BlockNumber, Storage, Operations, add_u256, default_input,
}
use uomi_node.Engine.Selection.{works_or_empty}
use uomi_node.Engine.Works.{
  overlay_works, dedup, sort, opoc_blacklist_operations_remove, opoc_nodes_works_operations_add,
  opoc_nodes_works_operations_sum_execution_max_time, sum_execution_max_time,
  opoc_assignment_operations_add,
}
use uomi_node.Engine.Assignment.{clear_blacklist, give_work, assign_validator}

module _ (s : Storage) where
  -- The sum of the blocks of requests, however large
  abbrev pub total_time : ℕ → List RequestId → ℕ
  total_time sum [] = sum
  total_time sum (r ∷ rs) =
      total_time (sum + (or_default (lookup r s.inputs) default_input).nft_execution_max_time) rs

  total_time-ge : (sum : ℕ) (rs : List RequestId) → sum ≤ total_time sum rs
  total_time-ge sum [] = omega arith
  total_time-ge sum (r ∷ rs) = omega (
    arith,
    total_time-ge (sum + (or_default (lookup r s.inputs) default_input).nft_execution_max_time) rs,
  )

  -- The sum is computed where it fits 256 bits, and panics where it does not.
  sum-total_time :
      (sum : ℕ) (rs : List RequestId)
      → sum < 2 ^ 256
      → sum_execution_max_time s sum rs
        ≡ (if ltb (total_time sum rs) (2 ^ 256) then ok (total_time sum rs) else panic)
  unfolding sum_execution_max_time add_u256
  sum-total_time sum [] fits =
      let small : ltb sum (2 ^ 256) ≡ true = ground (arith, fits) in rw small refl
  sum-total_time sum (r ∷ rs) fits =
      let next = sum + (or_default (lookup r s.inputs) default_input).nft_execution_max_time in
      elim (Bool-cases (ltb next (2 ^ 256))) [
        | inl small ↦ rw small (sum-total_time next rs (ground (arith, small)))
        | inr large ↦
            let over : ltb (total_time next rs) (2 ^ 256) ≡ false =
              ground (arith, large, total_time-ge next rs) in
            rw (large, over) refl
      ]

  -- The blocks of all requests that the validator works on once it has `r` too.
  abbrev pub planned : RequestId → AccountId → Operations → ℕ
  planned r v ops = total_time 0 (
      dedup (
        sort (
          overlay_works (insert r true (works_or_empty (lookup v ops.nodes_works_operations)))
            (keys (iter_prefix v s.nodes_works)))))

module _ (s : Storage) (r : RequestId) (current : BlockNumber) where
  pub works-clear_blacklist :
      (v : AccountId) (ops : Operations)
      → (clear_blacklist s v ops).nodes_works_operations ≡ ops.nodes_works_operations
  unfolding clear_blacklist opoc_blacklist_operations_remove
  works-clear_blacklist v ops = ground arith

  works-give_work :
      (v : AccountId) (ops : Operations)
      → works_or_empty (lookup v (give_work s r v ops).nodes_works_operations)
        ≡ insert r true (works_or_empty (lookup v ops.nodes_works_operations))
  unfolding give_work opoc_nodes_works_operations_add
  works-give_work v ops =
      let works = (clear_blacklist s v ops).nodes_works_operations in
      ground (
        arith,
        lookup-insert v v (insert r true (works_or_empty (lookup v works))) works,
        works-clear_blacklist v ops,
      )

  -- One validator: the step panics exactly if its expiration does not fit 256 bits.
  pub assign_validator-cases :
      (v : AccountId) (ops : Operations)
      → ((current + planned s r v ops < 2 ^ 256)
          × (ops' : Operations) × (assign_validator s r current v ops ≡ ok ops'))
        ⊎ ((2 ^ 256 ≤ current + planned s r v ops) × (assign_validator s r current v ops ≡ panic))
  unfolding assign_validator opoc_nodes_works_operations_sum_execution_max_time add_u256
  assign_validator-cases v ops =
      let n = planned s r v ops in
      rw (works-give_work v ops, sum-total_time s 0 _ (omega arith))
        (elim (Bool-cases (ltb n (2 ^ 256))) [
          | inr large ↦ inr (ground (arith, large), rw large refl)
          | inl small ↦ elim (Bool-cases (ltb (current + n) (2 ^ 256))) [
            | inl fits ↦ inl (
              ground (arith, fits),
              opoc_assignment_operations_add r v (current + n) (give_work s r v ops),
              rw (small, fits) refl,
            )
            | inr over ↦ inr (ground (arith, over), rw (small, over) refl)
          ]
        ])
