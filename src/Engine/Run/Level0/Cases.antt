-- ===== src/Engine/Run/Level0/Cases.antt =====
-- What level 0 does with a request, by the state of its only validator, and whom it spreads to.
use uomi_node.Prelude.{
  ◌-◌, ◌≤◌, ◌<◌, ◌^◌, ◌≢◌, ◌⊎◌, true, false, List, panic, arith, ==_iff, ℕ, Option, none, some, ◌≡◌,
  refl, ap, ◌∙◌, inl, inr, [], ◌∷◌, Outcome, ok, ltb, if◌then◌else◌, Option-cases, Bool-cases,
}
use uomi_node.Prelude.Key.{nat_key, pair_key}
use uomi_node.Prelude.Map.{
  lookup, insert, lookup-insert, iter_prefix, contains-keys, lookup-iter_prefix,
}
use uomi_node.Engine.{
  AccountId, RequestId, BlockNumber, Data, EngineError, Chain, Storage, Operations,
}
use uomi_node.Engine.Outputs.{nothing_collected, opoc_get_outputs, collect, collect_one}
use uomi_node.Engine.Selection.{works_or_empty}
use uomi_node.Engine.Selection.Choice.{IsChoice, eligible}
use uomi_node.Engine.Works.{opoc_nodes_works_operations_remove, opoc_blacklist_operations_check}
use uomi_node.Engine.Deassignment.{opoc_deassignment_per_completed}
use uomi_node.Engine.Assignment.Effect.{IsGiven, IsKept, IsKept-twice}
use uomi_node.Engine.Assignment.Given.{Overflows, opoc_assignment-IsGiven}
use uomi_node.Prelude.Lists.{length, contains, Distinct}
use uomi_node.Engine.Run.Level0.{
  check_level_0, level_0_decide, level_0_answer, level_0_completed, level_0_timeout,
}

-- The branch that the state of the validator calls for.
abbrev pub level_0_branch :
    Chain
    → Storage
    → BlockNumber
    → RequestId
    → ℕ
    → AccountId
    → BlockNumber
    → Option Data
    → Operations
    → Outcome EngineError Operations
level_0_branch c s current r level_1 v e (some output) ops =
    level_0_completed c s current r level_1 v output ops
level_0_branch c s current r level_1 v e none ops =
    if ltb e current then level_0_timeout c s current r v ops else ok ops

collected_one :
    (s : Storage) (r : RequestId) (current : BlockNumber) (v : AccountId) (e : BlockNumber)
    → iter_prefix r s.opoc_assignment ≡ (v, e) ∷ []
    → opoc_get_outputs s r current ≡ collect_one s r current v e nothing_collected
unfolding opoc_get_outputs collect
collected_one s r current v e one = rw one

-- What is collected of a validator that has answered, and of one that has not.
one_answered :
    (s : Storage) (r : RequestId) (current : BlockNumber) (v : AccountId) (e : BlockNumber)
    (o : Data)
    → lookup (r, v) s.nodes_outputs ≡ some o
    → collect_one s r current v e nothing_collected
      ≡ record nothing_collected { outputs = (v, o) ∷ [] }
unfolding collect_one insert lookup
one_answered s r current v e o given =
    rw (
      contains-keys (iter_prefix r s.nodes_outputs) v,
      lookup-iter_prefix r v s.nodes_outputs,
      given,
    )

one_silent :
    (s : Storage) (r : RequestId) (current : BlockNumber) (v : AccountId) (e : BlockNumber)
    → lookup (r, v) s.nodes_outputs ≡ none
    → collect_one s r current v e nothing_collected ≡ (
        if ltb e current
        then record nothing_collected { validators_in_timeout = v ∷ [] }
        else record nothing_collected { validators_not_completed = v ∷ [] })
unfolding collect_one
one_silent s r current v e silent = rw (
  contains-keys (iter_prefix r s.nodes_outputs) v,
  lookup-iter_prefix r v s.nodes_outputs,
  silent,
)

decide_one :
    (c : Chain) (s : Storage) (current : BlockNumber) (r : RequestId) (level_1 : ℕ)
    (ops : Operations) (v : AccountId) (e : BlockNumber)
    → level_0_decide c s current r level_1 ops (collect_one s r current v e nothing_collected)
      ≡ level_0_branch c s current r level_1 v e (lookup (r, v) s.nodes_outputs) ops
decide_one c s current r level_1 ops v e = elim (Option-cases (lookup (r, v) s.nodes_outputs)) [
  | inl silent ↦
      rw (silent, one_silent s r current v e silent)
        (elim (Bool-cases (ltb e current)) [
          | inl late ↦ rw late (unfold level_0_decide in refl)
          | inr early ↦ rw early (unfold level_0_decide in refl)
        ])
  | inr (o, given) ↦
      rw (given, one_answered s r current v e o given)
        (unfold level_0_decide in unfold level_0_answer in refl)
]

-- Level 0 goes by the state of the only validator; the missing output that `unwrap` would panic on does not
-- arise.
check_level_0-cases :
    (c : Chain) (s : Storage) (current : BlockNumber) (r : RequestId) (level_1 : ℕ)
    (ops : Operations) (v : AccountId) (e : BlockNumber)
    → iter_prefix r s.opoc_assignment ≡ (v, e) ∷ []
    → check_level_0 c s current r level_1 ops
      ≡ level_0_branch c s current r level_1 v e (lookup (r, v) s.nodes_outputs) ops
unfolding check_level_0
check_level_0-cases c s current r level_1 ops v e one =
    ap (level_0_decide c s current r level_1 ops) (collected_one s r current v e one)
    ∙ decide_one c s current r level_1 ops v e

-- The request spreads: of the validators drawn none has answered before, each has the request, the
-- one that has answered is released from it, and every other validator keeps all it had.
pub record IsSpread (s : Storage) (r : RequestId) (current : BlockNumber) (v : AccountId)
    (vs : List AccountId) (ops ops' : Operations) : Type 0 where
  pub given : (w : AccountId) → contains vs w ≡ true → IsGiven s r current ops' w
  pub released : lookup r (works_or_empty (lookup v ops'.nodes_works_operations)) ≡ some false
  pub kept : (w : AccountId) → contains vs w ≡ false → v ≢ w → IsKept s r current ops ops' w

works-released :
    (v : AccountId) (r : RequestId) (ops : Operations)
    → lookup r
        (works_or_empty (lookup v (opoc_deassignment_per_completed v r ops).nodes_works_operations))
      ≡ some false
unfolding opoc_deassignment_per_completed opoc_nodes_works_operations_remove
works-released v r ops =
    let works = works_or_empty (lookup v ops.nodes_works_operations) in
    ground (
      arith,
      lookup-insert v v (insert r false works) ops.nodes_works_operations,
      lookup-insert r r false works,
    )

released-IsKept :
    (s : Storage) (current : BlockNumber) (v w : AccountId) (r : RequestId) (ops : Operations)
    → v ≢ w
    → IsKept s r current ops (opoc_deassignment_per_completed v r ops) w
unfolding opoc_deassignment_per_completed opoc_nodes_works_operations_remove
    opoc_blacklist_operations_check
released-IsKept s current v w r ops other =
    let works = works_or_empty (lookup v ops.nodes_works_operations) in
    record {
      assignment = λ q. refl;
      blacklist = refl;
      works = ground (
        arith,
        lookup-insert v w (insert r false works) ops.nodes_works_operations,
        other,
        ==_iff v w,
      );
    }

outside :
    (c : Chain) (v : AccountId) (number : ℕ) (vs : List AccountId)
    → IsChoice c (v ∷ []) number vs
    → contains vs v ≡ false
outside c v number vs choice = elim (Bool-cases (contains vs v)) [
  | inl drawn ↦ absurd (ground (arith, choice.allowed v drawn))
  | inr new ↦ new
]

-- Where the only validator of a request has answered and the request requires a consensus `n` of two or
-- more, below 2 ^ 64, level 0 draws `n - 1` further validators, all different, active and other than the
-- one that has answered, as long as so many are eligible and the staking pallet lists no validator
-- twice. Either one of them would get an expiration that does not fit 256 bits, and the run panics; or
-- each gets the request, the first validator is released from it, and all others keep what they had.
pub check_level_0-spreads :
    (c : Chain) (s : Storage) (current : BlockNumber) (r : RequestId) (n : ℕ) (ops : Operations)
    (v : AccountId) (e : BlockNumber) (o : Data)
    → iter_prefix r s.opoc_assignment ≡ (v, e) ∷ []
    → lookup (r, v) s.nodes_outputs ≡ some o
    → 1 < n
    → n < 2 ^ 64
    → n - 1 ≤ length (eligible c (v ∷ []))
    → Distinct c.validators
    → (vs : List AccountId) × IsChoice c (v ∷ []) (n - 1) vs
      × ((Overflows s r current vs (opoc_deassignment_per_completed v r ops)
            × (check_level_0 c s current r n ops ≡ panic))
          ⊎ ((ops' : Operations) × (check_level_0 c s current r n ops ≡ ok ops')
              × IsSpread s r current v vs ops ops'))
unfolding level_0_completed
check_level_0-spreads c s current r n ops v e o one answered two small room d =
    let released = opoc_deassignment_per_completed v r ops in
    let more : ltb 1 n ≡ true = ground (arith, two) in
    let (vs, choice, drawn) =
      opoc_assignment-IsGiven c s r current (n - 1) (v ∷ []) false released (omega (arith, two))
        (omega (arith, small)) room d in
    let new = outside c v (n - 1) vs choice in
    (
      vs,
      choice,
      rw (check_level_0-cases c s current r n ops v e one, answered, more)
          (elim drawn [
            | inl (over, stops) ↦ inl (over, rw stops refl)
            | inr (fit, ops', done, given, kept) ↦ inr (
              ops',
              rw done refl,
              record {
                given = given;
                released = rw ((kept v new).works) (works-released v r ops);
                kept = λ w out other.
                    IsKept-twice s r current (released-IsKept s current v w r ops other)
                      (kept w out);
              },
            )
          ]),
    )
