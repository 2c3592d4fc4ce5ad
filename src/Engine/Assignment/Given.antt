-- ===== src/Engine/Assignment/Given.antt =====
-- What an assignment gives to the validators that are drawn.
use mathlib.Core.Bool.{false≢true}
use uomi_node.Prelude.{
  ℕ, ◌+◌, ◌≤◌, ◌<◌, ◌^◌, Bool, true, false, ◌≡◌, refl, ◌∙◌, ◌⊎◌, inl, inr, List, [], ◌∷◌, arith, ok,
  panic, sym, ==_iff, subst, ◌==◌, Bool-cases,
}
use uomi_node.Prelude.Key.{nat_key, pair_key}
use uomi_node.Prelude.Lists.{contains, length, Distinct}
use uomi_node.Engine.{AccountId, RequestId, BlockNumber, Chain, Storage, Operations}
use uomi_node.Engine.Selection.Choice.{IsChoice, eligible, random_validators-IsChoice}
use uomi_node.Engine.Assignment.Overflow.{planned, assign_validator-cases}
use uomi_node.Engine.Assignment.{assign_validators, opoc_assignment}
use uomi_node.Engine.Assignment.Effect.{same, IsGiven, IsKept, one_validator, all_validators}

module _ (s : Storage) (r : RequestId) (current : BlockNumber) where
  -- Some validator of the list would get an expiration that does not fit 256 bits.
  pub record Overflows (vs : List AccountId) (ops : Operations) : Type 0 where
    pub validator : AccountId
    pub drawn : contains vs validator ≡ true
    pub large : 2 ^ 256 ≤ current + planned s r validator ops

  abbrev pub FitsAll : List AccountId → Operations → Type 0
  FitsAll vs ops = (v : AccountId) → contains vs v ≡ true → current + planned s r v ops < 2 ^ 256

  planned-kept :
      (v : AccountId) (ops mid : Operations)
      → IsKept s r current ops mid v
      → planned s r v mid ≡ planned s r v ops
  planned-kept v ops mid k = rw (k.works) refl

  apart :
      (v w : AccountId) (vs : List AccountId)
      → contains vs v ≡ false
      → contains vs w ≡ true
      → (v == w) ≡ false
  apart v w vs n m = elim (Bool-cases (v == w)) [
    | inl e ↦
        absurd (false≢true (sym n ∙ subst (λ x. contains vs x ≡ true) (sym ((==_iff v w).0 e)) m))
    | inr e ↦ e
  ]

  assign_validators-cases :
      (vs : List AccountId) (ops : Operations)
      → Distinct vs
      → (Overflows vs ops × (assign_validators s r current vs ops ≡ panic))
        ⊎ (FitsAll vs ops × (ops' : Operations) × (assign_validators s r current vs ops ≡ ok ops'))
  unfolding assign_validators
  assign_validators-cases [] ops d = inr (λ v n. absurd (false≢true n), ops, refl)
  assign_validators-cases (v ∷ vs) ops d = elim (assign_validator-cases s r current v ops) [
    | inr (large, stop) ↦
        inl (record { validator = v; drawn = ground (arith); large = large }, rw stop refl)
    | inl (fits, mid, e) ↦
        let kept : (w : AccountId) → contains vs w ≡ true → planned s r w mid ≡ planned s r w ops =
          λ w m.
            planned-kept w ops mid
              ((one_validator s r current v ops mid e).1 w (apart v w vs d.0 m)) in
        elim (assign_validators-cases vs mid d.1) [
          | inl (over, stop) ↦ inl (
            record {
              validator = over.validator;
              drawn = ground (arith, over.drawn);
              large = rw (← kept over.validator over.drawn) over.large;
            },
            rw e stop,
          )
          | inr (all_fit, ops', done) ↦ inr (
            λ w n. elim (Bool-cases (contains vs w)) [
              | inl later ↦ rw (← kept w later) (all_fit w later)
              | inr gone ↦
                  subst (λ x. current + planned s r x ops < 2 ^ 256) (same v w vs n gone) fits
            ],
            ops',
            rw e done,
          )
        ]
  ]

-- With enough eligible validators an assignment draws as many as asked for, all different, active
-- and none excluded. Either one of them would get an expiration, the current block and the blocks of
-- all its requests with this one, that does not fit 256 bits, and the call panics; or all of them fit,
-- and the call succeeds: each drawn validator has the request at an expiration that is not past, is off
-- the blacklist and has the request among its works, and every other validator keeps all it had.
-- The amount is not 0 and below 2 ^ 64, and the staking pallet lists no validator twice.
pub opoc_assignment-IsGiven :
    (c : Chain) (s : Storage) (r : RequestId) (current : BlockNumber) (amount : ℕ)
    (exclude : List AccountId) (first_free : Bool) (ops : Operations)
    → 0 < amount
    → amount < 2 ^ 64
    → amount ≤ length (eligible c exclude)
    → Distinct c.validators
    → (vs : List AccountId) × IsChoice c exclude amount vs
      × ((Overflows s r current vs ops
            × (opoc_assignment c s r current amount exclude first_free ops ≡ panic))
          ⊎ (FitsAll s r current vs ops
              × (ops' : Operations) × (opoc_assignment c s r current amount exclude first_free ops
                  ≡ ok ops')
              × ((v : AccountId) → contains vs v ≡ true → IsGiven s r current ops' v)
              × ((w : AccountId) → contains vs w ≡ false → IsKept s r current ops ops' w)))
unfolding opoc_assignment
opoc_assignment-IsGiven c s r current amount exclude first_free ops pos small room d =
    let (vs, drawn, choice) =
      random_validators-IsChoice c s ops.nodes_works_operations amount first_free exclude pos small
        room d in
    (
      vs,
      choice,
      rw drawn (elim (assign_validators-cases s r current vs ops choice.distinct) [
        | inl stops ↦ inl stops
        | inr (fit, ops', e) ↦
            let (given, kept) = all_validators s r current vs ops ops' e in
            inr (fit, ops', e, given, kept)
      ]),
    )
