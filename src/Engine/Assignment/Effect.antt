-- ===== src/Engine/Assignment/Effect.antt =====
-- What one validator after another gets from an assignment, and that no other is touched.
use mathlib.Core.Bool.{false≢true}
use uomi_node.Prelude.{
  ℕ, ◌≤◌, Bool, true, false, some, ◌≡◌, refl, ◌∙◌, inl, inr, List, [], ◌∷◌, arith, ok, >>=_inverted,
  sym, ok-injective, subst, ◌==◌, if◌then◌else◌, Bool-cases,
}
use uomi_node.Prelude.Key.{nat_key, pair_key}
use uomi_node.Prelude.Lists.{contains}
use uomi_node.Prelude.Map.{Map, lookup, insert, lookup-insert}
use uomi_node.Engine.{AccountId, RequestId, BlockNumber, EngineError, Storage, Operations, add_u256}
use uomi_node.Engine.Selection.{works_or_empty}
use uomi_node.Engine.Works.{
  opoc_blacklist_operations_check, opoc_blacklist_operations_remove,
  opoc_nodes_works_operations_add, opoc_nodes_works_operations_sum_execution_max_time,
  opoc_assignment_operations_add,
}
use uomi_node.Engine.Assignment.Overflow.{works-clear_blacklist}
use uomi_node.Engine.Assignment.{clear_blacklist, give_work, assign_validator, assign_validators}

pub same :
    (v w : AccountId) (vs : List AccountId)
    → contains (v ∷ vs) w ≡ true
    → contains vs w ≡ false
    → v ≡ w
same v w vs n last = ground arith

module _ (s : Storage) (r : RequestId) (current : BlockNumber) where
  -- The request has reached a validator: with an expiration, off the blacklist, among its works.
  pub record IsGiven (ops : Operations) (v : AccountId) : Type 0 where
    pub expiration : BlockNumber
    pub assigned : lookup (r, v) ops.opoc_assignment_operations ≡ some expiration
    pub not_past : current ≤ expiration
    pub listed : opoc_blacklist_operations_check s ops v ≡ false
    pub busy : lookup r (works_or_empty (lookup v ops.nodes_works_operations)) ≡ some true

  -- Nothing is changed for a validator, nor for another request.
  pub record IsKept (ops ops' : Operations) (w : AccountId) : Type 0 where
    pub assignment :
        (q : RequestId)
        → lookup (q, w) ops'.opoc_assignment_operations
          ≡ lookup (q, w) ops.opoc_assignment_operations
    pub blacklist :
        opoc_blacklist_operations_check s ops' w ≡ opoc_blacklist_operations_check s ops w
    pub works : lookup w ops'.nodes_works_operations ≡ lookup w ops.nodes_works_operations

  assignment-clear_blacklist :
      (v : AccountId) (ops : Operations)
      → (clear_blacklist s v ops).opoc_assignment_operations ≡ ops.opoc_assignment_operations
  unfolding clear_blacklist opoc_blacklist_operations_remove
  assignment-clear_blacklist v ops = ground arith

  check-clear_blacklist :
      (v w : AccountId) (ops : Operations)
      → opoc_blacklist_operations_check s (clear_blacklist s v ops) w
        ≡ (if v == w then false else opoc_blacklist_operations_check s ops w)
  unfolding clear_blacklist opoc_blacklist_operations_remove opoc_blacklist_operations_check
  check-clear_blacklist v w ops =
      ground (arith, lookup-insert v w false ops.opoc_blacklist_operations)

  add_u256-ge : (a b : ℕ) {n : ℕ} → add_u256 {E = EngineError} a b ≡ ok n → a ≤ n
  unfolding add_u256
  add_u256-ge a b h = ground arith

  IsGiven-assigned :
      (v : AccountId) (ops : Operations) (e : BlockNumber)
      → current ≤ e
      → IsGiven (opoc_assignment_operations_add r v e (give_work s r v ops)) v
  IsGiven-assigned v ops e h = record {
    expiration = e;
    assigned =
        unfold opoc_assignment_operations_add in
        ground
          (arith, lookup-insert (r, v) (r, v) e (give_work s r v ops).opoc_assignment_operations);
    not_past = h;
    listed =
        unfold opoc_assignment_operations_add give_work opoc_nodes_works_operations_add
          opoc_blacklist_operations_check in
        unlisted;
    busy =
        unfold opoc_assignment_operations_add give_work opoc_nodes_works_operations_add in
        ground (
          arith,
          lookup-insert v v (insert r true works) (clear_blacklist s v ops).nodes_works_operations,
          lookup-insert r r true works,
        );
  }
    where
      works : Map RequestId Bool
      works = works_or_empty (lookup v (clear_blacklist s v ops).nodes_works_operations)

      unlisted : opoc_blacklist_operations_check s (clear_blacklist s v ops) v ≡ false
      unlisted = ground (arith, check-clear_blacklist v v ops)

  IsKept-others :
      (v w : AccountId) (ops : Operations) (e : BlockNumber)
      → (v == w) ≡ false
      → IsKept ops (opoc_assignment_operations_add r v e (give_work s r v ops)) w
  IsKept-others v w ops e h = record {
    assignment = λ q.
        unfold opoc_assignment_operations_add give_work opoc_nodes_works_operations_add in
        ground (
          arith,
          lookup-insert (r, v) (q, w) e (clear_blacklist s v ops).opoc_assignment_operations,
          assignment-clear_blacklist v ops,
          h,
        );
    blacklist =
        unfold opoc_assignment_operations_add give_work opoc_nodes_works_operations_add
          opoc_blacklist_operations_check in
        same_list;
    works =
        unfold opoc_assignment_operations_add give_work opoc_nodes_works_operations_add in
        ground (
          arith,
          lookup-insert v w
              (insert r true
                (works_or_empty (lookup v (clear_blacklist s v ops).nodes_works_operations)))
              (clear_blacklist s v ops).nodes_works_operations,
          works-clear_blacklist s r current v ops,
          h,
        );
  }
    where
      same_list :
          opoc_blacklist_operations_check s (clear_blacklist s v ops) w
          ≡ opoc_blacklist_operations_check s ops w
      same_list = ground (arith, check-clear_blacklist v w ops, h)

  -- One validator: an error is impossible, only the sum may overflow.
  pub one_validator :
      (v : AccountId) (ops ops' : Operations)
      → assign_validator s r current v ops ≡ ok ops'
      → IsGiven ops' v × ((w : AccountId) → (v == w) ≡ false → IsKept ops ops' w)
  unfolding assign_validator
  one_validator v ops ops' h =
      let after = give_work s r v ops in
      let (sum, _, h1) =
        >>=_inverted (opoc_nodes_works_operations_sum_execution_max_time s after v) _ (sym h) in
      let (e, he, h2) = >>=_inverted (add_u256 current sum) _ (sym h1) in
      let result : opoc_assignment_operations_add r v e after ≡ ops' = ok-injective h2 in
      rw (← result)
        (IsGiven-assigned v ops e (add_u256-ge current sum he), λ w d. IsKept-others v w ops e d)

  -- A validator that keeps all it has after one step and another keeps it after both.
  pub IsKept-twice :
      {a b c : Operations} {w : AccountId} → IsKept a b w → IsKept b c w → IsKept a c w
  IsKept-twice p q = record {
    assignment = λ r. q.assignment r ∙ p.assignment r;
    blacklist = q.blacklist ∙ p.blacklist;
    works = q.works ∙ p.works;
  }

  IsGiven-kept : {a b : Operations} {v : AccountId} → IsGiven a v → IsKept a b v → IsGiven b v
  IsGiven-kept {a} {b} {v} g k = record {
    expiration = g.expiration;
    assigned = k.assignment r ∙ g.assigned;
    not_past = g.not_past;
    listed = k.blacklist ∙ g.listed;
    busy = rw (k.works) g.busy;
  }

  IsKept-refl : (ops : Operations) (w : AccountId) → IsKept ops ops w
  IsKept-refl ops w = record { assignment = λ q. refl; blacklist = refl; works = refl }

  pub all_validators :
      (vs : List AccountId) (ops ops' : Operations)
      → assign_validators s r current vs ops ≡ ok ops'
      → ((v : AccountId) → contains vs v ≡ true → IsGiven ops' v)
        × ((w : AccountId) → contains vs w ≡ false → IsKept ops ops' w)
  unfolding assign_validators
  all_validators [] ops ops' h =
      (λ v n. absurd (false≢true n), λ w n. rw (← ok-injective h) (IsKept-refl ops w))
  all_validators (v ∷ vs) ops ops' h =
      let (mid, h1, h2) = >>=_inverted (assign_validator s r current v ops) _ (sym h) in
      let (given, kept) = one_validator v ops mid h1 in
      let (later, rest) = all_validators vs mid ops' h2 in
      (
        λ w n. elim (Bool-cases (contains vs w)) [
          | inl again ↦ later w again
          | inr last ↦
              IsGiven-kept (subst (λ x. IsGiven mid x) (same v w vs n last) given) (rest w last)
        ],
        λ w n. IsKept-twice (kept w (ground arith)) (rest w (ground arith)),
      )
