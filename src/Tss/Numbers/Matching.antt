-- ===== src/Tss/Numbers/Matching.antt =====
-- The two maps of the ids are inverse to each other.
use uomi_node.Prelude.{
  ℕ, ◌+◌, ◌<◌, ◌^◌, some, ◌≡◌, refl, inl, inr, true, List, [], ◌∷◌, arith, ok, ◌==◌, ◌≤◌,
  Bool-cases, Option-cases, subst, none, ==_iff, ◌%◌,
}
use uomi_node.Prelude.Key.{nat_key}
use uomi_node.Prelude.Lists.{length, contains}
use uomi_node.Prelude.Map.{lookup, contains_key, lookup-put}
use uomi_node.Tss.{AccountId, Storage, unsigned, max_number_of_shares}
use uomi_node.Tss.Numbers.{
  register, assign_validator_id, assign_validator_ids, update_validators, number_validators,
  initialize_validator_ids, get_validator_id, get_validator_from_id,
}

-- An id leads to an account exactly when the account has the id, and the ids are below the next one.
pub record IsMatched (s : Storage) : Type 0 where
  pub there :
      (v : AccountId) (i : ℕ) → get_validator_id v s ≡ some i → get_validator_from_id i s ≡ some v
  pub back :
      (v : AccountId) (i : ℕ) → get_validator_from_id i s ≡ some v → get_validator_id v s ≡ some i
  pub below : (v : AccountId) (i : ℕ) → get_validator_id v s ≡ some i → i < s.next_validator_id

-- What one assignment does, where the counter has room.
pub record IsGrown (s s' : Storage) (n : ℕ) : Type 0 where
  pub matched : IsMatched s'
  pub kept :
      (v : AccountId) (i : ℕ) → get_validator_id v s ≡ some i → get_validator_id v s' ≡ some i
  pub counter : s'.next_validator_id ≤ s.next_validator_id + n

assign_validator_id-IsGrown :
    (v : AccountId) (s : Storage)
    → IsMatched s
    → s.next_validator_id + 1 < 2 ^ 32
    → IsGrown s (assign_validator_id v s) 1
unfolding assign_validator_id register get_validator_id get_validator_from_id
assign_validator_id-IsGrown v s m room = elim (Bool-cases (contains_key s.validator_ids v)) [
  | inl old ↦ rw old (record { matched = m; kept = λ w i h. h; counter = omega (arith) })
  | inr new ↦ rw new (record {
    matched = record {
      there = λ w i h. ground (
        arith,
        lookup-put v w s.next_validator_id s.validator_ids,
        lookup-put s.next_validator_id i v s.id_to_validator,
        m.there w i,
        m.below w i,
      );
      back = λ w i h. ground (
        arith,
        lookup-put v w s.next_validator_id s.validator_ids,
        lookup-put s.next_validator_id i v s.id_to_validator,
        m.back w i,
      );
      below =
          λ w i h. ground (arith, lookup-put v w s.next_validator_id s.validator_ids, m.below w i);
    };
    kept = λ w i h. ground (arith, lookup-put v w s.next_validator_id s.validator_ids);
    counter = omega (arith);
  })
]

-- What a chain of assignments does.
assign_validator_ids-IsGrown :
    (vs : List AccountId) (s : Storage)
    → IsMatched s
    → s.next_validator_id + length vs < 2 ^ 32
    → IsGrown s (assign_validator_ids vs s) (length vs)
unfolding assign_validator_ids
assign_validator_ids-IsGrown [] s m room = record {
  matched = m;
  kept = λ w i h. h;
  counter = omega (arith);
}
assign_validator_ids-IsGrown (v ∷ vs) s m room =
    let one = assign_validator_id-IsGrown v s m (omega (arith)) in
    let rest =
      assign_validator_ids-IsGrown vs (assign_validator_id v s) one.matched
        (omega (arith, one.counter)) in
    record {
      matched = rest.matched;
      kept = λ w i h. rest.kept w i (one.kept w i h);
      counter = omega (arith, one.counter, rest.counter);
    }

assign_validator_id-given :
    (v : AccountId) (s : Storage)
    → (i : ℕ) × (get_validator_id v (assign_validator_id v s) ≡ some i)
unfolding assign_validator_id register get_validator_id
assign_validator_id-given v s = elim (Option-cases (lookup v s.validator_ids)) [
  | inl none_yet ↦
      (s.next_validator_id, ground (arith, lookup-put v v s.next_validator_id s.validator_ids))
  | inr (i, given) ↦ (i, ground arith)
]

assign_validator_ids-given :
    (vs : List AccountId) (s : Storage) (v : AccountId)
    → IsMatched s
    → s.next_validator_id + length vs < 2 ^ 32
    → contains vs v ≡ true
    → (i : ℕ) × (get_validator_id v (assign_validator_ids vs s) ≡ some i)
unfolding assign_validator_ids
assign_validator_ids-given [] s v m room listed = cc
assign_validator_ids-given (w ∷ vs) s v m room listed =
    let one = assign_validator_id-IsGrown w s m (omega (arith)) in
    let s' = assign_validator_id w s in
    let room' : s'.next_validator_id + length vs < 2 ^ 32 = omega (arith, one.counter) in
    elim (Bool-cases (w == v)) [
      | inl same ↦
          let (i, given) = assign_validator_id-given w s in
          (
            i,
            (assign_validator_ids-IsGrown vs s' one.matched room').kept v i
                (subst (λ x. get_validator_id x s' ≡ some i) ((==_iff w v).0 same) given),
          )
      | inr other ↦ assign_validator_ids-given vs s' v one.matched room' (ground (arith))
    ]

-- The list of active validators has no part in the correspondence.
activated :
    {n : ℕ} (vs : List AccountId) (s s' : Storage)
    → IsGrown s s' n
    → IsGrown s (record s' { active_validators = vs }) n
unfolding get_validator_id get_validator_from_id
activated vs s s' g = record {
  matched = record { there = g.matched.there; back = g.matched.back; below = g.matched.below };
  kept = g.kept;
  counter = g.counter;
}

number-assign :
    (vs : List AccountId) (n : ℕ) (s : Storage)
    → record (number_validators vs n s).1 { next_validator_id = (number_validators vs n s).0 }
      ≡ assign_validator_ids vs (record s { next_validator_id = n })
unfolding number_validators assign_validator_ids assign_validator_id register
number-assign [] n s = refl
number-assign (v ∷ vs) n s = elim (Bool-cases (contains_key s.validator_ids v)) [
  | inl old ↦ rw old (number-assign vs n s)
  | inr new ↦ rw new (number-assign vs ((n + 1) % 2 ^ 32) (register v n s))
]

-- An unsigned update with a list of up to 65536 validators succeeds, if the counter has room for as
-- many ids: the list is the active one, each validator on it has an id, all ids that were given
-- before are kept, and ids and accounts stay in one-to-one correspondence.
pub update_validators-IsGrown :
    (vs : List AccountId) (s : Storage)
    → IsMatched s
    → length vs ≤ max_number_of_shares
    → s.next_validator_id + length vs < 2 ^ 32
    → (s' : Storage) × (update_validators unsigned vs s ≡ ok s')
      × (s'.active_validators ≡ vs)
      × IsGrown s s' (length vs)
      × ((v : AccountId) → contains vs v ≡ true → (i : ℕ) × (get_validator_id v s' ≡ some i))
unfolding update_validators get_validator_id
update_validators-IsGrown vs s m short room =
    let g = assign_validator_ids-IsGrown vs s m room in
    (
      record (assign_validator_ids vs s) { active_validators = vs },
      ground (arith),
      refl,
      activated vs s (assign_validator_ids vs s) g,
      λ v listed. assign_validator_ids-given vs s v m room listed,
    )

-- `initialize_validator_ids` is the assignment of an id to each validator with the counter set back
-- to 1.
pub initialize_validator_ids-assign :
    (vs : List AccountId) (s : Storage)
    → initialize_validator_ids vs s ≡ assign_validator_ids vs (record s { next_validator_id = 1 })
unfolding initialize_validator_ids
initialize_validator_ids-assign vs s = number-assign vs 1 s

kept_by_one :
    (v : AccountId) (s : Storage) (w : AccountId) (i : ℕ)
    → get_validator_id w s ≡ some i
    → get_validator_id w (assign_validator_id v s) ≡ some i
unfolding assign_validator_id register get_validator_id
kept_by_one v s w i h = ground (arith, lookup-put v w s.next_validator_id s.validator_ids)

kept_by_all :
    (vs : List AccountId) (s : Storage) (w : AccountId) (i : ℕ)
    → get_validator_id w s ≡ some i
    → get_validator_id w (assign_validator_ids vs s) ≡ some i
unfolding assign_validator_ids
kept_by_all [] s w i h = h
kept_by_all (v ∷ vs) s w i h = kept_by_all vs (assign_validator_id v s) w i (kept_by_one v s w i h)

first_given :
    (v : AccountId) (s : Storage)
    → get_validator_id v s ≡ none
    → get_validator_id v (assign_validator_id v (record s { next_validator_id = 1 })) ≡ some 1
unfolding assign_validator_id register get_validator_id
first_given v s missing = ground (arith, lookup-put v v 1 s.validator_ids)

-- Set back to 1 while ids are in use, the counter gives one of them away again: the first validator
-- without an id shares the id 1 with the one that has it.
pub initialize_validator_ids-clash :
    (v w : AccountId) (vs : List AccountId) (s : Storage)
    → get_validator_id w s ≡ some 1
    → get_validator_id v s ≡ none
    → ¬ IsMatched (initialize_validator_ids (v ∷ vs) s)
initialize_validator_ids-clash v w vs s one missing m =
    let s' = initialize_validator_ids (v ∷ vs) s in
    let v_one : get_validator_id v s' ≡ some 1 = rw (initialize_validator_ids-assign (v ∷ vs) s) (
      unfold assign_validator_ids in
      kept_by_all vs (assign_validator_id v (record s { next_validator_id = 1 })) v 1
        (first_given v s missing)) in
    let w_one : get_validator_id w s' ≡ some 1 = rw (initialize_validator_ids-assign (v ∷ vs) s) (
      kept_by_all (v ∷ vs) (record s { next_validator_id = 1 }) w 1
        (unfold get_validator_id in one)) in
    let v_there = m.there v 1 v_one in let w_there = m.there w 1 w_one in cc
