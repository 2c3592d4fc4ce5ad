-- ===== src/Engine/Selection/Choice.antt =====
-- What the selection of random validators guarantees: enough, distinct, eligible and, where the
-- request is new, idle validators; an error or a panic exactly where the source has one.
use native.Mathlib.Nat.{mod-eq_of_lt, div-le_self}
use uomi_node.Prelude.{
  ℕ, zero, suc, ◌/◌, ◌^◌, ◌≤◌, ◌<◌, min, ◌≡◌, subst, sym, ◌∙◌, inl, inr, Bool, true, false, not,
  List, [], arith, ok, err, panic, ok-injective, ltb, leb, ◌==◌, Bool-cases, lt→ltb,
}
use uomi_node.Prelude.Key.{nat_key}
use uomi_node.Prelude.Lists.{
  length, filter, contains, Distinct, length-filter-le, contains-filter, Distinct-filter,
}
use uomi_node.Prelude.Map.{Map}
use uomi_node.Engine.{AccountId, RequestId, Chain, Storage, not_enough_validators}
use uomi_node.Engine.Selection.{
  get_active_validators, opoc_nodes_works_operations_count, potential_validators, random_bytes,
  opoc_assignment_get_random_validators,
}
use uomi_node.Engine.Selection.Loop.{
  AllBelow, pick, length-pick, contains-pick, Distinct-pick, select_lem,
}

-- The active validators that are not excluded.
abbrev pub eligible : Chain → List AccountId → List AccountId
eligible c exclude = filter (λ a. not (contains exclude a)) (get_active_validators c)

module _ (c : Chain) (s : Storage) (works : Map AccountId (Map RequestId Bool))
    (exclude : List AccountId) where
  potential_room :
      (number : ℕ) (first_free : Bool)
      → number ≤ length (eligible c exclude)
      → number ≤ length (potential_validators c s works number first_free exclude)
  unfolding potential_validators
  potential_room number first_free h = ground arith

  potential-le :
      (number : ℕ) (first_free : Bool)
      → length (potential_validators c s works number first_free exclude)
        ≤ length (eligible c exclude)
  unfolding potential_validators
  potential-le number first_free = ground (
    arith,
    length-filter-le (λ a. opoc_nodes_works_operations_count s works a == 0) (eligible c exclude),
  )

  abbrev pub idle : List AccountId → List AccountId
  idle = filter (λ a. opoc_nodes_works_operations_count s works a == 0)

  potential_cases {κ} :
      (P : List AccountId → Type κ) (number : ℕ) (first_free : Bool)
      → P (eligible c exclude)
      → P (idle (eligible c exclude))
      → P (potential_validators c s works number first_free exclude)
  unfolding potential_validators
  potential_cases P number false all_of free = all_of
  potential_cases P number true all_of free =
      elim (Bool-cases (leb number (length (idle (eligible c exclude))))) [
        | inl enough ↦ rw enough free
        | inr short ↦ rw short all_of
      ]

  eligible-Distinct : Distinct c.validators → Distinct (eligible c exclude)
  unfolding get_active_validators
  eligible-Distinct d = Distinct-filter _ _ (Distinct-filter _ c.validators d)

  potential-Distinct :
      (number : ℕ) (first_free : Bool)
      → Distinct c.validators
      → Distinct (potential_validators c s works number first_free exclude)
  potential-Distinct number first_free d =
      potential_cases Distinct number first_free (eligible-Distinct d)
        (Distinct-filter _ (eligible c exclude) (eligible-Distinct d))

  eligible_lem :
      (v : AccountId)
      → contains (eligible c exclude) v ≡ true
      → (contains (get_active_validators c) v ≡ true) × (contains exclude v ≡ false)
  eligible_lem v h =
      ground (arith, contains-filter (λ a. not (contains exclude a)) (get_active_validators c) v)

  idle_lem :
      (vs : List AccountId) (v : AccountId)
      → contains (idle vs) v ≡ true
      → (contains vs v ≡ true) × (opoc_nodes_works_operations_count s works v ≡ 0)
  idle_lem vs v h =
      ground (arith, contains-filter (λ a. opoc_nodes_works_operations_count s works a == 0) vs v)

  potential-eligible :
      (number : ℕ) (first_free : Bool) (v : AccountId)
      → contains (potential_validators c s works number first_free exclude) v ≡ true
      → (contains (get_active_validators c) v ≡ true) × (contains exclude v ≡ false)
  potential-eligible number first_free v =
      potential_cases
        (λ vs.
          contains vs v ≡ true
          → (contains (get_active_validators c) v ≡ true) × (contains exclude v ≡ false))
        number first_free (eligible_lem v)
        (λ h. eligible_lem v (idle_lem (eligible c exclude) v h).0)

bytes_fit : (len number : ℕ) → min 4 (len / number) ≤ len
bytes_fit len number = omega (arith, div-le_self len number)

le→ltb : (a b : ℕ) → a ≤ b → ltb b a ≡ false
le→ltb a b h = ground arith

le→leb : (a b : ℕ) → a ≤ b → leb a b ≡ true
le→leb a b h = ground arith

positive : (n : ℕ) → 0 < n → (n == 0) ≡ false
positive n h = ground arith

le_lt : {a b n : ℕ} → a ≤ b → b < n → a < n
le_lt p q = omega arith

-- What a choice of `number` validators must be.
pub record IsChoice (c : Chain) (exclude : List AccountId) (number : ℕ) (vs : List AccountId)
    : Type 0 where
  pub enough : length vs ≡ number
  pub distinct : Distinct vs
  pub active : (v : AccountId) → contains vs v ≡ true → contains (get_active_validators c) v ≡ true
  pub allowed : (v : AccountId) → contains vs v ≡ true → contains exclude v ≡ false

module _ (c : Chain) (s : Storage) (works : Map AccountId (Map RequestId Bool)) (number : ℕ)
    (first_free : Bool) (exclude : List AccountId) where
  -- The candidates at distinct indices, when there are enough.
  choice_picks :
      0 < number
      → number < 2 ^ 64
      → number ≤ length (eligible c exclude)
      → Distinct c.validators
      → (used : List ℕ) × (opoc_assignment_get_random_validators c s works number first_free exclude
          ≡ ok (pick (potential_validators c s works number first_free exclude) used))
        × Distinct used
        × AllBelow (length (potential_validators c s works number first_free exclude)) used
        × (length used ≡ number)
  choice_picks pos small room d =
      let potential = potential_validators c s works number first_free exclude in
      let many = potential_room c s works exclude number first_free room in
      let bytes = random_bytes c in
      let (used, e, d', b, l) =
        select_lem bytes potential (min 4 (length bytes / number)) (bytes_fit (length bytes) number)
          number 0 [] (omega arith) tt tt in
      let full : length (pick potential used) ≡ number =
        omega (arith, l, length-pick potential used b) in
      (
        used,
        unfold opoc_assignment_get_random_validators in
            rw (
              mod-eq_of_lt small,
              le→ltb number _ many,
              positive number pos,
              e,
              full,
              le→ltb number number (omega arith),
            ),
        d',
        b,
        omega (arith, l),
      )

  -- With enough eligible validators the call succeeds: it returns as many as asked for, all
  -- different, each active and none excluded,
  -- if that is not 0 and below 2 ^ 64, and the staking pallet lists no validator twice.
  pub random_validators-IsChoice :
      0 < number
      → number < 2 ^ 64
      → number ≤ length (eligible c exclude)
      → Distinct c.validators
      → (vs : List AccountId) × (opoc_assignment_get_random_validators c s works number first_free
            exclude
          ≡ ok vs)
        × IsChoice c exclude number vs
  random_validators-IsChoice pos small room d =
      let potential = potential_validators c s works number first_free exclude in
      let (used, e, d', b, l) = choice_picks pos small room d in
      (
        pick potential used,
        e,
        record {
          enough = omega (arith, l, length-pick potential used b);
          distinct =
              Distinct-pick potential used
                (potential-Distinct c s works exclude number first_free d) d';
          active = λ v h.
              (potential-eligible c s works exclude number first_free v
                (contains-pick potential used v h)).0;
          allowed = λ v h.
              (potential-eligible c s works exclude number first_free v
                (contains-pick potential used v h)).1;
        },
      )

  -- With too few eligible validators for a number below 2 ^ 64 the call is refused.
  random_validators-few :
      number < 2 ^ 64
      → length (eligible c exclude) < number
      → opoc_assignment_get_random_validators c s works number first_free exclude
        ≡ err not_enough_validators
  unfolding opoc_assignment_get_random_validators
  random_validators-few small few = rw (
    mod-eq_of_lt small,
    lt→ltb _ _ (le_lt (potential-le c s works exclude number first_free) few),
  )

-- The call for no validators at all divides by zero, whoever is active.
pub random_validators-zero :
    (c : Chain) (s : Storage) (works : Map AccountId (Map RequestId Bool)) (first_free : Bool)
    (exclude : List AccountId)
    → opoc_assignment_get_random_validators c s works 0 first_free exclude ≡ panic
unfolding opoc_assignment_get_random_validators
random_validators-zero c s works first_free exclude = ground arith

-- A request that asks for idle validators first gets only idle ones when there are enough of them,
-- for a number below 2 ^ 64, if the staking pallet lists no validator twice.
pub random_validators-idle :
    (c : Chain) (s : Storage) (works : Map AccountId (Map RequestId Bool)) (number : ℕ)
    (exclude vs : List AccountId) (v : AccountId)
    → number < 2 ^ 64
    → number ≤ length (idle c s works exclude (eligible c exclude))
    → Distinct c.validators
    → opoc_assignment_get_random_validators c s works number true exclude ≡ ok vs
    → contains vs v ≡ true
    → opoc_nodes_works_operations_count s works v ≡ 0
random_validators-idle c s works zero exclude vs v small room d e h =
    cc (e, random_validators-zero c s works true exclude)
random_validators-idle c s works (suc n) exclude vs v small room d e h =
    let number = suc n in
    let free = idle c s works exclude (eligible c exclude) in
    let many : number ≤ length (eligible c exclude) = omega (
      arith,
      length-filter-le (λ a. opoc_nodes_works_operations_count s works a == 0) (eligible c exclude),
    ) in
    let (used, e', _, _, _) =
      choice_picks c s works number true exclude (omega arith) small many d in
    let from_idle : potential_validators c s works number true exclude ≡ free =
      unfold potential_validators in rw (le→leb number (length free) room) in
    let chosen : contains (potential_validators c s works number true exclude) v ≡ true =
      contains-pick (potential_validators c s works number true exclude) used v
        (subst (λ us. contains us v ≡ true) (ok-injective (sym e ∙ e')) h) in
    (idle_lem c s works exclude (eligible c exclude) v (rw from_idle at chosen)).1
