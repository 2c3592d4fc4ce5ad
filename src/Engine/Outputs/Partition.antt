-- ===== src/Engine/Outputs/Partition.antt =====
-- `opoc_get_outputs` sorts the assigned validators of a request into those that have answered,
-- those in time out and those still at work.
use uomi_node.Prelude.{
  ℕ, ◌+◌, Bool, true, false, not, ◌||◌, Option, none, some, ◌≡◌, ◌≢◌, refl, ap, [], ◌∷◌, arith, ltb,
}
use uomi_node.Prelude.Key.{nat_key, pair_key}
use uomi_node.Prelude.Lists.{length, contains, Distinct, contains-append, length-append}
use uomi_node.Prelude.Map.{
  Map, lookup, keys, iter_prefix, or_default, is_some, contains_key, contains-keys, lookup-insert,
  lookup-iter_prefix, length-insert_new, keys-iter_prefix-Distinct,
}
use uomi_node.Engine.{AccountId, RequestId, BlockNumber, Data, Storage}
use uomi_node.Engine.Outputs.{Collected, nothing_collected, collect_one, collect, opoc_get_outputs}

-- The three answers about a validator, from its expiration and whether it has answered.
abbrev pub answered : Option BlockNumber → Option Data → Option Data
answered none d = none
answered (some e) d = d

abbrev pub is_late : BlockNumber → Option BlockNumber → Option Data → Bool
is_late current (some e) none = ltb e current
is_late current _ _ = false

abbrev pub is_waiting : BlockNumber → Option BlockNumber → Option Data → Bool
is_waiting current (some e) none = not (ltb e current)
is_waiting current _ _ = false

differ :
    (w v : ℕ) (m : Map ℕ BlockNumber)
    → contains (keys m) w ≡ false
    → contains (keys m) v ≡ true
    → w ≢ v
differ w v m fresh h e = cc (fresh, h, ap (contains (keys m)) e)

module _ (s : Storage) (r : RequestId) (current : BlockNumber) where
  abbrev answer : AccountId → Option Data
  answer v = lookup (r, v) s.nodes_outputs

  has_answered :
      (v : AccountId) → contains (keys (iter_prefix r s.nodes_outputs)) v ≡ is_some (answer v)
  has_answered v = rw (contains-keys, lookup-iter_prefix)

  collect-late :
      (m : Map AccountId BlockNumber) (acc : Collected) (v : AccountId)
      → Distinct (keys m)
      → contains (collect s r current m acc).validators_in_timeout v
        ≡ (contains acc.validators_in_timeout v || is_late current (lookup v m) (answer v))
  unfolding collect collect_one lookup
  collect-late [] acc v d = ground arith
  collect-late ((w, e) ∷ m) acc v d = ground (
    arith,
    collect-late m (collect_one s r current w e acc) v d.1,
    contains-append acc.validators_in_timeout (w ∷ []) v,
    has_answered w,
    contains-keys m w,
    d.0,
  )

  collect-waiting :
      (m : Map AccountId BlockNumber) (acc : Collected) (v : AccountId)
      → Distinct (keys m)
      → contains (collect s r current m acc).validators_not_completed v
        ≡ (contains acc.validators_not_completed v || is_waiting current (lookup v m) (answer v))
  unfolding collect collect_one lookup
  collect-waiting [] acc v d = ground arith
  collect-waiting ((w, e) ∷ m) acc v d = ground (
    arith,
    collect-waiting m (collect_one s r current w e acc) v d.1,
    contains-append acc.validators_not_completed (w ∷ []) v,
    has_answered w,
    contains-keys m w,
    d.0,
  )

  abbrev or_kept : Option Data → Option Data → Option Data
  or_kept none old = old
  or_kept (some d) old = some d

  collect-answers :
      (m : Map AccountId BlockNumber) (acc : Collected) (v : AccountId)
      → Distinct (keys m)
      → lookup v (collect s r current m acc).outputs
        ≡ or_kept (answered (lookup v m) (answer v)) (lookup v acc.outputs)
  unfolding collect collect_one lookup
  collect-answers [] acc v d = ground arith
  collect-answers ((w, e) ∷ m) acc v d = ground (
    arith,
    collect-answers m (collect_one s r current w e acc) v d.1,
    lookup-insert w v (or_default (answer w) []) acc.outputs,
    has_answered w,
    contains-keys m w,
    d.0,
  )

  abbrev pub size : Collected → ℕ
  size acc =
      length acc.outputs + length acc.validators_not_completed + length acc.validators_in_timeout

  collect_one-size :
      (w : AccountId) (e : BlockNumber) (acc : Collected)
      → contains_key acc.outputs w ≡ false
      → size (collect_one s r current w e acc) ≡ size acc + 1
  unfolding collect_one
  collect_one-size w e acc new = ground (
    arith,
    length-insert_new w (or_default (answer w) []) acc.outputs,
    length-append acc.validators_not_completed (w ∷ []),
    length-append acc.validators_in_timeout (w ∷ []),
  )

  collect_one-new :
      (w v : AccountId) (e : BlockNumber) (acc : Collected) (m : Map AccountId BlockNumber)
      → contains (keys m) w ≡ false
      → contains (keys m) v ≡ true
      → contains_key acc.outputs v ≡ false
      → contains_key (collect_one s r current w e acc).outputs v ≡ false
  unfolding collect_one
  collect_one-new w v e acc m fresh h new =
      ground (arith, lookup-insert w v (or_default (answer w) []) acc.outputs, differ w v m fresh h)

  -- An answer is recorded once.
  collect-size :
      (m : Map AccountId BlockNumber) (acc : Collected)
      → Distinct (keys m)
      → ((v : AccountId) → contains (keys m) v ≡ true → contains_key acc.outputs v ≡ false)
      → size (collect s r current m acc) ≡ size acc + length m
  unfolding collect
  collect-size [] acc d new = omega arith
  collect-size ((w, e) ∷ m) acc d new =
      let acc' = collect_one s r current w e acc in
      let rest =
        collect-size m acc' d.1 (λ v h. collect_one-new w v e acc m d.0 h (new v (ground arith))) in
      ground (arith, rest, collect_one-size w e acc (new w (ground arith)))

  -- What the call says of one validator.
  pub record IsCollected (out : Collected) (v : AccountId) : Type 0 where
    pub outputs : lookup v out.outputs ≡ answered (lookup (r, v) s.opoc_assignment) (answer v)
    pub late :
        contains out.validators_in_timeout v
        ≡ is_late current (lookup (r, v) s.opoc_assignment) (answer v)
    pub waiting :
        contains out.validators_not_completed v
        ≡ is_waiting current (lookup (r, v) s.opoc_assignment) (answer v)

  -- Every assignment of a request is counted once, and a validator is reported as the storage says:
  -- with its answer if it is assigned and has answered, otherwise in time out if its expiration is
  -- past and still at work if not, where the storage names no assignment twice.
  pub opoc_get_outputs-IsCollected :
      Distinct (keys s.opoc_assignment)
      → (size (opoc_get_outputs s r current) ≡ length (iter_prefix r s.opoc_assignment))
        × ((v : AccountId) → IsCollected (opoc_get_outputs s r current) v)
  opoc_get_outputs-IsCollected d =
      let m = iter_prefix r s.opoc_assignment in
      let d' = keys-iter_prefix-Distinct r s.opoc_assignment d in
      (
        unfold opoc_get_outputs in
            omega (arith, collect-size m nothing_collected d' (λ v h. unfold lookup in refl)),
        λ v.
            unfold opoc_get_outputs lookup in
            record {
              outputs = ground (
                arith,
                collect-answers m nothing_collected v d',
                lookup-iter_prefix r v s.opoc_assignment,
              );
              late = ground (
                arith,
                collect-late m nothing_collected v d',
                lookup-iter_prefix r v s.opoc_assignment,
              );
              waiting = ground (
                arith,
                collect-waiting m nothing_collected v d',
                lookup-iter_prefix r v s.opoc_assignment,
              );
            },
      )
