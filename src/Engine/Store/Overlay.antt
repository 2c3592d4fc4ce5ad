-- ===== src/Engine/Store/Overlay.antt =====
-- After `opoc_store_operations` the storage is the old one overlaid by the operations.
use uomi_node.Prelude.{
  ℕ, Bool, true, false, Option, none, some, ◌≡◌, refl, [], ◌∷◌, arith, ◌==◌, if◌then◌else◌,
}
use uomi_node.Prelude.Key.{nat_key, pair_key, pair_beq, pair_beq_iff}
use uomi_node.Prelude.Lists.{Distinct}
use uomi_node.Prelude.Map.{
  Map, lookup, keys, put, remove, contains_key, or_default, lookup-put, lookup-remove,
  lookup-remove_prefix, contains-keys,
}
use uomi_node.Engine.{
  AccountId, RequestId, BlockNumber, Data, opoc_blacklist_add, opoc_blacklist_remove, Chain,
  Storage,
}
use uomi_node.Engine.Store.{
  store_blacklist, store_assignments, store_outputs, store_output, store_assignment, deposit_event,
  store_counters,
}

-- The entry that an assignment operation leaves: an expiration at block 0 removes it.
abbrev pub assigned_after : Option BlockNumber → Option BlockNumber → Option BlockNumber
assigned_after none old = old
assigned_after (some e) old = if e == 0 then none else some e

abbrev pub or_else {ℓ} : {A : Type ℓ} → Option A → Option A → Option A
or_else none old = old
or_else (some a) old = some a

lookup-store_assignment :
    (r : RequestId) (a : AccountId) (e : BlockNumber) (s : Storage) (k : RequestId × AccountId)
    → lookup k (store_assignment r a e s).opoc_assignment ≡ (
        if pair_beq (r, a) k then (if e == 0 then none else some e) else lookup k s.opoc_assignment)
unfolding store_assignment
lookup-store_assignment r a e s k =
    ground
      (arith, lookup-put (r, a) k e s.opoc_assignment, lookup-remove (r, a) k s.opoc_assignment)

pub lookup-store_assignments :
    (m : Map (RequestId × AccountId) BlockNumber) (s : Storage) (k : RequestId × AccountId)
    → Distinct (keys m)
    → lookup k (store_assignments m s).opoc_assignment
      ≡ assigned_after (lookup k m) (lookup k s.opoc_assignment)
unfolding store_assignments lookup
lookup-store_assignments [] s k d = refl
lookup-store_assignments (((r, a), e) ∷ m) s k d = ground (
  arith,
  lookup-store_assignments m (store_assignment r a e s) k d.1,
  lookup-store_assignment r a e s k,
  contains-keys m (r, a),
  pair_beq_iff (r, a) k,
  d.0,
)

pub lookup-store_counters :
    (m old : Map AccountId ℕ) (a : AccountId)
    → Distinct (keys m)
    → or_default (lookup a (store_counters m old)) 0
      ≡ or_default (or_else (lookup a m) (lookup a old)) 0
unfolding store_counters lookup
lookup-store_counters [] old a d = refl
lookup-store_counters ((b, n) ∷ m) old a d =
    let rest = if n == 0 then remove b old else put b n old in
    ground (
      arith,
      lookup-store_counters m rest a d.1,
      lookup-put b a n old,
      lookup-remove b a old,
      contains-keys m b,
      d.0,
    )

pub blacklisted-store_blacklist :
    (m : Map AccountId Bool) (s : Storage) (a : AccountId)
    → Distinct (keys m)
    → or_default (lookup a (store_blacklist m s).opoc_blacklist) false
      ≡ or_default (or_else (lookup a m) (lookup a s.opoc_blacklist)) false
unfolding store_blacklist lookup
blacklisted-store_blacklist [] s a d = refl
blacklisted-store_blacklist ((b, true) ∷ m) s a d = ground (
  arith,
  blacklisted-store_blacklist m
      (deposit_event (opoc_blacklist_add b)
        (record s { opoc_blacklist = put b true s.opoc_blacklist }))
      a d.1,
  lookup-put b a true s.opoc_blacklist,
  contains-keys m b,
  d.0,
)
blacklisted-store_blacklist ((b, false) ∷ m) s a d = ground (
  arith,
  blacklisted-store_blacklist m
      (deposit_event (opoc_blacklist_remove b)
        (record s { opoc_blacklist = remove b s.opoc_blacklist }))
      a d.1,
  lookup-remove b a s.opoc_blacklist,
  contains-keys m b,
  d.0,
)

-- What is left of one request.
pub record IsCleared (m : Map RequestId (Data × ℕ × ℕ)) (s t : Storage) (r : RequestId)
    : Type 0 where
  pub outputs : lookup r t.outputs ≡ or_else (lookup r m) (lookup r s.outputs)
  pub inputs : lookup r t.inputs ≡ (if contains_key m r then none else lookup r s.inputs)
  pub assignment :
      (a : AccountId)
      → lookup (r, a) t.opoc_assignment
        ≡ (if contains_key m r then none else lookup (r, a) s.opoc_assignment)
  pub answers :
      (a : AccountId)
      → lookup (r, a) t.nodes_outputs
        ≡ (if contains_key m r then none else lookup (r, a) s.nodes_outputs)

store_output-IsCleared :
    (c : Chain) (q : RequestId) (o : Data) (n k : ℕ) (s : Storage) (r : RequestId)
    → IsCleared ((q, (o, n, k)) ∷ []) s (store_output c q o n k s) r
unfolding store_output lookup
store_output-IsCleared c q o n k s r = record {
  outputs = ground (arith, lookup-put q r (o, n, k) s.outputs);
  inputs = ground (arith, lookup-remove q r s.inputs);
  assignment = λ a. ground (arith, lookup-remove_prefix q (r, a) s.opoc_assignment);
  answers = λ a. ground (arith, lookup-remove_prefix q (r, a) s.nodes_outputs);
}

pub store_outputs-IsCleared :
    (c : Chain) (m : Map RequestId (Data × ℕ × ℕ)) (s : Storage) (r : RequestId)
    → Distinct (keys m)
    → IsCleared m s (store_outputs c m s) r
unfolding store_outputs lookup
store_outputs-IsCleared c [] s r d = record {
  outputs = refl;
  inputs = refl;
  assignment = λ a. refl;
  answers = λ a. refl;
}
store_outputs-IsCleared c ((q, (o, n, k)) ∷ m) s r d =
    let one = store_output-IsCleared c q o n k s r in
    let rest = store_outputs-IsCleared c m (store_output c q o n k s) r d.1 in
    record {
      outputs = ground (arith, one.outputs, rest.outputs, contains-keys m q, d.0);
      inputs = ground (arith, one.inputs, rest.inputs, contains-keys m q, d.0);
      assignment = λ a. ground (arith, one.assignment a, rest.assignment a, contains-keys m q, d.0);
      answers = λ a. ground (arith, one.answers a, rest.answers a, contains-keys m q, d.0);
    }
