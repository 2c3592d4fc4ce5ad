-- ===== src/Engine/Calls/Answers.antt =====
-- The way of an answer from the call into the outputs that OPoC reads.
use uomi_node.Prelude.{true, false, none, some, ◌≡◌, ◌≢◌, refl, [], ◌∷◌, ◌++◌, arith, ok, err}
use uomi_node.Prelude.Key.{nat_key, pair_key, pair_beq_iff}
use uomi_node.Prelude.Lists.{contains, Distinct}
use uomi_node.Prelude.Map.{lookup, put, keys, lookup-put, beq_refl}
use uomi_node.Engine.{
  AccountId, RequestId, BlockNumber, Data, Chain, Storage, request_id_exists, node_output_received,
}
use uomi_node.Engine.Outputs.{opoc_get_outputs}
use uomi_node.Engine.Outputs.Partition.{opoc_get_outputs-IsCollected}
use uomi_node.Engine.Calls.{
  Origin, unsigned, signed, root, address_is_active_validator, store_nodes_outputs,
}

-- The answer of an active validator to a request that it is assigned to is accepted, if it is the
-- first one: from then on OPoC finds that answer at every block, late or not, does not take the
-- validator for one in time out or at work, finds what it found of the other validators, and a
-- further answer of the validator to the request is refused.
pub store_nodes_outputs-counted :
    (c : Chain) (r : RequestId) (answer : Data) (v : AccountId) (s : Storage) (e : BlockNumber)
    → Distinct (keys s.opoc_assignment)
    → address_is_active_validator c v ≡ true
    → lookup (r, v) s.opoc_assignment ≡ some e
    → lookup (r, v) s.nodes_outputs ≡ none
    → (s' : Storage) × (store_nodes_outputs c unsigned r answer v s ≡ ok s')
      × ((current : BlockNumber)
          → (lookup v (opoc_get_outputs s' r current).outputs ≡ some answer)
            × (contains (opoc_get_outputs s' r current).validators_in_timeout v ≡ false)
            × (contains (opoc_get_outputs s' r current).validators_not_completed v ≡ false))
      × ((current : BlockNumber) (w : AccountId)
          → v ≢ w
          → lookup w (opoc_get_outputs s' r current).outputs
            ≡ lookup w (opoc_get_outputs s r current).outputs)
      × ((again : Data) → store_nodes_outputs c unsigned r again v s' ≡ err request_id_exists)
store_nodes_outputs-counted c r answer v s e d active given first =
    let s' : Storage = record s {
      nodes_outputs = put (r, v) answer s.nodes_outputs;
      events = s.events ++ node_output_received r v answer ∷ [];
    } in
    let there = lookup-put (r, v) (r, v) answer s.nodes_outputs in
    let same = beq_refl {K = RequestId × AccountId} (r, v) in
    (
      s',
      (unfold store_nodes_outputs in ground (arith, active, first)),
      λ current.
          let found = (opoc_get_outputs-IsCollected s' r current d).1 v in
          (
            ground (arith, found.outputs, there, same, given),
            ground (arith, found.late, there, same, given),
            ground (arith, found.waiting, there, same, given),
          ),
      λ current w other.
          let new = (opoc_get_outputs-IsCollected s' r current d).1 w in
          let old = (opoc_get_outputs-IsCollected s r current d).1 w in
          ground (
            arith,
            new.outputs,
            old.outputs,
            lookup-put (r, v) (r, w) answer s.nodes_outputs,
            pair_beq_iff (r, v) (r, w),
          ),
      λ again. unfold store_nodes_outputs in ground (arith, active, there, same),
    )

-- Only an active validator stores an answer, with an unsigned call, and no call changes an answer
-- that is stored.
pub store_nodes_outputs-keeps :
    (c : Chain) (origin : Origin) (r : RequestId) (answer : Data) (v : AccountId) (s s' : Storage)
    → store_nodes_outputs c origin r answer v s ≡ ok s'
    → (origin ≡ unsigned)
      × (address_is_active_validator c v ≡ true)
      × ((q : RequestId) (w : AccountId) (o : Data)
          → lookup (q, w) s.nodes_outputs ≡ some o
          → lookup (q, w) s'.nodes_outputs ≡ some o)
unfolding store_nodes_outputs
store_nodes_outputs-keeps c unsigned r answer v s s' h = (
  refl,
  ground (arith),
  λ q w o old.
      ground (arith, lookup-put (r, v) (q, w) answer s.nodes_outputs, pair_beq_iff (r, v) (q, w)),
)
store_nodes_outputs-keeps c (signed who) r answer v s s' h = cc
store_nodes_outputs-keeps c root r answer v s s' h = cc
