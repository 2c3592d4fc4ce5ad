-- ===== src/Engine/Steps/Pending.antt =====
-- What holds of the requests in every storage that the pallet reaches with honest authors.
use uomi_node.Prelude.{
  ℕ, Bool, true, false, not, Option, none, some, ◌≡◌, ◌⊎◌, inl, inr, sym, ap, ◌∙◌, subst, Outcome,
  ok, assert, >>=_inverted, ok-injective, arith, if◌then◌else◌, ◌==◌, ==_iff, Bool-cases,
}
use uomi_node.Prelude.Key.{nat_key, pair_key}
use uomi_node.Prelude.Map.{Map, lookup, contains_key, is_some}
use uomi_node.Engine.{
  AccountId, RequestId, Cid, Data, Chain, Storage, Operations, EngineError, empty_storage,
}
use uomi_node.Engine.Calls.{unsigned}
use uomi_node.Engine.Inherent.{create_inherent, set_inherent_data}
use uomi_node.Engine.Inherent.Block.{only_models, created}
use uomi_node.Engine.Models.{Model}
use uomi_node.Engine.Requests.{IpfsInterface, run_request}
use uomi_node.Engine.Requests.Accepted.{IsAccepted}
use uomi_node.Engine.Requests.Whole.{run_request-IsAccepted}
use uomi_node.Engine.Requests.Effect.{IsOnlyRequest, run_request-IsOnlyRequest, assigned_before}
use uomi_node.Engine.Run.Keys.Levels.{opoc_run-IsStored}
use uomi_node.Engine.Run.Within.{Within, opoc_run-Within}
use uomi_node.Engine.Store.{opoc_store_operations}
use uomi_node.Engine.Store.Effect.{IsStored}
use uomi_node.Engine.Store.Overlay.{or_else}
use uomi_node.Engine.Steps.{
  Step, requested, inherent, finalized, answered, versioned, inferred, cleaned, called, Steps, here,
  next,
}
use uomi_node.Engine.Steps.Frame.{
  SameRequests, on_finalize-SameRequests, store_nodes_outputs-SameRequests,
  store_nodes_versions-SameRequests, store_nodes_opoc_l0_inferences-SameRequests,
  temporary_cleanup_inputs-SameRequests, temporary_function-SameRequests,
}

-- Only requests that are pending are assigned.
pub record AssignedPending (s : Storage) : Type 0 where
  pub pending :
      (r : RequestId) (a : AccountId)
      → contains_key s.opoc_assignment (r, a) ≡ true
      → contains_key s.inputs r ≡ true

-- The request is pending, or it has an output.
abbrev pub Known : RequestId → Storage → Type 0
Known r s = (contains_key s.inputs r ≡ true) ⊎ (contains_key s.outputs r ≡ true)

module _ (s s' : Storage) (o : Outcome EngineError Storage) (same : SameRequests s o)
    (h : o ≡ ok s') where
  same-AssignedPending : AssignedPending s → AssignedPending s'
  same-AssignedPending p = record {
    pending = λ r a x.
        ap (λ m. contains_key m r) (same.inputs s' h)
        ∙ p.pending r a (ap (λ m. contains_key m (r, a)) (sym (same.assignment s' h)) ∙ x);
  }

  same-Known : (r : RequestId) → Known r s → Known r s'
  same-Known r (inl k) = inl (ap (λ m. contains_key m r) (same.inputs s' h) ∙ k)
  same-Known r (inr k) = inr (ap (λ m. contains_key m r) (same.outputs s' h) ∙ k)

module _ {S : Type 0} (ipfs : IpfsInterface S) (c : Chain) (r nft_id min_validators : ℕ)
    (s : Storage) (t : S) (s' : Storage) (t' : S)
    (accepted : IsAccepted ipfs c r nft_id min_validators s t s' t')
    (only : IsOnlyRequest r s s') where
  request_stored : contains_key s'.inputs r ≡ true
  request_stored = ap is_some accepted.stored

  requests_kept : (q : RequestId) → contains_key s.inputs q ≡ true → contains_key s'.inputs q ≡ true
  requests_kept q k = elim (Bool-cases (r == q)) [
    | inl same ↦ subst (λ p. contains_key s'.inputs p ≡ true) ((==_iff r q).0 same) request_stored
    | inr other ↦ ap is_some (accepted.others q (λ e. ground (arith, e, other, ==_iff r q))) ∙ k
  ]

  requested-AssignedPending : AssignedPending s → AssignedPending s'
  requested-AssignedPending p = record {
    pending = λ q a x. elim (only.assignment q a x) [
      | inl same ↦ subst (λ p. contains_key s'.inputs p ≡ true) (sym same) request_stored
      | inr old ↦ requests_kept q (p.pending q a old)
    ];
  }

  requested-Known : (q : RequestId) → Known q s → Known q s'
  requested-Known q (inl k) = inl (requests_kept q k)
  requested-Known q (inr k) = inr (ap is_some (only.outputs q) ∙ k)

-- The operations of the inherent that the author has created are those stored.
inherent-IsStored :
    (c : Chain) (ops : Operations) (models : Map ℕ Model) (s s' : Storage)
    → create_inherent c s ≡ ok (some (ops, models))
    → set_inherent_data c unsigned (ops, models) s ≡ ok s'
    → (r : RequestId) (a : AccountId) → IsStored ops s s' r a
unfolding set_inherent_data
inherent-IsStored c ops models s s' made set r a =
    let (_, _, e) = >>=_inverted (assert (not (is_some s.inherent_did_update))) _ (sym set) in
    let (m, same) = only_models models (opoc_store_operations c ops s) in
    let i = opoc_run-IsStored c s c.current_block_number ops (created c s ops models made) r a in
    subst (λ u. IsStored ops s u r a)
      (ap (λ (u : Storage). record u { inherent_did_update = some true }) (sym same)
        ∙ ok-injective e)
      record {
        blacklist = i.blacklist;
        assignment = i.assignment;
        works = i.works;
        timeouts = i.timeouts;
        errors = i.errors;
        outputs = i.outputs;
        inputs = i.inputs;
        answers = i.answers;
      }

-- A request that is not completed stays pending, and one that is has an output.
still_pending :
    {A : Type 0} (done : Bool) (old new : Option A)
    → done ≡ false
    → new ≡ (if done then none else old)
    → is_some old ≡ true
    → is_some new ≡ true
still_pending true old new e f k = cc
still_pending false old new e f k = ap is_some f ∙ k

still_known :
    {A B : Type 0} (o : Option B) (input input' : Option A) (output output' : Option B)
    → input' ≡ (if is_some o then none else input)
    → output' ≡ or_else o output
    → (is_some input ≡ true) ⊎ (is_some output ≡ true)
    → (is_some input' ≡ true) ⊎ (is_some output' ≡ true)
still_known none i i' u u' e f (inl k) = inl (ap is_some e ∙ k)
still_known none i i' u u' e f (inr k) = inr (ap is_some f ∙ k)
still_known (some b) i i' u u' e f k = inr (ap is_some f)

module _ (ops : Operations) (s s' : Storage)
    (stored : (r : RequestId) (a : AccountId) → IsStored ops s s' r a) where
  inherent-AssignedPending :
      Within (λ r. contains_key s.inputs r ≡ true) ops → AssignedPending s → AssignedPending s'
  inherent-AssignedPending within p = record {
    pending = λ r a x.
        let i = stored r a in
        let (open_still, from) = assigned_before _ _ _ _ i.assignment x in
        still_pending (contains_key ops.outputs_operations r) (lookup r s.inputs) _ open_still
          i.inputs (elim from [ inl new ↦ within.assigned r a new | inr old ↦ p.pending r a old ]);
  }

  inherent-Known : (r : RequestId) → Known r s → Known r s'
  inherent-Known r k =
      let i = stored r 0 in
      still_known (lookup r ops.outputs_operations) (lookup r s.inputs) _ (lookup r s.outputs) _
        i.inputs i.outputs k

module _ {S : Type 0} (ipfs : IpfsInterface S) where
  Step-AssignedPending : (s s' : Storage) → Step ipfs s s' → AssignedPending s → AssignedPending s'
  Step-AssignedPending _ _
        (requested c r address nft_id input_data cid min_validators min_blocks s t s' t' h) p =
      requested-AssignedPending ipfs c r nft_id min_validators s t s' t'
        (run_request-IsAccepted ipfs c r address nft_id input_data cid min_validators min_blocks s t
          s' t' h)
        (run_request-IsOnlyRequest ipfs c r address nft_id input_data cid min_validators min_blocks
          s t s' t' h)
        p
  Step-AssignedPending _ _ (inherent c (ops, models) s s' made set) p =
      inherent-AssignedPending ops s s' (inherent-IsStored c ops models s s' made set)
        (opoc_run-Within c s c.current_block_number ops (created c s ops models made)) p
  Step-AssignedPending _ _ (finalized s s' h) p =
      same-AssignedPending s s' _ (on_finalize-SameRequests s) h p
  Step-AssignedPending _ _ (answered c origin r d public s s' h) p =
      same-AssignedPending s s' _ (store_nodes_outputs-SameRequests c origin r d public s) h p
  Step-AssignedPending _ _ (versioned c origin public version s s' h) p =
      same-AssignedPending s s' _ (store_nodes_versions-SameRequests c origin public version s) h p
  Step-AssignedPending _ _ (inferred c origin public r index proof s s' h) p =
      same-AssignedPending s s' _
        (store_nodes_opoc_l0_inferences-SameRequests c origin public r index proof s) h p
  Step-AssignedPending _ _ (cleaned origin s s' h) p =
      same-AssignedPending s s' _ (temporary_cleanup_inputs-SameRequests origin s) h p
  Step-AssignedPending _ _ (called origin s s' h) p =
      same-AssignedPending s s' _ (temporary_function-SameRequests origin s) h p

  Step-Known : (q : RequestId) (s s' : Storage) → Step ipfs s s' → Known q s → Known q s'
  Step-Known q _ _
        (requested c r address nft_id input_data cid min_validators min_blocks s t s' t' h) k =
      requested-Known ipfs c r nft_id min_validators s t s' t'
        (run_request-IsAccepted ipfs c r address nft_id input_data cid min_validators min_blocks s t
          s' t' h)
        (run_request-IsOnlyRequest ipfs c r address nft_id input_data cid min_validators min_blocks
          s t s' t' h)
        q k
  Step-Known q _ _ (inherent c (ops, models) s s' made set) k =
      inherent-Known ops s s' (inherent-IsStored c ops models s s' made set) q k
  Step-Known q _ _ (finalized s s' h) k = same-Known s s' _ (on_finalize-SameRequests s) h q k
  Step-Known q _ _ (answered c origin r d public s s' h) k =
      same-Known s s' _ (store_nodes_outputs-SameRequests c origin r d public s) h q k
  Step-Known q _ _ (versioned c origin public version s s' h) k =
      same-Known s s' _ (store_nodes_versions-SameRequests c origin public version s) h q k
  Step-Known q _ _ (inferred c origin public r index proof s s' h) k =
      same-Known s s' _
        (store_nodes_opoc_l0_inferences-SameRequests c origin public r index proof s) h q k
  Step-Known q _ _ (cleaned origin s s' h) k =
      same-Known s s' _ (temporary_cleanup_inputs-SameRequests origin s) h q k
  Step-Known q _ _ (called origin s s' h) k =
      same-Known s s' _ (temporary_function-SameRequests origin s) h q k

  pub Steps-kept :
      (P : Storage → Type 0) (s s' : Storage)
      → ((s s' : Storage) → Step ipfs s s' → P s → P s')
      → Steps ipfs s s'
      → P s
      → P s'
  Steps-kept P _ _ keeps (here s) p = p
  Steps-kept P _ _ keeps (next s u s' before step) p =
      keeps u s' step (Steps-kept P s u keeps before p)

  -- In every storage that the pallet reaches from the empty one while the author of each block sets the
  -- inherent that it creates from the storage, an account is assigned only to requests that are pending.
  pub Steps-AssignedPending : (s : Storage) → Steps ipfs empty_storage s → AssignedPending s
  unfolding lookup
  Steps-AssignedPending s reached =
      Steps-kept AssignedPending empty_storage s Step-AssignedPending reached
        record { pending = λ r a x. cc }

  -- A request that is accepted is not lost to honest authors: in every storage that the pallet reaches from
  -- the one it is accepted in while the author of each block sets the inherent that it creates from the
  -- storage, the request is pending or has an output.
  pub run_request-Known :
      (c : Chain) (r address nft_id : ℕ) (input_data : Data) (input_file_cid : Cid)
      (min_validators min_blocks : ℕ) (s : Storage) (t : S) (s' : Storage) (t' : S) (u : Storage)
      → run_request ipfs c r address nft_id input_data input_file_cid min_validators min_blocks s t
        ≡ some (ok (s', t'))
      → Steps ipfs s' u
      → Known r u
  run_request-Known c r address nft_id input_data input_file_cid min_validators min_blocks s t s' t'
        u h later =
      let accepted =
        run_request-IsAccepted ipfs c r address nft_id input_data input_file_cid min_validators
          min_blocks s t s' t' h in
      Steps-kept (Known r) s' u (Step-Known r) later (inl (ap is_some accepted.stored))
