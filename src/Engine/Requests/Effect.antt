-- ===== src/Engine/Requests/Effect.antt =====
-- pallets/uomi-engine/src/lib.rs: what `run_request` leaves of the rest of the storage.
use uomi_node.Prelude.{
  ℕ, Bool, true, false, ◌&&◌, Option, none, some, ◌≡◌, ◌≢◌, ◌⊎◌, inl, inr, refl, sym, ap, ◌∙◌,
  subst, List, [], ◌∷◌, Outcome, ok, err, panic, ◌>>=◌, or_logged, >>=_inverted, ok-injective,
  some-injective, leb, ltb, not, ◌==◌, ensure, if◌then◌else◌,
}
use uomi_node.Prelude.Key.{nat_key, pair_key}
use uomi_node.Prelude.Lists.{length}
use uomi_node.Prelude.Map.{Map, contains_key, is_some, lookup}
use uomi_node.Engine.{
  AccountId, RequestId, BlockNumber, Cid, Data, EngineError, Chain, Storage, Operations,
  no_operations, zero_request_id, zero_address, zero_nft_id, request_id_exists, input_too_large,
  invalid_cid, no_agent, no_status,
}
use uomi_node.Engine.Assignment.{assign_validators}
use uomi_node.Engine.FinneyV1.{
  and_then, opoc_assignment_finney_v1, opoc_assignment_get_random_validators_finney_v1,
}
use uomi_node.Engine.Requests.{
  IpfsInterface, max_cid_size, max_data_size, old_unsecured_mode, accept_request, assign_old,
  run_request, announce, with_pallet, or_error, pin_input_file, check_nft_file,
}
use uomi_node.Engine.Requests.Old.{assign_validators-outputs}
use uomi_node.Engine.Run.Kept.{Kept}
use uomi_node.Engine.Run.Kept.Levels.{assign_validators-Kept}
use uomi_node.Engine.Run.Keys.Levels.{run-Closed, nothing-KeysDistinct}
use uomi_node.Engine.Run.Within.{Within, Within-Closed, nothing-Within}
use uomi_node.Engine.Store.{opoc_store_operations}
use uomi_node.Engine.Store.Overlay.{assigned_after, or_else}
use uomi_node.Engine.Store.Effect.{KeysDistinct, IsStored, opoc_store_operations-IsStored}

-- Nothing, or what operations about the request alone, that complete none, write.
pub record IsAbout (c : Chain) (r : RequestId) (s s' : Storage) : Type 0 where
  pub ops : Operations
  pub stored : s' ≡ opoc_store_operations c ops s
  pub distinct : KeysDistinct ops
  pub within : Within (λ q. q ≡ r) ops
  pub completes_none : ops.outputs_operations ≡ []

logged-IsAbout :
    (c : Chain) (r : RequestId) (s s' : Storage) (m : Outcome EngineError Operations)
    → Kept KeysDistinct m
    → Kept (Within (λ q. q ≡ r)) m
    → ((ops : Operations) → m ≡ ok ops → ops.outputs_operations ≡ [])
    → or_logged (m >>= λ ops. ok (opoc_store_operations c ops s)) s ≡ ok s'
    → (s' ≡ s) ⊎ IsAbout c r s s'
logged-IsAbout c r s s' (ok ops) d w none_done h = inr record {
  ops = ops;
  stored = sym (ok-injective h);
  distinct = d.holds ops refl;
  within = w.holds ops refl;
  completes_none = none_done ops refl;
}
logged-IsAbout c r s s' (err e) d w none_done h = inl (sym (ok-injective h))
logged-IsAbout c r s s' panic d w none_done h = cc

chosen-IsAbout :
    (c : Chain) (r : RequestId) (s s' : Storage) (m : Option (Outcome EngineError (List AccountId)))
    → elim (and_then m (λ vs. assign_validators s r c.current_block_number vs no_operations)) [
      | none ↦ none
      | some o ↦ some (or_logged (o >>= λ ops. ok (opoc_store_operations c ops s)) s)
    ]
      ≡ some (ok s')
    → (s' ≡ s) ⊎ IsAbout c r s s'
chosen-IsAbout c r s s' none h = cc
chosen-IsAbout c r s s' (some m) h =
    logged-IsAbout c r s s'
      (m >>= λ vs. assign_validators s r c.current_block_number vs no_operations)
      (kept KeysDistinct m (λ vs.
        assign_validators-Kept KeysDistinct (λ q. Unit) run-Closed s r tt c.current_block_number vs
          no_operations nothing-KeysDistinct))
      (kept (Within (λ q. q ≡ r)) m (λ vs.
        assign_validators-Kept (Within (λ q. q ≡ r)) (λ q. q ≡ r) (Within-Closed (λ q. q ≡ r)) s r
          refl c.current_block_number vs no_operations (nothing-Within (λ q. q ≡ r))))
      (λ ops e.
        let (vs, _, given) = >>=_inverted m _ (sym e) in
        assign_validators-outputs s r c.current_block_number vs no_operations ops given)
      (some-injective h)
  where
    kept :
        (P : Operations → Type 0) (m : Outcome EngineError (List AccountId))
        → ((vs : List AccountId)
            → Kept P (assign_validators s r c.current_block_number vs no_operations))
        → Kept P (m >>= λ vs. assign_validators s r c.current_block_number vs no_operations)
    kept P (ok vs) k = k vs
    kept P (err e) k = record { holds = λ ops h. cc }
    kept P panic k = record { holds = λ ops h. cc }

old_unsecured_mode-IsAbout :
    (c : Chain) (r : RequestId) (s s' : Storage)
    → old_unsecured_mode c r s ≡ some (ok s')
    → (s' ≡ s) ⊎ IsAbout c r s s'
unfolding old_unsecured_mode opoc_assignment_finney_v1
old_unsecured_mode-IsAbout c r s s' h =
    chosen-IsAbout c r s s'
      (opoc_assignment_get_random_validators_finney_v1 c s no_operations.nodes_works_operations 1
        true [])
      h

-- A request changes the storage outside of the inputs by no more than its own assignments.
pub record IsOnlyRequest (r : RequestId) (s s' : Storage) : Type 0 where
  pub outputs : (q : RequestId) → lookup q s'.outputs ≡ lookup q s.outputs
  pub assignment :
      (q : RequestId) (a : AccountId)
      → contains_key s'.opoc_assignment (q, a) ≡ true
      → (q ≡ r) ⊎ (contains_key s.opoc_assignment (q, a) ≡ true)

-- What is assigned after operations was assigned before, or they assign it, and they do not complete it.
pub assigned_before :
    (done : Bool) (o old x : Option BlockNumber)
    → x ≡ (if done then none else assigned_after o old)
    → is_some x ≡ true
    → (done ≡ false) × ((is_some o ≡ true) ⊎ (is_some old ≡ true))
assigned_before true o old x e h = absurd (nothing x e h)
  where
    nothing : (x : Option BlockNumber) → x ≡ none → is_some x ≢ true
    nothing none e h = cc
    nothing (some b) e h = cc
assigned_before false none old x e h = (refl, inr (sym (ap is_some e) ∙ h))
assigned_before false (some b) old x e h = (refl, inl refl)

none_first :
    {A : Type 0} (m : Map RequestId A) (q : RequestId) (old : Option A)
    → m ≡ []
    → or_else (lookup q m) old ≡ old
unfolding lookup
none_first [] q old e = refl
none_first (k ∷ m) q old e = cc

about-IsOnlyRequest :
    (c : Chain) (r : RequestId) (s s' : Storage) → IsAbout c r s s' → IsOnlyRequest r s s'
about-IsOnlyRequest c r s s' about = subst (IsOnlyRequest r s) (sym about.stored) record {
  outputs =
      λ q. (stored q 0).outputs ∙ none_first about.ops.outputs_operations q _ about.completes_none;
  assignment = λ q a h. elim (assigned_before _ _ _ _ (stored q a).assignment h).1 [
    | inl new ↦ inl (about.within.assigned q a new)
    | inr old ↦ inr old
  ];
}
  where
    stored :
        (q : RequestId) (a : AccountId)
        → IsStored about.ops s (opoc_store_operations c about.ops s) q a
    stored q a = opoc_store_operations-IsStored c about.ops s q a about.distinct

-- Of the pair that a call leaves, the storage.
pub record Leaves {S : Type 0} (s : Storage) (o : Outcome EngineError (Storage × S)) : Type 0 where
  pub outputs : (u : Storage) (t : S) → o ≡ ok (u, t) → u.outputs ≡ s.outputs
  pub assignment : (u : Storage) (t : S) → o ≡ ok (u, t) → u.opoc_assignment ≡ s.opoc_assignment

after-Leaves :
    {S A : Type 0} (s : Storage) (m : Outcome EngineError A)
    (f : A → Outcome EngineError (Storage × S))
    → ((a : A) → Leaves s (f a))
    → Leaves s (m >>= f)
after-Leaves s (ok a) f h = h a
after-Leaves s (err e) f h = record { outputs = λ u t h. cc; assignment = λ u t h. cc }
after-Leaves s panic f h = record { outputs = λ u t h. cc; assignment = λ u t h. cc }

module _ {S : Type 0} (ipfs : IpfsInterface S) where
  accept_request-Leaves :
      (c : Chain) (r address nft_id : ℕ) (input_data : Data) (input_file_cid : Cid)
      (min_validators min_blocks : ℕ) (s : Storage) (t : S)
      → Leaves s (
          accept_request ipfs c r address nft_id input_data input_file_cid min_validators min_blocks
            s t)
  unfolding accept_request
  accept_request-Leaves c r address nft_id input_data input_file_cid min_validators min_blocks s t =
      after-Leaves s (ensure (ltb 0 r) zero_request_id) _ (λ _.
        after-Leaves s (ensure (not (address == 0)) zero_address) _ (λ _.
          after-Leaves s (ensure (ltb 0 nft_id) zero_nft_id) _ (λ _.
            after-Leaves s (ensure (not (contains_key s.inputs r)) request_id_exists) _ (λ _.
              after-Leaves s (ensure (leb (length input_data) max_data_size) input_too_large) _
                (λ _.
                  after-Leaves s (ensure (leb (length input_file_cid) max_cid_size) invalid_cid) _
                    (λ _. after-Leaves s (pin_input_file ipfs address input_file_cid t) _ (λ u.
                      after-Leaves s (or_error (ipfs.get_agent_cid nft_id u) no_agent) _ (λ cid.
                        after-Leaves s (or_error (ipfs.get_cid_status cid u) no_status) _ (λ status.
                          after-Leaves s (check_nft_file c.current_block_number status) _ (λ _.
                            record {
                              outputs = λ v t' h.
                                  ap (λ (st : Storage × S). st.0.outputs) (sym (ok-injective h));
                              assignment = λ v t' h.
                                  ap (λ (st : Storage × S). st.0.opoc_assignment)
                                    (sym (ok-injective h));
                            }))))))))))

  with_pallet-IsOnly :
      (o : Option (Outcome EngineError Storage)) (r : RequestId) (s s' : Storage) (t t' : S)
      → ((w : Storage) → o ≡ some (ok w) → IsOnlyRequest r s w)
      → elim o [ none ↦ none | some o ↦ some (with_pallet ipfs t o) ] ≡ some (ok (s', t'))
      → IsOnlyRequest r s s'
  with_pallet-IsOnly none r s s' t t' only h = cc
  with_pallet-IsOnly (some panic) r s s' t t' only h = cc
  with_pallet-IsOnly (some (err e)) r s s' t t' only h = cc
  with_pallet-IsOnly (some (ok w)) r s s' t t' only h =
      subst (IsOnlyRequest r s) (ap (λ (st : Storage × S). st.0) (ok-injective (some-injective h)))
        (only w refl)

  same-IsOnly : (r : RequestId) (s : Storage) → IsOnlyRequest r s s
  same-IsOnly r s = record { outputs = λ q. refl; assignment = λ q a h. inr h }

  if_old-IsOnly :
      (b : Bool) (o : Option (Outcome EngineError Storage)) (r : RequestId) (s s' : Storage)
      (t t' : S)
      → ((w : Storage) → o ≡ some (ok w) → IsOnlyRequest r s w)
      → (if b
          then elim o [ none ↦ none | some o ↦ some (with_pallet ipfs t o) ]
          else some (ok (s, t)))
        ≡ some (ok (s', t'))
      → IsOnlyRequest r s s'
  if_old-IsOnly true o r s s' t t' only h = with_pallet-IsOnly o r s s' t t' only h
  if_old-IsOnly false o r s s' t t' only h =
      subst (IsOnlyRequest r s) (ap (λ (st : Storage × S). st.0) (ok-injective (some-injective h)))
        (same-IsOnly r s)

  assign_old-IsOnly :
      (c : Chain) (r min_validators : ℕ) (st : Storage × S) (s' : Storage) (t' : S)
      → assign_old ipfs c r min_validators st ≡ some (ok (s', t'))
      → IsOnlyRequest r st.0 s'
  unfolding assign_old
  assign_old-IsOnly c r min_validators (s, t) s' t' h =
      if_old-IsOnly (leb r 47 && leb min_validators 1) (old_unsecured_mode c r s) r s s' t t'
        (λ w e. elim (old_unsecured_mode-IsAbout c r s w e) [
          | inl same ↦ subst (IsOnlyRequest r s) (sym same) (same-IsOnly r s)
          | inr about ↦ about-IsOnlyRequest c r s w about
        ])
        h

  announced-IsOnly :
      (r address nft_id : ℕ) (o : Option (Outcome EngineError (Storage × S))) (s s' : Storage)
      (t' : S)
      → ((w : Storage) (t : S) → o ≡ some (ok (w, t)) → IsOnlyRequest r s w)
      → elim o [ none ↦ none | some o ↦ some (o >>= λ st. ok (announce ipfs r address nft_id st)) ]
        ≡ some (ok (s', t'))
      → IsOnlyRequest r s s'
  announced-IsOnly r address nft_id none s s' t' only h = cc
  announced-IsOnly r address nft_id (some panic) s s' t' only h = cc
  announced-IsOnly r address nft_id (some (err e)) s s' t' only h = cc
  announced-IsOnly r address nft_id (some (ok (w, t))) s s' t' only h =
      let same : announce ipfs r address nft_id (w, t) ≡ (s', t') =
        ok-injective (some-injective h) in
      let only_w = only w t refl in
      subst (IsOnlyRequest r s) (ap (λ (st : Storage × S). st.0) same)
        record { outputs = only_w.outputs; assignment = only_w.assignment }

  request-IsOnly :
      (c : Chain) (r address nft_id min_validators : ℕ) (m : Outcome EngineError (Storage × S))
      (s s' : Storage) (t' : S)
      → Leaves s m
      → elim m [
        | err e ↦ some (err e)
        | panic ↦ some panic
        | ok accepted ↦ elim (assign_old ipfs c r min_validators accepted) [
          | none ↦ none
          | some o ↦ some (o >>= λ st. ok (announce ipfs r address nft_id st))
        ]
      ]
        ≡ some (ok (s', t'))
      → IsOnlyRequest r s s'
  request-IsOnly c r address nft_id min_validators (err e) s s' t' l h = cc
  request-IsOnly c r address nft_id min_validators panic s s' t' l h = cc
  request-IsOnly c r address nft_id min_validators (ok (u, v)) s s' t' l h =
      announced-IsOnly r address nft_id (assign_old ipfs c r min_validators (u, v)) s s' t'
        (λ w t e.
          let only = assign_old-IsOnly c r min_validators (u, v) w t e in
          record {
            outputs = λ q. only.outputs q ∙ ap (lookup q) (l.outputs u v refl);
            assignment =
                subst
                  (λ m.
                    (q : RequestId) (a : AccountId)
                    → contains_key w.opoc_assignment (q, a) ≡ true
                    → (q ≡ r) ⊎ (contains_key m (q, a) ≡ true))
                  (l.assignment u v refl) only.assignment;
          })
        h

  -- An accepted request leaves the outputs, and the assignments of the other requests, as they are.
  pub run_request-IsOnlyRequest :
      (c : Chain) (r address nft_id : ℕ) (input_data : Data) (input_file_cid : Cid)
      (min_validators min_blocks : ℕ) (s : Storage) (t : S) (s' : Storage) (t' : S)
      → run_request ipfs c r address nft_id input_data input_file_cid min_validators min_blocks s t
        ≡ some (ok (s', t'))
      → IsOnlyRequest r s s'
  unfolding run_request
  run_request-IsOnlyRequest c r address nft_id input_data input_file_cid min_validators min_blocks s
        t s' t' h =
      request-IsOnly c r address nft_id min_validators _ s s' t'
        (accept_request-Leaves c r address nft_id input_data input_file_cid min_validators
          min_blocks s t)
        h
