-- ===== src/Engine/Store/Frame.antt =====
-- What the loops of `opoc_store_operations` leave alone: whatever reads none of the items that a
-- loop writes is the same afterwards.
use uomi_node.Prelude.{
  ℕ, Bool, true, false, ◌≡◌, refl, ◌∙◌, inl, inr, List, [], ◌∷◌, ◌==◌, Bool-cases,
}
use uomi_node.Prelude.Map.{Map}
use uomi_node.Engine.{AccountId, RequestId, BlockNumber, Data, Event, Input, Chain, Storage}
use uomi_node.Engine.Store.{
  store_blacklist, store_assignments, store_assignment, store_works, store_works_of, store_outputs,
  store_output,
}

module _ {κ} {A : Type κ} (f : Storage → A) where
  pub store_blacklist_frame :
      ((s : Storage) (m : Map AccountId Bool) (es : List Event)
        → f (record s { opoc_blacklist = m; events = es }) ≡ f s)
      → (m : Map AccountId Bool) (s : Storage) → f (store_blacklist m s) ≡ f s
  unfolding store_blacklist
  store_blacklist_frame keep [] s = refl
  store_blacklist_frame keep ((a, true) ∷ m) s = store_blacklist_frame keep m _ ∙ keep s _ _
  store_blacklist_frame keep ((a, false) ∷ m) s = store_blacklist_frame keep m _ ∙ keep s _ _

  store_assignment_frame :
      ((s : Storage) (m : Map (RequestId × AccountId) BlockNumber) (es : List Event)
        → f (record s { opoc_assignment = m; events = es }) ≡ f s)
      → (r : RequestId) (a : AccountId) (e : BlockNumber) (s : Storage)
      → f (store_assignment r a e s) ≡ f s
  unfolding store_assignment
  store_assignment_frame keep r a e s = elim (Bool-cases (e == 0)) [
    | inl gone ↦ rw gone (keep s _ _)
    | inr set ↦ rw set (keep s _ _)
  ]

  pub store_assignments_frame :
      ((s : Storage) (m : Map (RequestId × AccountId) BlockNumber) (es : List Event)
        → f (record s { opoc_assignment = m; events = es }) ≡ f s)
      → (m : Map (RequestId × AccountId) BlockNumber) (s : Storage)
      → f (store_assignments m s) ≡ f s
  unfolding store_assignments
  store_assignments_frame keep [] s = refl
  store_assignments_frame keep (((r, a), e) ∷ m) s =
      store_assignments_frame keep m _ ∙ store_assignment_frame keep r a e s

  store_works_of_frame :
      ((s : Storage) (m : Map (AccountId × RequestId) Bool)
        → f (record s { nodes_works = m }) ≡ f s)
      → (a : AccountId) (works : Map RequestId Bool) (s : Storage)
      → f (store_works_of a works s) ≡ f s
  unfolding store_works_of
  store_works_of_frame keep a [] s = refl
  store_works_of_frame keep a ((r, true) ∷ m) s = store_works_of_frame keep a m _ ∙ keep s _
  store_works_of_frame keep a ((r, false) ∷ m) s = store_works_of_frame keep a m _ ∙ keep s _

  pub store_works_frame :
      ((s : Storage) (m : Map (AccountId × RequestId) Bool)
        → f (record s { nodes_works = m }) ≡ f s)
      → (m : Map AccountId (Map RequestId Bool)) (s : Storage) → f (store_works m s) ≡ f s
  unfolding store_works
  store_works_frame keep [] s = refl
  store_works_frame keep ((a, works) ∷ m) s =
      store_works_frame keep m _ ∙ store_works_of_frame keep a works s

  pub store_outputs_frame :
      ((s : Storage) (outs : Map RequestId (Data × ℕ × ℕ)) (ins : Map RequestId Input)
          (assignment : Map (RequestId × AccountId) BlockNumber)
          (answers : Map (RequestId × AccountId) Data)
          (inferences : Map (RequestId × AccountId) (ℕ × Data)) (es : List Event)
        → f (record s {
          outputs = outs;
          inputs = ins;
          opoc_assignment = assignment;
          nodes_outputs = answers;
          nodes_opoc_l0_inferences = inferences;
          events = es;
        })
          ≡ f s)
      → (c : Chain) (m : Map RequestId (Data × ℕ × ℕ)) (s : Storage) → f (store_outputs c m s) ≡ f s
  unfolding store_outputs store_output
  store_outputs_frame keep c [] s = refl
  store_outputs_frame keep c ((r, (o, n, k)) ∷ m) s =
      store_outputs_frame keep c m _ ∙ keep s _ _ _ _ _ _
