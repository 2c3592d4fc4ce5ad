-- ===== src/Engine/Steps/Frame.antt =====
-- The calls that leave the requests, their outputs and their assignments as they are.
use uomi_node.Prelude.{
  ℕ, false, not, ◌≡◌, refl, sym, ap, ◌∙◌, Outcome, ok, err, panic, ◌>>=◌, assert, ensure,
  ok-injective, ◌==◌,
}
use uomi_node.Prelude.Key.{nat_key, pair_key}
use uomi_node.Prelude.Map.{lookup, contains_key, or_default}
use uomi_node.Engine.{
  AccountId, RequestId, Data, Chain, Storage, EngineError, only_validators, request_id_exists,
  version_already_stored, inference_already_exists,
}
use uomi_node.Engine.Calls.{
  Origin, unsigned, root, signed, ensure_none, address_is_active_validator, has_index,
  store_nodes_outputs, store_nodes_versions, store_nodes_opoc_l0_inferences,
  temporary_cleanup_inputs, temporary_function, on_finalize,
}

-- The three items of the storage that a request is kept in are the same, if the call gives a storage.
pub record SameRequests (s : Storage) (o : Outcome EngineError Storage) : Type 0 where
  pub inputs : (s' : Storage) → o ≡ ok s' → s'.inputs ≡ s.inputs
  pub outputs : (s' : Storage) → o ≡ ok s' → s'.outputs ≡ s.outputs
  pub assignment : (s' : Storage) → o ≡ ok s' → s'.opoc_assignment ≡ s.opoc_assignment

fixed-SameRequests :
    (s u : Storage)
    → u.inputs ≡ s.inputs
    → u.outputs ≡ s.outputs
    → u.opoc_assignment ≡ s.opoc_assignment
    → SameRequests s (ok u)
fixed-SameRequests s u i o a = record {
  inputs = λ s' h. ap (λ (v : Storage). v.inputs) (sym (ok-injective h)) ∙ i;
  outputs = λ s' h. ap (λ (v : Storage). v.outputs) (sym (ok-injective h)) ∙ o;
  assignment = λ s' h. ap (λ (v : Storage). v.opoc_assignment) (sym (ok-injective h)) ∙ a;
}

guarded-SameRequests :
    {A : Type 0} (s : Storage) (m : Outcome EngineError A) (o : Outcome EngineError Storage)
    → SameRequests s o
    → SameRequests s (m >>= λ _. o)
guarded-SameRequests s (ok a) o h = h
guarded-SameRequests s (err e) o h = record {
  inputs = λ u h. cc;
  outputs = λ u h. cc;
  assignment = λ u h. cc;
}
guarded-SameRequests s panic o h = record {
  inputs = λ u h. cc;
  outputs = λ u h. cc;
  assignment = λ u h. cc;
}

pub on_finalize-SameRequests : (s : Storage) → SameRequests s (on_finalize s)
unfolding on_finalize
on_finalize-SameRequests s =
    guarded-SameRequests s (assert (or_default s.inherent_did_update false)) _
      (fixed-SameRequests s _ refl refl refl)

pub store_nodes_outputs-SameRequests :
    (c : Chain) (origin : Origin) (r : RequestId) (d : Data) (public : AccountId) (s : Storage)
    → SameRequests s (store_nodes_outputs c origin r d public s)
unfolding store_nodes_outputs
store_nodes_outputs-SameRequests c origin r d public s =
    guarded-SameRequests s (ensure_none origin) _ (
      guarded-SameRequests s (ensure (address_is_active_validator c public) only_validators) _ (
        guarded-SameRequests s
          (ensure (not (contains_key s.nodes_outputs (r, public))) request_id_exists) _
          (fixed-SameRequests s _ refl refl refl)))

pub store_nodes_versions-SameRequests :
    (c : Chain) (origin : Origin) (public : AccountId) (version : ℕ) (s : Storage)
    → SameRequests s (store_nodes_versions c origin public version s)
unfolding store_nodes_versions
store_nodes_versions-SameRequests c origin public version s =
    guarded-SameRequests s (ensure_none origin) _ (
      guarded-SameRequests s (ensure (address_is_active_validator c public) only_validators) _ (
        guarded-SameRequests s
          (ensure (not (or_default (lookup public s.nodes_versions) 0 == version))
            version_already_stored)
          _ (fixed-SameRequests s _ refl refl refl)))

pub store_nodes_opoc_l0_inferences-SameRequests :
    (c : Chain) (origin : Origin) (public : AccountId) (r : RequestId) (index : ℕ) (proof : Data)
    (s : Storage)
    → SameRequests s (store_nodes_opoc_l0_inferences c origin public r index proof s)
unfolding store_nodes_opoc_l0_inferences
store_nodes_opoc_l0_inferences-SameRequests c origin public r index proof s =
    guarded-SameRequests s (ensure_none origin) _ (
      guarded-SameRequests s (ensure (address_is_active_validator c public) only_validators) _ (
        guarded-SameRequests s
          (ensure (not (has_index (lookup (r, public) s.nodes_opoc_l0_inferences) index))
            inference_already_exists)
          _ (fixed-SameRequests s _ refl refl refl)))

pub temporary_cleanup_inputs-SameRequests :
    (origin : Origin) (s : Storage) → SameRequests s (temporary_cleanup_inputs origin s)
unfolding temporary_cleanup_inputs
temporary_cleanup_inputs-SameRequests (signed who) s = fixed-SameRequests s s refl refl refl
temporary_cleanup_inputs-SameRequests root s = record {
  inputs = λ u h. cc;
  outputs = λ u h. cc;
  assignment = λ u h. cc;
}
temporary_cleanup_inputs-SameRequests unsigned s = record {
  inputs = λ u h. cc;
  outputs = λ u h. cc;
  assignment = λ u h. cc;
}

pub temporary_function-SameRequests :
    (origin : Origin) (s : Storage) → SameRequests s (temporary_function origin s)
unfolding temporary_function
temporary_function-SameRequests origin s =
    guarded-SameRequests s (ensure_none origin) _ (fixed-SameRequests s s refl refl refl)
