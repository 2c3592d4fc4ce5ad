-- ===== src/Engine/Inherent/Block.antt =====
-- One block: the inherent that its author makes is stored once, and the block can end.
use uomi_node.Prelude.{
  ℕ, Bool, true, not, Option, assert, ◌>>◌, none, some, ◌≡◌, refl, ap, [], ◌∷◌, Outcome, ok, panic,
  ◌∙◌, ok-injective, some-injective, ◌>>=◌, err,
}
use uomi_node.Prelude.Key.{nat_key}
use uomi_node.Prelude.Map.{Map, put, is_some}
use uomi_node.Engine.{AccountId, RequestId, EngineError, Chain, Storage, Operations}
use uomi_node.Engine.Calls.{unsigned, on_finalize}
use uomi_node.Engine.Models.{Model, aimodelscalc_run, aimodelscalc_store_operations}
use uomi_node.Engine.Run.{opoc_run}
use uomi_node.Engine.Run.Keys.Levels.{opoc_run-IsStored}
use uomi_node.Engine.Store.{opoc_store_operations}
use uomi_node.Engine.Store.Effect.{IsStored}
use uomi_node.Engine.Inherent.{
  InherentData, or_none, create_inherent, check_inherent, set_inherent_data,
}

-- Storing the models changes nothing else.
pub only_models :
    (models : Map ℕ Model) (s : Storage)
    → (m : Map ℕ Model) × (aimodelscalc_store_operations models s ≡ record s { ai_models = m })
unfolding aimodelscalc_store_operations
only_models [] s = (s.ai_models, refl)
only_models ((key, model) ∷ models) s =
    only_models models (record s { ai_models = put key model s.ai_models })

pub created :
    (c : Chain) (s : Storage) (ops : Operations) (models : Map ℕ Model)
    → create_inherent c s ≡ ok (some (ops, models))
    → opoc_run c s c.current_block_number ≡ ok ops
unfolding create_inherent
created c s ops models h =
    steps (opoc_run c s c.current_block_number) (aimodelscalc_run s c.current_block_number) h
  where
    steps :
        (m : Outcome EngineError Operations) (n : Outcome EngineError (Map ℕ Model))
        → or_none {A = InherentData} (m >>= λ o. n >>= λ p. ok (o, p)) ≡ ok (some (ops, models))
        → m ≡ ok ops
    steps panic n h = cc
    steps (err e) n h = cc
    steps (ok o) panic h = cc
    steps (ok o) (err e) h = cc
    steps (ok o) (ok p) h =
        let same : (o, p) ≡ (ops, models) = some-injective (ok-injective h) in
        ap (λ (d : InherentData). ok d.0) same

unset_passes :
    (flag : Option Bool) (t : Storage)
    → flag ≡ none
    → ◌≡◌ {A = Outcome EngineError Storage} (assert (not (is_some flag)) >> ok t) (ok t)
unset_passes none t e = refl
unset_passes (some b) t e = cc

-- A block of the inherent `data` on `s`: the check accepts it, the call stores it and leaves `t`, a second
-- inherent aborts the block, the end of the block passes, and the storage is that of OPoC's run.
pub record IsBlock (c : Chain) (answer : InherentData) (s t : Storage) : Type 0 where
  pub accepted : check_inherent answer s ≡ ok tt
  pub set : set_inherent_data c unsigned answer s ≡ ok t
  pub once : (other : InherentData) → set_inherent_data c unsigned other t ≡ panic
  pub ended : on_finalize t ≡ ok (record t { inherent_did_update = none })
  pub stored : (r : RequestId) (a : AccountId) → IsStored answer.0 s t r a

-- Where the author of a block makes an inherent from a storage in which none is set, the block passes:
-- the inherent is accepted, stores what the run of OPoC gives for every request and account, is taken
-- once only, and lets the block end.
pub create_inherent-IsBlock :
    (c : Chain) (s : Storage) (answer : InherentData)
    → create_inherent c s ≡ ok (some answer)
    → s.inherent_did_update ≡ none
    → (t : Storage) × IsBlock c answer s t
unfolding check_inherent set_inherent_data on_finalize
create_inherent-IsBlock c s (ops, models) h unset =
    let stored = opoc_store_operations c ops s in
    let (m, same) = only_models models stored in
    (
      record stored { ai_models = m; inherent_did_update = some true },
      record {
        accepted = refl;
        set =
            unset_passes s.inherent_did_update _ unset
            ∙ ap (λ (t : Storage). ok (record t { inherent_did_update = some true })) same;
        once = λ other. refl;
        ended = refl;
        stored = λ r a.
            let i =
              opoc_run-IsStored c s c.current_block_number ops (created c s ops models h) r a in
            record {
              blacklist = i.blacklist;
              assignment = i.assignment;
              works = i.works;
              timeouts = i.timeouts;
              errors = i.errors;
              outputs = i.outputs;
              inputs = i.inputs;
              answers = i.answers;
            };
      },
    )
