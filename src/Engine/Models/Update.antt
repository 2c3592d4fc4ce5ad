-- ===== src/Engine/Models/Update.antt =====
-- A change of the names of the AI models, over the blocks after it.
use uomi_node.Prelude.{
  ℕ, ◌+◌, ◌≤◌, ◌<◌, Option, none, some, ◌≡◌, ◌≢◌, ◌∙◌, refl, sym, subst, ap, inl, inr, [], ◌∷◌,
  arith, ltb, if◌then◌else◌, Bool-cases, ok, >>=_inverted, ok-injective, some-injective, ◌==◌,
  ==_iff,
}
use uomi_node.Prelude.Key.{nat_key, bytes_key, bytes_beq_iff, ◌=?◌}
use uomi_node.Prelude.Lists.{Distinct}
use uomi_node.Prelude.Map.{
  Map, lookup, insert, put, keys, or_default, lookup-insert, lookup-put, keys-insert-Distinct,
  contains-keys,
}
use uomi_node.Engine.{BlockNumber, Data, Storage, add_u256}
use uomi_node.Engine.Models.{
  Model, max_blocks_to_wait_node_update, aimodelscalc_get_most_used_version, model,
  model_operations, names_or_error, aimodelscalc_run, aimodelscalc_store_operations,
}
use uomi_node.Engine.Models.Names.{aimodelscalc_get_local_names_per_versions}

-- The model `m` of a key that the run at a block leaves, where the elected version has `name` for it.
pub record IsUpdated (key : ℕ) (current : BlockNumber) (s : Storage) (name : Option Data)
    (m : Model) : Type 0 where
  pub unnamed : name ≡ none → m ≡ model key s
  pub keeps : name ≡ some (model key s).0 → m ≡ model key s
  pub waits : current < (model key s).2 → m ≡ model key s
  pub updates :
      (new : Data)
      → name ≡ some new
      → (model key s).0 ≢ new
      → (model key s).2 ≤ current
      → m ≡ (new, (model key s).0, current + max_blocks_to_wait_node_update)

module _ (s : Storage) (current : BlockNumber) (key : ℕ) where
  -- The operation on a key, where the names of the version have `name` for it and `before` was there.
  unfoldable operation : Option Data → Option Model → Option Model
  operation none before = before
  operation (some name) before =
      if (model key s).0 =? name
      then before
      else if ltb current (model key s).2
      then before
      else some (name, (model key s).0, current + max_blocks_to_wait_node_update)

  lookup-model_operations :
      (names : Map ℕ Data) (before operations : Map ℕ Model)
      → Distinct (keys names)
      → model_operations s current names before ≡ ok operations
      → lookup key operations ≡ operation (lookup key names) (lookup key before)
  unfolding model_operations lookup operation add_u256
  lookup-model_operations [] before operations d h = ap (lookup key) (sym (ok-injective h))
  lookup-model_operations ((k, name) ∷ names) before operations d h =
      let entry' : Model = (name, (model k s).0, current + max_blocks_to_wait_node_update) in
      ground (
        arith,
        lookup-model_operations names before operations d.1,
        lookup-model_operations names (insert k entry' before) operations d.1,
        lookup-insert k key entry' before,
        contains-keys names k,
        d.0,
        ==_iff k key,
      )

model_operations-Distinct :
    (s : Storage) (current : BlockNumber) (names : Map ℕ Data) (before operations : Map ℕ Model)
    → Distinct (keys before)
    → model_operations s current names before ≡ ok operations
    → Distinct (keys operations)
unfolding model_operations add_u256
model_operations-Distinct s current [] before operations d h =
    subst (λ (m : Map ℕ Model). Distinct (keys m)) (ok-injective h) d
model_operations-Distinct s current ((k, name) ∷ names) before operations d h =
    let m : Model = (name, (model k s).0, current + max_blocks_to_wait_node_update) in
    ground (
      arith,
      model_operations-Distinct s current names before operations d,
      model_operations-Distinct s current names (insert k m before) operations
          (keys-insert-Distinct k m before d),
    )

lookup-aimodelscalc_store_operations :
    (key : ℕ) (operations : Map ℕ Model) (s : Storage)
    → Distinct (keys operations)
    → lookup key (aimodelscalc_store_operations operations s).ai_models
      ≡ elim (lookup key operations) [ none ↦ lookup key s.ai_models | some m ↦ some m ]
unfolding lookup aimodelscalc_store_operations
lookup-aimodelscalc_store_operations key [] s d = refl
lookup-aimodelscalc_store_operations key ((k, m) ∷ operations) s d = ground (
  arith,
  lookup-aimodelscalc_store_operations key operations (record s { ai_models = put k m s.ai_models })
      d.1,
  lookup-put k key m s.ai_models,
  contains-keys operations k,
  d.0,
  ==_iff k key,
)

abbrev AllDistinct : Map ℕ (Map ℕ Data) → Type 0
AllDistinct [] = Unit
AllDistinct ((v, names) ∷ rest) = Distinct (keys names) × AllDistinct rest

lookup-AllDistinct :
    (v : ℕ) (names : Map ℕ Data) (table : Map ℕ (Map ℕ Data))
    → AllDistinct table
    → lookup v table ≡ some names
    → Distinct (keys names)
unfolding lookup
lookup-AllDistinct v names [] d h = cc
lookup-AllDistinct v names ((w, others) ∷ rest) (d, ds) h = elim (Bool-cases (w == v)) [
  | inl here ↦
      subst (λ (m : Map ℕ Data). Distinct (keys m)) (some-injective (ground (arith, here, h))) d
  | inr later ↦ lookup-AllDistinct v names rest ds (ground (arith, later, h))
]

-- The names of each version name no key twice.
names-Distinct :
    (v : ℕ) (names : Map ℕ Data)
    → lookup v aimodelscalc_get_local_names_per_versions ≡ some names
    → Distinct (keys names)
names-Distinct v names h =
    lookup-AllDistinct v names aimodelscalc_get_local_names_per_versions distinct h
  where
    distinct : AllDistinct aimodelscalc_get_local_names_per_versions
    distinct =
        unfold aimodelscalc_get_local_names_per_versions in
        (
          (refl, tt),
          (
            (refl, tt),
            (
              (refl, tt),
              ((refl, (refl, (refl, (refl, tt)))), ((refl, (refl, (refl, (refl, tt)))), tt)),
            ),
          ),
        )

stored_operation-IsUpdated :
    (s : Storage) (current : BlockNumber) (key : ℕ) (name : Option Data)
    (planned found : Option Model)
    → planned ≡ operation s current key name none
    → found ≡ elim planned [ none ↦ lookup key s.ai_models | some m ↦ some m ]
    → IsUpdated key current s name (or_default found ([], [], 0))
unfolding operation model
stored_operation-IsUpdated s current key name planned found h stored = record {
  unnamed = λ e. ground (arith);
  keeps = λ e. ground (arith, bytes_beq_iff (model key s).0 (model key s).0);
  waits = λ e. ground (arith);
  updates = λ new e other due. ground (arith, bytes_beq_iff (model key s).0 new);
}

-- After a run at `current_block` is stored, a model is the one before if the elected version has no
-- name for it, if its name stays, or if the one before is not available yet; otherwise it has the new
-- name, the name before it, and is available 100 blocks later.
pub aimodelscalc_run_updates :
    (s : Storage) (current : BlockNumber) (operations : Map ℕ Model) (names : Map ℕ Data) (key : ℕ)
    → lookup (aimodelscalc_get_most_used_version s) aimodelscalc_get_local_names_per_versions
      ≡ some names
    → aimodelscalc_run s current ≡ ok operations
    → IsUpdated key current s
        (lookup key names)
        (model key (aimodelscalc_store_operations operations s))
unfolding aimodelscalc_run model lookup
aimodelscalc_run_updates s current operations names key elected h =
    let start =
      lookup (aimodelscalc_get_most_used_version s) aimodelscalc_get_local_names_per_versions in
    let (names', given, ran') = >>=_inverted (names_or_error start) _ (sym h) in
    let same : names' ≡ names = ok-injective (sym given ∙ ap names_or_error elected) in
    let ran : model_operations s current names [] ≡ ok operations =
      subst (λ (m : Map ℕ Data). model_operations s current m [] ≡ ok operations) same ran' in
    stored_operation-IsUpdated s current key (lookup key names) (lookup key operations) _
      (lookup-model_operations s current key names [] operations (names-Distinct _ names elected)
        ran)
      (lookup-aimodelscalc_store_operations key operations s
        (model_operations-Distinct s current names [] operations tt ran))
