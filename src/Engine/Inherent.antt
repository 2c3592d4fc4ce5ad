-- ===== src/Engine/Inherent.antt =====
-- pallets/uomi-engine/src/lib.rs: the inherent of a block, which runs OPoC and the election of the
-- AI models.
pub mod Block
use uomi_node.Prelude.{
  ℕ, Bool, true, false, not, Option, none, some, Outcome, ok, err, panic, ◌>>=◌, ◌>>◌, assert,
  if◌then◌else◌,
}
use uomi_node.Prelude.Map.{Map, is_some}
use uomi_node.Engine.{EngineError, Chain, Storage, Operations}
use uomi_node.Engine.Calls.{Origin, ensure_none}
use uomi_node.Engine.Models.{Model, aimodelscalc_run, aimodelscalc_store_operations}
use uomi_node.Engine.Run.{opoc_run}
use uomi_node.Engine.Store.{opoc_store_operations}

abbrev pub InherentData : Type 0
InherentData = Operations × Map ℕ Model

-- An error of one of the two runs gives no inherent.
abbrev pub or_none {ℓ} : {A : Type ℓ} → Outcome EngineError A → Outcome EngineError (Option A)
or_none (ok a) = ok (some a)
or_none (err e) = ok none
or_none panic = panic

unfoldable pub create_inherent : Chain → Storage → Outcome EngineError (Option InherentData)
create_inherent c s = or_none (do
  opoc_operations ← opoc_run c s c.current_block_number
  aimodelscalc_operations ← aimodelscalc_run s c.current_block_number
  ok (opoc_operations, aimodelscalc_operations))

-- The comparisons are commented out.
unfoldable pub check_inherent : InherentData → Storage → Outcome EngineError (Unit {0})
check_inherent operations s = ok tt

unfoldable pub set_inherent_data :
    Chain → Origin → InherentData → Storage → Outcome EngineError Storage
set_inherent_data c origin (opoc_operations, aimodelscalc_operations) s = do
  ensure_none origin
  assert (not (is_some s.inherent_did_update))
  let stored = opoc_store_operations c opoc_operations s
  ok (record (aimodelscalc_store_operations aimodelscalc_operations stored) {
    inherent_did_update = some true;
  })
