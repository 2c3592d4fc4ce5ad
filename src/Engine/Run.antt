-- ===== src/Engine/Run.antt =====
-- pallets/uomi-engine/src/opoc.rs: one run of OPoC over the pending requests.
pub mod Level0
pub mod Level1
pub mod Level2
pub mod Bounds
pub mod Kept
pub mod Within
pub mod Keys
use uomi_node.Prelude.{
  ℕ, ◌+◌, ◌^◌, Bool, true, false, not, List, [], ◌∷◌, Outcome, ok, err, panic, ◌>>=◌, or_logged,
  ltb, ◌==◌, if◌then◌else◌, ◌&&◌,
}
use uomi_node.Prelude.Lists.{length, take, is_empty}
use uomi_node.Prelude.Map.{Map, iter_prefix}
use uomi_node.Engine.{
  RequestId, BlockNumber, Cid, EngineError, Input, Chain, Storage, Operations, no_operations,
  add_u256,
}
use uomi_node.Engine.Assignment.{opoc_assignment}
use Level0.{check_level_0}
use Level1.{check_level_1}
use Level2.{check_level_2}

-- `MinExpireDuration` of pallet_ipfs.
abbrev pub min_expire_duration : ℕ
min_expire_duration = 28800

-- `MAX_INPUTS_MANAGED_PER_BLOCK`
abbrev pub max_inputs_managed_per_block : ℕ
max_inputs_managed_per_block = 100

-- The test of a file, from its status: not about to expire, and usable from a block that is past.
-- `limit` is the sum on the right of the first comparison.
unfoldable pub status_is_usable :
    BlockNumber
    → BlockNumber
    → BlockNumber × BlockNumber
    → Outcome EngineError ℕ
    → Outcome EngineError Bool
status_is_usable current_block block_number (expiration, usable_from) limit = do
  expires ←
      if expiration == 0
      then ok false
      else do needed ← add_u256 block_number min_expire_duration; last ← limit; ok (ltb last needed)
  ok (not expires && not (usable_from == 0) && not (ltb current_block usable_from))

-- A status that cannot be read makes the request wait.
abbrev pub usable_or_wait : Outcome EngineError Bool → Outcome EngineError Bool
usable_or_wait m = or_logged m false

unfoldable pub nft_file_is_usable : Chain → BlockNumber → Input → Outcome EngineError Bool
nft_file_is_usable c current_block input =
    if is_empty input.nft_file_cid
    then ok true
    else usable_or_wait (do
      status ← c.get_cid_status input.nft_file_cid
      status_is_usable current_block input.block_number status (ok status.0))

unfoldable pub input_file_is_usable : Chain → BlockNumber → Input → Outcome EngineError Bool
input_file_is_usable c current_block input =
    if is_empty input.input_file_cid
    then ok true
    else usable_or_wait (do
      status ← c.get_cid_status input.input_file_cid
      status_is_usable current_block input.block_number status (add_u256 status.0 1))

-- `match opoc_assignment_count`
unfoldable pub run_levels :
    Chain → Storage → BlockNumber → RequestId → ℕ → Operations → Outcome EngineError Operations
run_levels c s current_block request_id level_1 ops =
    let count = length (iter_prefix request_id s.opoc_assignment) in
    if count == 0
    then or_logged (opoc_assignment c s request_id current_block 1 [] true ops) ops
    else if count == 1
    then check_level_0 c s current_block request_id level_1 ops
    else if count == level_1
    then check_level_1 c s current_block request_id ops
    else if ltb level_1 count
    then check_level_2 s current_block request_id ops
    else ok ops

-- `U256::as_u32` panics above 32 bits.
unfoldable pub as_u32 : ℕ → Outcome EngineError ℕ
as_u32 n = if ltb n (2 ^ 32) then ok n else panic

-- The body of the loop, for one request.
unfoldable pub run_input :
    Chain → Storage → BlockNumber → RequestId → Input → Operations → Outcome EngineError Operations
run_input c s current_block request_id input ops = do
  level_1 ← as_u32 input.nft_required_consensus
  nft_usable ← nft_file_is_usable c current_block input
  if not nft_usable then ok ops else do
    input_usable ← input_file_is_usable c current_block input
    if not input_usable then ok ops else run_levels c s current_block request_id level_1 ops

unfoldable pub run_inputs :
    Chain
    → Storage
    → BlockNumber
    → Map RequestId Input
    → Operations
    → Outcome EngineError Operations
run_inputs c s current_block [] ops = ok ops
run_inputs c s current_block ((request_id, input) ∷ rest) ops = do
  ops' ← run_input c s current_block request_id input ops
  run_inputs c s current_block rest ops'

unfoldable pub opoc_run : Chain → Storage → BlockNumber → Outcome EngineError Operations
opoc_run c s current_block =
    run_inputs c s current_block (take max_inputs_managed_per_block s.inputs) no_operations
