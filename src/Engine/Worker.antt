-- ===== src/Engine/Worker.antt =====
-- pallets/uomi-engine/src/offchain.rs: the off-chain worker of a node, which runs the agent of the next
-- request and leaves its output.
pub mod Next
pub mod Answer
use uomi_node.Prelude.{
  ℕ, ◌+◌, ◌-◌, ◌*◌, ◌%◌, ◌^◌, Bool, true, false, not, ◌&&◌, ◌||◌, Option, none, some, List, [], ◌∷◌,
  ◌++◌, Outcome, ok, err, panic, ◌>>=◌, ltb, leb, ◌==◌, if◌then◌else◌,
}
use uomi_node.Prelude.Key.{nat_key, pair_key}
use uomi_node.Prelude.Lists.{length, take}
use uomi_node.Prelude.Map.{Map, lookup, iter_prefix, contains_key, is_some, or_default}
use uomi_node.Engine.{
  AccountId, RequestId, BlockNumber, Data, Cid, EngineError, worker_error, Input, default_input,
  Chain, Storage,
}
use uomi_node.Engine.Calls.{address_is_active_validator}
use uomi_node.Engine.Models.{pallet_version}
use uomi_node.Engine.Run.{as_u32, max_inputs_managed_per_block}

-- The payloads of the transactions that a node sends, with the account that signs.
pub data Submission : Type 0 where
  output : AccountId → RequestId → Data → Submission
  version : AccountId → ℕ → Submission

-- A node: the semaphore of its workers, the accounts of its keys, and what it has sent.
pub record Node : Type 0 where
  pub semaphore : Bool
  pub accounts : List AccountId
  pub sent : List Submission

-- A worker that panics leaves the semaphore as it is, which is a static of the process.
pub data Run : Type 0 where
  returned panicked : Node → Run

-- What the worker calls: the gateway of IPFS, and the execution of an agent with its input, its file,
-- its level, its request and its time in milliseconds.
pub record Host : Type 0 where
  pub get_file : Cid → Option Data
  pub execute : Data → Input → ℕ → RequestId → ℕ → Outcome EngineError Data

-- The loop over the inputs: requests that are assigned to the account and have no output of it.
unfoldable pub assigned_requests :
    AccountId → Storage → Map RequestId Input → List (RequestId × BlockNumber)
assigned_requests account s [] = []
assigned_requests account s ((request_id, input) ∷ rest) =
    let others = assigned_requests account s rest in
    if not (contains_key s.opoc_assignment (request_id, account))
    then others
    else if contains_key s.nodes_outputs (request_id, account)
    then others
    else (request_id, or_default (lookup (request_id, account) s.opoc_assignment) 0) ∷ others

-- `sort_by` of the expirations keeps the order of equal ones.
unfoldable pub insert_request :
    RequestId × BlockNumber → List (RequestId × BlockNumber) → List (RequestId × BlockNumber)
insert_request r [] = r ∷ []
insert_request r (q ∷ rest) = if leb r.1 q.1 then r ∷ q ∷ rest else q ∷ insert_request r rest

unfoldable pub sort_requests : List (RequestId × BlockNumber) → List (RequestId × BlockNumber)
unfolding insert_request
sort_requests [] = []
sort_requests (r ∷ rest) = insert_request r (sort_requests rest)

-- The first one, and 0 if there is none.
abbrev pub first_request : List (RequestId × BlockNumber) → RequestId × BlockNumber
first_request [] = (0, 0)
first_request (r ∷ rest) = r

unfoldable pub offchain_find_request_with_min_expiration_block_number :
    AccountId → Storage → RequestId × BlockNumber
offchain_find_request_with_min_expiration_block_number account s =
    first_request
      (sort_requests (assigned_requests account s (take max_inputs_managed_per_block s.inputs)))

unfoldable pub offchain_detect_opoc_level : RequestId → ℕ → Storage → Outcome EngineError ℕ
offchain_detect_opoc_level request_id nft_required_consensus s = do
  level_1 ← as_u32 nft_required_consensus
  let count = length (iter_prefix request_id s.opoc_assignment)
  ok (if count == 0 then 0 else if count == 1 then 0 else if count == level_1 then 1 else 2)

abbrev pub outputs_of : RequestId → Data → List AccountId → List Submission
outputs_of request_id output_data [] = []
outputs_of request_id output_data (a ∷ rest) =
    output a request_id output_data ∷ outputs_of request_id output_data rest

-- A transaction of every account. Without one, the error is logged by every caller and nothing is sent.
unfoldable pub offchain_store_output_data : RequestId → Data → Node → Node
offchain_store_output_data request_id output_data node = record node {
  sent = node.sent ++ outputs_of request_id output_data node.accounts;
}

abbrev pub versions_of : ℕ → List AccountId → List Submission
versions_of v [] = []
versions_of v (a ∷ rest) = version a v ∷ versions_of v rest

unfoldable pub offchain_store_version : ℕ → Node → Node
offchain_store_version v node = record node { sent = node.sent ++ versions_of v node.accounts }

-- `BlockTime`, in seconds
abbrev pub block_time : ℕ
block_time = 3

-- `U256 - U256` panics below 0.
abbrev pub sub_u256 : ℕ → ℕ → Outcome EngineError ℕ
sub_u256 a b = if ltb a b then panic else ok (a - b)

-- `U256 * U256` panics above 256 bits.
abbrev pub mul_u256 : ℕ → ℕ → Outcome EngineError ℕ
mul_u256 a b = if ltb (a * b) (2 ^ 256) then ok (a * b) else panic

module _ (host : Host) where
  -- Up to the engine of WebAssembly
  unfoldable pub offchain_run_wasm :
      Chain → Data → Input → BlockNumber → ℕ → RequestId → Outcome EngineError Data
  offchain_run_wasm c wasm input expiration_block_number opoc_level request_id = do
    let start_block = c.current_block_number
    timeout_blocks_max ← sub_u256 input.nft_execution_max_time 3
    if ltb expiration_block_number start_block then err worker_error else do
      let blocks = expiration_block_number - start_block
      let timeout_blocks = if ltb timeout_blocks_max blocks then timeout_blocks_max else blocks
      timeout_seconds ← mul_u256 timeout_blocks block_time
      let timeout_time = timeout_seconds % 2 ^ 64
      host.execute wasm input opoc_level request_id ((timeout_time * 1000) % 2 ^ 64)

  abbrev pub unlock : Node → Node
  unlock node = record node { semaphore = false }

  -- The output, or an empty one after an error, is sent before the semaphore is unlocked.
  abbrev pub answer_with : RequestId → Outcome EngineError Data → Node → Run
  answer_with request_id (ok output_data) node =
      returned (unlock (offchain_store_output_data request_id output_data node))
  answer_with request_id (err e) node =
      returned (unlock (offchain_store_output_data request_id [] node))
  answer_with request_id panic node = panicked node

  -- From the load of the agent on
  abbrev pub run_agent :
      Chain → RequestId → Input → BlockNumber → Outcome EngineError ℕ → Node → Run
  run_agent c request_id input expiration_block_number (ok opoc_level) node =
      elim (host.get_file input.nft_file_cid) [
        | none ↦ answer_with request_id (err worker_error) node
        | some wasm ↦
            answer_with request_id
              (offchain_run_wasm c wasm input expiration_block_number opoc_level request_id) node
      ]
  run_agent c request_id input expiration_block_number (err e) node = panicked node
  run_agent c request_id input expiration_block_number panic node = panicked node

  unfoldable pub offchain_run_agents : Chain → Storage → AccountId → Node → Run
  offchain_run_agents c s account node =
      let locked = record node { semaphore = true } in
      let (request_id, expiration_block_number) =
        offchain_find_request_with_min_expiration_block_number account s in
      let input = or_default (lookup request_id s.inputs) default_input in
      if node.semaphore
      then returned node
      else if request_id == 0
      then returned (unlock locked)
      else run_agent c request_id input expiration_block_number
          (offchain_detect_opoc_level request_id input.nft_required_consensus s) locked

  unfoldable pub offchain_run : Chain → Storage → AccountId → Node → Run
  offchain_run c s account node =
      if not (address_is_active_validator c account)
      then returned node
      else offchain_run_agents c s account (
          if or_default (lookup account s.nodes_versions) 0 == pallet_version
          then node
          else offchain_store_version pallet_version node)
