-- ===== src/Engine.antt =====
-- pallets/uomi-engine: the storage of the pallet, what it reads of the rest of the runtime, and
-- the operations that one run of OPoC collects. The functions of the pallet are in the children.
pub mod Selection
pub mod Works
pub mod Assignment
pub mod Deassignment
pub mod Outputs
pub mod Run
pub mod Store
pub mod Calls
pub mod FinneyV1
pub mod Models
pub mod Requests
pub mod Inherent
pub mod Worker
pub mod Steps
pub mod Tests
use uomi_node.Prelude.{
  ℕ, ◌+◌, ◌^◌, Bool, Option, List, [], none, Outcome, ok, panic, ltb, if◌then◌else◌,
}
use uomi_node.Prelude.Map.{Map}

-- An account is its 32 bytes read as a big-endian number, which keeps the order of the bytes.
abbrev pub AccountId : Type 0
AccountId = ℕ

abbrev pub RequestId : Type 0
RequestId = ℕ

abbrev pub BlockNumber : Type 0
BlockNumber = ℕ

abbrev pub Data : Type 0
Data = List ℕ

abbrev pub Cid : Type 0
Cid = List ℕ

pub data EngineError : Type 0 where
  not_enough_validators no_unique_index too_few_selected : EngineError
  only_validators request_id_exists version_already_stored inference_already_exists : EngineError
  no_local_names bad_origin ipfs_error worker_error : EngineError
  zero_request_id zero_address zero_nft_id input_too_large invalid_cid : EngineError
  no_agent no_status nft_expired nft_not_usable : EngineError

pub record Input : Type 0 where
  pub block_number : BlockNumber
  pub nft_id : ℕ
  pub nft_required_consensus : ℕ
  pub nft_execution_max_time : ℕ
  pub nft_file_cid : Cid
  pub input_data : Data
  pub input_file_cid : Cid

-- What a read of `Inputs` at a missing key gives.
abbrev pub default_input : Input
default_input = record {
  block_number = 0;
  nft_id = 0;
  nft_required_consensus = 0;
  nft_execution_max_time = 0;
  nft_file_cid = [];
  input_data = [];
  input_file_cid = [];
}

pub data Event : Type 0 where
  request_accepted : RequestId → ℕ → ℕ → Event
  opoc_blacklist_add opoc_blacklist_remove : AccountId → Event
  opoc_assignment_add : RequestId → AccountId → BlockNumber → Event
  opoc_assignment_remove : RequestId → AccountId → Event
  request_completed : RequestId → Data → ℕ → ℕ → Event
  node_output_received : RequestId → AccountId → Data → Event
  node_version_received : AccountId → ℕ → Event
  node_opoc_l0_inference_received : RequestId → AccountId → ℕ → Data → Event

-- The storage items of the pallet, and the events deposited so far.
pub record Storage : Type 0 where
  pub inherent_did_update : Option Bool
  pub nodes_outputs : Map (RequestId × AccountId) Data
  pub nodes_works : Map (AccountId × RequestId) Bool
  pub nodes_timeouts : Map AccountId ℕ
  pub nodes_errors : Map AccountId ℕ
  pub nodes_versions : Map AccountId ℕ
  pub nodes_opoc_l0_inferences : Map (RequestId × AccountId) (ℕ × Data)
  pub inputs : Map RequestId Input
  pub outputs : Map RequestId (Data × ℕ × ℕ)
  pub opoc_blacklist : Map AccountId Bool
  pub opoc_assignment : Map (RequestId × AccountId) BlockNumber
  pub ai_models : Map ℕ (Data × Data × BlockNumber)
  pub events : List Event

-- The rest of the runtime, as this pallet reads it: the validators of pallet_staking and of
-- pallet_session, the block number, the two randomness sources, and the IPFS pallet.
pub record Chain : Type 0 where
  pub validators : List AccountId
  pub session_validators : List AccountId
  pub current_block_number : BlockNumber
  pub random_seed_old : List ℕ
  pub random_seed : List ℕ
  pub get_cid_status : Cid → Outcome EngineError (BlockNumber × BlockNumber)

-- The six maps of operations that `opoc_run` returns.
pub record Operations : Type 0 where
  pub opoc_blacklist_operations : Map AccountId Bool
  pub opoc_assignment_operations : Map (RequestId × AccountId) BlockNumber
  pub nodes_works_operations : Map AccountId (Map RequestId Bool)
  pub nodes_timeouts_operations : Map AccountId ℕ
  pub nodes_errors_operations : Map AccountId ℕ
  pub outputs_operations : Map RequestId (Data × ℕ × ℕ)

abbrev pub no_operations : Operations
no_operations = record {
  opoc_blacklist_operations = [];
  opoc_assignment_operations = [];
  nodes_works_operations = [];
  nodes_timeouts_operations = [];
  nodes_errors_operations = [];
  outputs_operations = [];
}

abbrev pub empty_storage : Storage
empty_storage = record {
  inherent_did_update = none;
  nodes_outputs = [];
  nodes_works = [];
  nodes_timeouts = [];
  nodes_errors = [];
  nodes_versions = [];
  nodes_opoc_l0_inferences = [];
  inputs = [];
  outputs = [];
  opoc_blacklist = [];
  opoc_assignment = [];
  ai_models = [];
  events = [];
}

-- `U256 + U256` panics on overflow.
unfoldable pub add_u256 {ℓ} : {E : Type ℓ} → ℕ → ℕ → Outcome E ℕ
add_u256 a b = if ltb (a + b) (2 ^ 256) then ok (a + b) else panic
