-- ===== src/Engine/Requests.antt =====
-- pallets/uomi-engine/src/lib.rs: the request of a user, which uses the IPFS pallet.
pub mod Accepted
pub mod Old
pub mod Whole
pub mod Pallet
pub mod Effect
use uomi_node.Prelude.{
  ℕ, ◌+◌, ◌*◌, ◌^◌, Bool, true, false, not, ◌&&◌, Option, none, some, List, [], ◌∷◌, ◌++◌, ◌≡◌,
  Outcome, ok, err, panic, ◌>>=◌, ◌>>◌, ensure, or_logged, ltb, leb, ◌==◌, if◌then◌else◌,
}
use uomi_node.Prelude.Key.{nat_key}
use uomi_node.Prelude.Lists.{length, is_empty}
use uomi_node.Prelude.Map.{lookup, put, contains_key, is_some}
use uomi_node.Engine.{
  AccountId, RequestId, BlockNumber, Cid, Data, EngineError, request_id_exists, zero_request_id,
  zero_address, zero_nft_id, input_too_large, invalid_cid, no_agent, no_status, nft_expired,
  nft_not_usable, request_accepted, Input, Chain, Storage, Operations, no_operations, add_u256,
}
use uomi_node.Engine.FinneyV1.{opoc_assignment_finney_v1}
use uomi_node.Engine.Store.{opoc_store_operations}

-- `IpfsInterface` (pallets/uomi-engine/src/ipfs.rs) on the states `S` of a pallet, as far as
-- `run_request` uses it. What the engine relies on: pinning a file changes no agent.
pub record IpfsInterface (S : Type 0) : Type 0 where
  pub get_agent_cid : ℕ → S → Outcome EngineError Cid
  pub get_cid_status : Cid → S → Outcome EngineError (BlockNumber × BlockNumber)
  pub pin_file : AccountId → Cid → ℕ → S → Outcome EngineError S
  pub pin_file_agents :
      (who : AccountId) (cid : Cid) (duration nft_id : ℕ) (s s' : S)
      → pin_file who cid duration s ≡ ok s'
      → get_agent_cid nft_id s' ≡ get_agent_cid nft_id s

-- `MaxDataSize`, `MaxCidSize` and `MinExpireDuration`
abbrev pub max_data_size : ℕ
max_data_size = 1048576

abbrev pub max_cid_size : ℕ
max_cid_size = 59

abbrev pub min_expire_duration : ℕ
min_expire_duration = 28800

-- The 20 bytes of the address, followed by zeros.
unfoldable pub h160_to_account_id : ℕ → AccountId
h160_to_account_id address = address * 2 ^ 96

-- An error of the callee becomes the error of the caller.
abbrev pub or_error {ℓ} : {A : Type ℓ} → Outcome EngineError A → EngineError → Outcome EngineError A
or_error (ok a) e = ok a
or_error (err e') e = err e
or_error panic e = panic

-- The tests on the status of the agent's file.
unfoldable pub check_nft_file :
    BlockNumber → BlockNumber × BlockNumber → Outcome EngineError (Unit {0})
check_nft_file block_number (expiration, usable_from) = do
  expires ←
      if expiration == 0
      then ok false
      else do needed ← add_u256 block_number min_expire_duration; ok (ltb expiration needed)
  ensure (not expires) nft_expired
  ensure (not (usable_from == 0)) nft_not_usable
  ensure (leb usable_from block_number) nft_not_usable

-- The operations of a request of the first blocks of the finney chain; an assignment that fails is
-- left to OPoC, and `none` is one that does not end.
unfoldable pub old_unsecured_mode :
    Chain → RequestId → Storage → Option (Outcome EngineError Storage)
old_unsecured_mode c request_id s =
    elim (opoc_assignment_finney_v1 c s request_id c.current_block_number 1 [] true no_operations) [
      | none ↦ none
      | some o ↦ some (or_logged (o >>= λ ops. ok (opoc_store_operations c ops s)) s)
    ]

module _ {S : Type 0} (ipfs : IpfsInterface S) where
  -- `if !input_file_cid.is_empty()`
  unfoldable pub pin_input_file : ℕ → Cid → S → Outcome EngineError S
  pin_input_file address input_file_cid t =
      if is_empty input_file_cid
      then ok t
      else ipfs.pin_file (h160_to_account_id address) input_file_cid min_expire_duration t

  -- The request up to its storage, with the state of the IPFS pallet that it leaves.
  unfoldable pub accept_request :
      Chain
      → RequestId
      → ℕ
      → ℕ
      → Data
      → Cid
      → ℕ
      → ℕ
      → Storage
      → S
      → Outcome EngineError (Storage × S)
  accept_request c request_id address nft_id input_data input_file_cid min_validators min_blocks s
        t =
      do
        ensure (ltb 0 request_id) zero_request_id
        ensure (not (address == 0)) zero_address
        ensure (ltb 0 nft_id) zero_nft_id
        ensure (not (contains_key s.inputs request_id)) request_id_exists
        ensure (leb (length input_data) max_data_size) input_too_large
        ensure (leb (length input_file_cid) max_cid_size) invalid_cid
        t' ← pin_input_file address input_file_cid t
        nft_file_cid ← or_error (ipfs.get_agent_cid nft_id t') no_agent
        status ← or_error (ipfs.get_cid_status nft_file_cid t') no_status
        check_nft_file c.current_block_number status
        let input : Input = record {
          block_number = c.current_block_number;
          nft_id = nft_id;
          nft_required_consensus = min_validators;
          nft_execution_max_time = min_blocks;
          nft_file_cid = nft_file_cid;
          input_data = input_data;
          input_file_cid = input_file_cid;
        }
        ok (record s { inputs = put request_id input s.inputs }, t')

  -- The last event of an accepted request.
  abbrev pub announce : RequestId → ℕ → ℕ → Storage × S → Storage × S
  announce request_id address nft_id (s, t) =
      (record s { events = s.events ++ request_accepted request_id address nft_id ∷ [] }, t)

  -- Of the storage alone.
  abbrev pub with_pallet : S → Outcome EngineError Storage → Outcome EngineError (Storage × S)
  with_pallet t m = m >>= λ s. ok (s, t)

  -- `if request_id <= 47 && nft_required_consensus <= 1`
  unfoldable pub assign_old :
      Chain → RequestId → ℕ → Storage × S → Option (Outcome EngineError (Storage × S))
  assign_old c request_id min_validators (s, t) =
      if leb request_id 47 && leb min_validators 1
      then elim (old_unsecured_mode c request_id s) [
        | none ↦ none
        | some o ↦ some (with_pallet t o)
      ]
      else some (ok (s, t))

  unfoldable pub run_request :
      Chain
      → RequestId
      → ℕ
      → ℕ
      → Data
      → Cid
      → ℕ
      → ℕ
      → Storage
      → S
      → Option (Outcome EngineError (Storage × S))
  run_request c request_id address nft_id input_data input_file_cid min_validators min_blocks s t =
      elim (accept_request c request_id address nft_id input_data input_file_cid min_validators
        min_blocks s t) [
          | err e ↦ some (err e)
          | panic ↦ some panic
          | ok accepted ↦ elim (assign_old c request_id min_validators accepted) [
            | none ↦ none
            | some o ↦ some (o >>= λ st. ok (announce request_id address nft_id st))
          ]
        ]
