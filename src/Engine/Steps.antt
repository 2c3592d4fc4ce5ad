-- ===== src/Engine/Steps.antt =====
-- pallets/uomi-engine/src/lib.rs: the storage from block to block, as the calls, the inherent and the
-- end of a block change it.
pub mod Frame
pub mod Pending
use uomi_node.Prelude.{ℕ, some, ◌≡◌, ok}
use uomi_node.Engine.{AccountId, RequestId, Cid, Data, Chain, Storage}
use uomi_node.Engine.Calls.{
  Origin, unsigned, store_nodes_outputs, store_nodes_versions, store_nodes_opoc_l0_inferences,
  temporary_cleanup_inputs, temporary_function, on_finalize,
}
use uomi_node.Engine.Inherent.{InherentData, create_inherent, set_inherent_data}
use uomi_node.Engine.Requests.{IpfsInterface, run_request}

-- The author of every block is honest: it sets the inherent that it creates from the same storage. (The
-- pallet accepts any other operations too, which are no step here.) The state of the IPFS pallet, and the
-- rest of the chain, are any at every step.
pub data Step {S : Type 0} (ipfs : IpfsInterface S) : Storage → Storage → Type 0 where
  requested :
      (c : Chain) (r address nft_id : ℕ) (input_data : Data) (input_file_cid : Cid)
      (min_validators min_blocks : ℕ) (s : Storage) (t : S) (s' : Storage) (t' : S)
      → run_request ipfs c r address nft_id input_data input_file_cid min_validators min_blocks s t
        ≡ some (ok (s', t'))
      → Step ipfs s s'
  inherent :
      (c : Chain) (answer : InherentData) (s s' : Storage)
      → create_inherent c s ≡ ok (some answer)
      → set_inherent_data c unsigned answer s ≡ ok s'
      → Step ipfs s s'
  finalized : (s s' : Storage) → on_finalize s ≡ ok s' → Step ipfs s s'
  answered :
      (c : Chain) (origin : Origin) (r : RequestId) (d : Data) (public : AccountId) (s s' : Storage)
      → store_nodes_outputs c origin r d public s ≡ ok s'
      → Step ipfs s s'
  versioned :
      (c : Chain) (origin : Origin) (public : AccountId) (version : ℕ) (s s' : Storage)
      → store_nodes_versions c origin public version s ≡ ok s'
      → Step ipfs s s'
  inferred :
      (c : Chain) (origin : Origin) (public : AccountId) (r : RequestId) (index : ℕ) (proof : Data)
      (s s' : Storage)
      → store_nodes_opoc_l0_inferences c origin public r index proof s ≡ ok s'
      → Step ipfs s s'
  cleaned :
      (origin : Origin) (s s' : Storage)
      → temporary_cleanup_inputs origin s ≡ ok s'
      → Step ipfs s s'
  called : (origin : Origin) (s s' : Storage) → temporary_function origin s ≡ ok s' → Step ipfs s s'

-- Any number of steps.
pub data Steps {S : Type 0} (ipfs : IpfsInterface S) : Storage → Storage → Type 0 where
  here : (s : Storage) → Steps ipfs s s
  next : (s u s' : Storage) → Steps ipfs s u → Step ipfs u s' → Steps ipfs s s'
