-- ===== src/Engine/Requests/Pallet.antt =====
-- The IPFS pallet as the engine uses it: pallets/ipfs/src/lib.rs behind `IpfsInterface`.
use uomi_node.Prelude.{ℕ, ◌≡◌, Outcome, ok, err, panic, arith}
use uomi_node.Engine.{EngineError, ipfs_error}
use uomi_node.Engine.Requests.{IpfsInterface}
use uomi_node.Ipfs.{Cid, Storage, IpfsError, signed, get_cid_status, get_agent_cid, pin_file}

-- The engine tells no two errors of the pallet apart.
abbrev pub from_ipfs {ℓ} : {A : Type ℓ} → Outcome IpfsError A → Outcome EngineError A
from_ipfs (ok a) = ok a
from_ipfs (err e) = err ipfs_error
from_ipfs panic = panic

-- A pinned file leaves the agents as they are.
pub pin_file_keeps :
    (who : ℕ) (cid : Cid) (duration nft_id : ℕ) (s s' : Storage)
    → from_ipfs (pin_file (signed who) cid duration s) ≡ ok s'
    → from_ipfs (get_agent_cid nft_id s') ≡ from_ipfs (get_agent_cid nft_id s)
unfolding pin_file get_agent_cid
pin_file_keeps who cid duration nft_id s s' h = ground (arith)

abbrev pub ipfs_pallet : IpfsInterface Storage
ipfs_pallet = record {
  get_agent_cid = λ nft_id s. from_ipfs (get_agent_cid nft_id s);
  get_cid_status = λ cid s. ok (get_cid_status cid s);
  pin_file = λ who cid duration s. from_ipfs (pin_file (signed who) cid duration s);
  pin_file_agents = pin_file_keeps;
}
