-- ===== src/Ipfs.antt =====
-- pallets/ipfs/src/lib.rs, storages.rs: the pins of agents and files, and the calls on them.
pub mod Inherent
pub mod Files
pub mod Node
pub mod Pins
pub mod Tests
use uomi_node.Prelude.{
  ℕ, ◌+◌, ◌/◌, ◌-◌, ◌^◌, min, Bool, true, false, not, ◌&&◌, Option, none, some, List, [], ◌∷◌, ◌++◌,
  Outcome, ok, err, panic, ◌>>=◌, ◌>>◌, ensure, assert, leb, ltb, ◌==◌, if◌then◌else◌,
}
use uomi_node.Prelude.Key.{nat_key, bytes_key, ◌=?◌}
use uomi_node.Prelude.Lists.{length, filter, is_empty, contains}
use uomi_node.Prelude.Map.{Map, lookup, put, remove, keys, or_default, contains_key}

abbrev pub AccountId : Type 0
AccountId = ℕ

abbrev pub Cid : Type 0
Cid = List ℕ

-- `(ExpirationBlockNumber, UsableFromBlockNumber)`; an expiration of 0 is none at all.
abbrev pub Status : Type 0
Status = ℕ × ℕ

pub data IpfsOperation : Type 0 where
  pin unpin get is_pinned : IpfsOperation

pub data IpfsEvent : Type 0 where
  operation_success : IpfsOperation → Cid → IpfsEvent
  temporary_pin_created : Cid → ℕ → IpfsEvent

pub data IpfsError : Type 0 where
  bad_origin something_went_wrong empty_cid short_duration only_validators : IpfsError
  no_local_public_key no_accounts not_active http_unknown invalid_inherent_value empty_agent :
      IpfsError

pub data Origin : Type 0 where
  root unsigned : Origin
  signed : AccountId → Origin

-- `nodes_pins` is the double map, grouped by its first key. `validators` is what
-- `pallet_staking::Validators` lists; it and `block_number` belong to other pallets.
pub record Storage : Type 0 where
  pub nodes_pins : Map Cid (Map AccountId Bool)
  pub inherent_did_update : Option Bool
  pub agents_pins : Map ℕ Cid
  pub cids_status : Map Cid Status
  pub events : List IpfsEvent
  pub validators : List AccountId
  pub block_number : ℕ

abbrev pub min_expire_duration : ℕ
min_expire_duration = 28800

-- `saturating_add` of 32 bits, and the conversion of 256 bits to 32
abbrev pub max_u32 : ℕ
max_u32 = 2 ^ 32 - 1

abbrev pub saturating_add : ℕ → ℕ → ℕ
saturating_add a b = min (a + b) max_u32

abbrev pub ensure_signed : Origin → Outcome IpfsError AccountId
ensure_signed (signed who) = ok who
ensure_signed root = err bad_origin
ensure_signed unsigned = err bad_origin

abbrev pub ensure_none : Origin → Outcome IpfsError (Unit {0})
ensure_none unsigned = ok tt
ensure_none root = err bad_origin
ensure_none (signed who) = err bad_origin

-- `CidsStatus::get`
unfoldable pub get_cid_status : Cid → Storage → Status
get_cid_status cid s = or_default (lookup cid s.cids_status) (0, 0)

-- The CID that an agent leaves gets an expiration.
unfoldable pub expire : Cid → Storage → Storage
unfolding get_cid_status
expire cid s = record s {
  cids_status =
      put cid (saturating_add s.block_number min_expire_duration, (get_cid_status cid s).1)
        s.cids_status;
}

unfoldable pub pin_to : Cid → ℕ → Storage → Storage
pin_to cid nft_id s = record s {
  agents_pins = put nft_id cid s.agents_pins;
  cids_status = put cid (0, 0) s.cids_status;
  events = s.events ++ operation_success pin cid ∷ [];
}

-- What `pin_agent` does by the CID that the agent has.
unfoldable pub repin : Cid → ℕ → Storage → Option Cid → Outcome IpfsError Storage
repin cid nft_id s none = ok (pin_to cid nft_id s)
repin cid nft_id s (some existing_cid) =
    if existing_cid =? cid
    then err something_went_wrong
    else ok (pin_to cid nft_id (expire existing_cid s))

unfoldable pub pin_agent : Origin → Cid → ℕ → Storage → Outcome IpfsError Storage
pin_agent origin cid nft_id s = do
  who ← ensure_signed origin
  repin cid nft_id s (lookup nft_id s.agents_pins)

-- The new status of a file that is pinned until `new_expires_at`.
unfoldable pub extend : ℕ → Option Status → Status
extend new_expires_at none = (new_expires_at, 0)
extend new_expires_at (some (expires_at, usable_from)) =
    if ltb expires_at new_expires_at
    then (new_expires_at, usable_from)
    else (expires_at, usable_from)

unfoldable pub pin_file : Origin → Cid → ℕ → Storage → Outcome IpfsError Storage
pin_file origin cid duration s = do
  who ← ensure_signed origin
  ensure (not (is_empty cid)) empty_cid
  ensure (leb min_expire_duration duration) short_duration
  let new_expires_at = saturating_add s.block_number duration
  ok (record s {
    cids_status = put cid (extend new_expires_at (lookup cid s.cids_status)) s.cids_status;
    events = s.events ++ temporary_pin_created cid new_expires_at ∷ [];
  })

-- `NodesPins::iter_prefix`
unfoldable pub pins_of : Cid → Storage → Map AccountId Bool
pins_of cid s = or_default (lookup cid s.nodes_pins) []

unfoldable pub add_node_pin : Cid → AccountId → Storage → Storage
unfolding pins_of
add_node_pin cid node_id s = record s {
  nodes_pins = put cid (put node_id true (pins_of cid s)) s.nodes_pins;
  events = s.events ++ operation_success pin cid ∷ [];
}

unfoldable pub remove_node_pin : Cid → AccountId → Storage → Storage
unfolding pins_of
remove_node_pin cid node_id s = record s {
  nodes_pins = put cid (remove node_id (pins_of cid s)) s.nodes_pins;
  events = s.events ++ operation_success unpin cid ∷ [];
}

unfoldable pub add_node_pins : Map Cid Status → AccountId → Storage → Storage
add_node_pins [] public s = s
add_node_pins ((cid, status) ∷ rest) public s =
    add_node_pins rest public (add_node_pin cid public s)

unfoldable pub remove_node_pins : Map Cid Status → AccountId → Storage → Storage
remove_node_pins [] public s = s
remove_node_pins ((cid, status) ∷ rest) public s =
    remove_node_pins rest public (remove_node_pin cid public s)

-- `is_validator`; `public` is the account of the payload's key.
unfoldable pub is_validator : AccountId → Storage → Bool
is_validator public s = contains s.validators public

unfoldable pub submit_processed_pins :
    Origin → AccountId → Map Cid Status → Map Cid Status → Storage → Outcome IpfsError Storage
submit_processed_pins origin public to_save to_remove s = do
  ensure_none origin
  ensure (is_validator public s) only_validators
  ok (remove_node_pins to_remove public (add_node_pins to_save public s))

-- How many of the validators have pinned the CID.
unfoldable pub pinned_count : Cid → Storage → ℕ
pinned_count cid s = length (filter (contains (keys (pins_of cid s))) s.validators)

unfoldable pub required_majority : ℕ → ℕ
required_majority total_validators = if leb total_validators 3 then 1 else total_validators / 2 + 1

unfoldable pub is_majority_pinned : Cid → Storage → Bool
unfolding pins_of pinned_count required_majority
is_majority_pinned cid s =
    if is_empty s.validators
    then false
    else if is_empty (pins_of cid s)
    then false
    else leb (required_majority (length s.validators)) (pinned_count cid s)

unfoldable pub get_agent_cid : ℕ → Storage → Outcome IpfsError Cid
get_agent_cid nft_id s =
    let cid = or_default (lookup nft_id s.agents_pins) [] in
    if is_empty cid then err empty_agent else ok cid
