-- ===== src/Ipfs/Node.antt =====
-- pallets/ipfs/src/lib.rs: the off-chain worker, which pins and unpins at the local node.
use uomi_node.Prelude.{
  min, Bool, true, not, ◌&&◌, ◌≡◌, ◌≢◌, refl, sym, map, >>=_inverted, List, [], ◌∷◌, ◌++◌, arith,
  Outcome, ok, err, ◌>>=◌, ◌>>◌, ensure, ltb, ◌==◌, if◌then◌else◌,
}
use uomi_node.Prelude.Key.{nat_key, bytes_key}
use uomi_node.Prelude.Lists.{is_empty, contains}
use uomi_node.Prelude.Map.{Map, keys, contains_key, contains-keys, beq_refl}
use uomi_node.Ipfs.{
  AccountId, Cid, Status, Storage, IpfsError, no_local_public_key, no_accounts, not_active, max_u32,
  pins_of,
}

-- What the worker reads outside the storage: whether the local node pins or unpins a CID on
-- request, the keys of its keystore in order, the accounts that the signer finds for its own keys, and
-- the validators of the session.
pub record Node : Type 0 where
  pub pins : Cid → Bool
  pub unpins : Cid → Bool
  pub keystore : List AccountId
  pub accounts : List AccountId
  pub session_validators : List AccountId

unfoldable pub process_pin : Node → AccountId → Storage → Cid → Status → Map Cid Status
process_pin node public s cid (expiry, usable_from) =
    if ltb (min expiry max_u32) s.block_number && not (expiry == 0)
    then []
    else if contains_key (pins_of cid s) public
    then []
    else if node.pins cid
    then (cid, (expiry, usable_from)) ∷ []
    else []

unfoldable pub process_unpin : Node → AccountId → Storage → Cid → Status → Map Cid Status
process_unpin node public s cid status =
    if contains_key (pins_of cid s) public
    then if contains_key s.cids_status cid
      then []
      else if node.unpins cid
      then (cid, status) ∷ []
      else []
    else []

-- The two loops of `process_pins`
unfoldable pub pins_to_save : Node → AccountId → Storage → Map Cid Status → Map Cid Status
pins_to_save node public s [] = []
pins_to_save node public s ((cid, status) ∷ rest) =
    if is_empty cid
    then pins_to_save node public s rest
    else process_pin node public s cid status ++ pins_to_save node public s rest

unfoldable pub pins_to_remove : Node → AccountId → Storage → Map Cid Status → Map Cid Status
pins_to_remove node public s [] = []
pins_to_remove node public s ((cid, status) ∷ rest) =
    process_unpin node public s cid status ++ pins_to_remove node public s rest

-- The first key
abbrev pub first_key : List AccountId → Outcome IpfsError AccountId
first_key [] = err no_local_public_key
first_key (public ∷ _) = ok public

abbrev pub get_account_id : Node → Outcome IpfsError AccountId
get_account_id node = first_key node.keystore

-- What an account signs and sends
pub record PinPayload : Type 0 where
  pub to_save : Map Cid Status
  pub to_remove : Map Cid Status
  pub public : AccountId

abbrev pub payload : Map Cid Status → Map Cid Status → AccountId → PinPayload
payload to_save to_remove public = record {
  to_save = to_save;
  to_remove = to_remove;
  public = public;
}

-- The payloads that are sent: `all_accounts` signs one for each of its accounts.
unfoldable pub call_process_pins :
    Node → Map Cid Status → Map Cid Status → Outcome IpfsError (List PinPayload)
call_process_pins node to_save to_remove = do
  ensure (not (is_empty node.accounts)) no_accounts
  public ← get_account_id node
  ensure (contains node.session_validators public) not_active
  ok (map (payload to_save to_remove) node.accounts)

unfoldable pub process_pins : Node → Storage → Outcome IpfsError (List PinPayload)
process_pins node s = do
  public ← get_account_id node
  let to_save = pins_to_save node public s s.cids_status
  let to_remove = pins_to_remove node public s s.cids_status
  if is_empty to_save && is_empty to_remove then ok [] else call_process_pins node to_save to_remove

unpinned-nothing :
    (node : Node) (public : AccountId) (s : Storage) (m : Map Cid Status)
    → ((c : Cid) → contains (keys m) c ≡ true → contains_key s.cids_status c ≡ true)
    → pins_to_remove node public s m ≡ []
unfolding pins_to_remove process_unpin
unpinned-nothing node public s [] known = refl
unpinned-nothing node public s ((cid, status) ∷ m) known = ground (
  arith,
  known cid (ground (arith, beq_refl cid)),
  unpinned-nothing node public s m (λ c listed. known c (ground (arith))),
)

-- `process_unpin` is asked for the CIDs that have a status only, and drops these.
pub pins_to_remove-nothing :
    (node : Node) (public : AccountId) (s : Storage)
    → pins_to_remove node public s s.cids_status ≡ []
pins_to_remove-nothing node public s =
    unpinned-nothing node public s s.cids_status
      (λ c listed. ground (arith, contains-keys s.cids_status c))

-- Where the worker sends anything, the first key of its node is an active validator, and every account
-- of the signer sends the same report under its own key, whether that account is a validator or not: the
-- report has at least one pin, those found for the first key, and never says that a CID has been
-- unpinned, whatever the node would unpin.
pub process_pins-sends :
    (node : Node) (s : Storage) (payloads : List PinPayload)
    → process_pins node s ≡ ok payloads
    → payloads ≢ []
    → (public : AccountId) × (get_account_id node ≡ ok public)
      × (contains node.session_validators public ≡ true)
      × (pins_to_save node public s s.cids_status ≢ [])
      × (payloads ≡ map (payload (pins_to_save node public s s.cids_status) []) node.accounts)
unfolding process_pins call_process_pins
process_pins-sends node s payloads h some_sent =
    let (public, first, h1) = >>=_inverted (get_account_id node) _ (sym h) in
    let nothing = pins_to_remove-nothing node public s in
    (
      public,
      first,
      ground (arith, nothing, first),
      ground (arith, nothing, first),
      ground (arith, nothing, first),
    )
