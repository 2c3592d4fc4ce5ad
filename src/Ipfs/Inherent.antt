-- ===== src/Ipfs/Inherent.antt =====
-- pallets/ipfs/src/lib.rs: the inherent, which makes pins usable and removes expired ones.
pub mod Check
pub mod Effect
use uomi_node.Prelude.{
  ℕ, ◌+◌, min, Bool, true, false, not, ◌&&◌, ◌||◌, Option, none, some, List, [], ◌∷◌, ◌++◌, Outcome,
  ok, err, panic, ◌>>=◌, ◌>>◌, ensure, assert, ltb, ◌==◌, if◌then◌else◌,
}
use uomi_node.Prelude.Key.{nat_key, bytes_key, ◌=?◌}
use uomi_node.Prelude.Lists.{length, all}
use uomi_node.Prelude.Map.{Map, lookup, put, remove, is_some, or_default}
use uomi_node.Ipfs.{
  Cid, Status, Storage, Origin, IpfsError, invalid_inherent_value, max_u32, ensure_none,
  get_cid_status, is_majority_pinned,
}

abbrev pub IpfsOperations : Type 0
IpfsOperations = Map Cid Status × Map Cid Status

abbrev pub is_expired : ℕ → Status → Bool
is_expired current_block (expires_at, usable_from) =
    not (expires_at == 0) && ltb expires_at current_block

-- The first loop of `ipfs_operations`
unfoldable pub expired : ℕ → Map Cid Status → Map Cid Status
expired current_block [] = []
expired current_block ((cid, status) ∷ rest) =
    if is_expired current_block status
    then (cid, status) ∷ expired current_block rest
    else expired current_block rest

-- The second loop
unfoldable pub now_usable : Storage → Map Cid Status → Map Cid Status
now_usable s [] = []
now_usable s ((cid, (expires_at, usable_from)) ∷ rest) =
    if is_majority_pinned cid s && usable_from == 0
    then (cid, (expires_at, 0)) ∷ now_usable s rest
    else now_usable s rest

unfoldable pub ipfs_operations : ℕ → Storage → IpfsOperations
ipfs_operations current_block s = (now_usable s s.cids_status, expired current_block s.cids_status)

unfoldable pub create_inherent : Storage → IpfsOperations
create_inherent s = ipfs_operations s.block_number s

-- `Vec::contains` on the entries
unfoldable pub listed : Map Cid Status → Cid × Status → Bool
listed [] (cid, (expires_at, usable_from)) = false
listed ((c, (e, u)) ∷ rest) (cid, (expires_at, usable_from)) =
    (c =? cid && (e == expires_at && u == usable_from))
    || listed rest (cid, (expires_at, usable_from))

unfoldable pub check_inherent : IpfsOperations → Storage → Outcome IpfsError (Unit {0})
check_inherent (usable, to_remove) s = do
  let (expected_usable, expected_to_remove) = ipfs_operations (s.block_number + 1) s
  ensure (length usable == length expected_usable) invalid_inherent_value
  ensure (all (listed expected_usable) usable) invalid_inherent_value
  ensure (length to_remove == length expected_to_remove) invalid_inherent_value
  ensure (all (listed expected_to_remove) to_remove) invalid_inherent_value

-- The first loop of `set_inherent_data`
unfoldable pub mark_usable : Map Cid Status → Storage → Storage
mark_usable [] s = s
mark_usable ((cid, status) ∷ rest) s = mark_usable rest (record s {
  cids_status = put cid ((get_cid_status cid s).0, min s.block_number max_u32) s.cids_status;
})

-- The second loop
unfoldable pub remove_cids : Map Cid Status → Storage → Storage
remove_cids [] s = s
remove_cids ((cid, status) ∷ rest) s =
    remove_cids rest
      (record s { cids_status = remove cid s.cids_status; nodes_pins = remove cid s.nodes_pins })

unfoldable pub set_inherent_data : Origin → IpfsOperations → Storage → Outcome IpfsError Storage
set_inherent_data origin (usable, to_remove) s = do
  ensure_none origin
  assert (not (is_some s.inherent_did_update))
  ok (record (remove_cids to_remove (mark_usable usable s)) { inherent_did_update = some true })

-- `take` reads the flag and removes it.
unfoldable pub on_finalize : Storage → Outcome IpfsError Storage
on_finalize s = do
  assert (or_default s.inherent_did_update false)
  ok (record s { inherent_did_update = none })
