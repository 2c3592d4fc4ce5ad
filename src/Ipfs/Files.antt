-- ===== src/Ipfs/Files.antt =====
-- pallets/ipfs/src/lib.rs: the reading of files.
use uomi_node.Prelude.{
  ℕ, min, ◌≤◌, ◌<◌, not, ◌&&◌, ◌||◌, ◌≡◌, ◌≢◌, ◌⊎◌, List, [], ◌∷◌, ◌++◌, arith, Outcome, err, ltb,
  ◌==◌, if◌then◌else◌,
}
use uomi_node.Ipfs.{
  Cid, Storage, IpfsError, http_unknown, max_u32, operation_success, get, get_cid_status,
}

-- `gateway` stands for the HTTP request of ipfs.rs.
module _ (gateway : Cid → Outcome IpfsError (List ℕ)) where
  -- The event is deposited whether the request succeeds or not.
  unfoldable pub get_file_from_cid : Cid → Storage → Outcome IpfsError (List ℕ) × Storage
  get_file_from_cid cid s =
      (gateway cid, record s { events = s.events ++ operation_success get cid ∷ [] })

  unfoldable pub get_file : Cid → Storage → Outcome IpfsError (List ℕ) × Storage
  get_file cid s =
      let (expires_at, usable_from) = get_cid_status cid s in
      if not (expires_at == 0) && ltb (min expires_at max_u32) s.block_number
      then (err http_unknown, s)
      else if usable_from == 0 || ltb s.block_number (min usable_from max_u32)
      then (err http_unknown, s)
      else get_file_from_cid cid s

-- A file can be read at a block if its pin has no expiration or one that is not past, and it is
-- usable from a block that is not to come.
abbrev pub IsReadable : Cid → Storage → Type 0
IsReadable cid s =
    (((get_cid_status cid s).0 ≡ 0) ⊎ (s.block_number ≤ (get_cid_status cid s).0))
    × ((get_cid_status cid s).1 ≢ 0)
    × ((get_cid_status cid s).1 ≤ s.block_number)

-- At the block numbers of the chain, which have 32 bits, a file is fetched from the gateway if it can
-- be read, and otherwise the read fails and no request is made.
pub get_file-cases :
    (gateway : Cid → Outcome IpfsError (List ℕ)) (cid : Cid) (s : Storage)
    → s.block_number < max_u32
    → (IsReadable cid s × (get_file gateway cid s ≡ get_file_from_cid gateway cid s))
      ⊎ ((¬ IsReadable cid s) × (get_file gateway cid s ≡ (err http_unknown, s)))
unfolding get_file
get_file-cases gateway cid s small = ground (arith)
