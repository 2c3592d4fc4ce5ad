-- ===== src/Ipfs/Inherent/Effect.antt =====
-- What the inherent of a block does to the status of every CID.
use uomi_node.Prelude.{
  ℕ, min, Bool, true, false, ◌&&◌, Option, none, some, ◌≡◌, refl, inl, inr, [], ◌∷◌, arith, ok,
  panic, ◌==◌, if◌then◌else◌, Option-cases,
}
use uomi_node.Prelude.Key.{nat_key, bytes_key, bytes_beq_iff}
use uomi_node.Prelude.Lists.{contains, Distinct}
use uomi_node.Prelude.Map.{Map, lookup, put, remove, keys, lookup-put, lookup-remove, contains-keys}
use uomi_node.Ipfs.{Cid, Status, Storage, unsigned, max_u32, get_cid_status, is_majority_pinned}
use uomi_node.Ipfs.Inherent.{
  is_expired, expired, now_usable, ipfs_operations, create_inherent, mark_usable, remove_cids,
  set_inherent_data, on_finalize,
}

-- A test on the status of a CID, which fails where there is none.
abbrev pub holds : (Status → Bool) → Option Status → Bool
holds p none = false
holds p (some status) = p status

abbrev pub is_unmarked : Status → Bool
is_unmarked (expires_at, usable_from) = usable_from == 0

lookup-remove_cids :
    (r : Map Cid Status) (s : Storage) (cid : Cid)
    → lookup cid (remove_cids r s).cids_status
      ≡ (if contains (keys r) cid then none else lookup cid s.cids_status)
unfolding remove_cids
lookup-remove_cids [] s cid = refl
lookup-remove_cids ((c, st) ∷ r) s cid =
    let t = record s { cids_status = remove c s.cids_status; nodes_pins = remove c s.nodes_pins } in
    ground (arith, lookup-remove_cids r t cid, lookup-remove c cid s.cids_status)

pins-remove_cids :
    (r : Map Cid Status) (s : Storage) (cid : Cid)
    → lookup cid (remove_cids r s).nodes_pins
      ≡ (if contains (keys r) cid then none else lookup cid s.nodes_pins)
unfolding remove_cids
pins-remove_cids [] s cid = refl
pins-remove_cids ((c, st) ∷ r) s cid =
    let t = record s { cids_status = remove c s.cids_status; nodes_pins = remove c s.nodes_pins } in
    ground (arith, pins-remove_cids r t cid, lookup-remove c cid s.nodes_pins)

pins-mark_usable :
    (us : Map Cid Status) (s : Storage) → (mark_usable us s).nodes_pins ≡ s.nodes_pins
unfolding mark_usable
pins-mark_usable [] s = refl
pins-mark_usable ((c, st) ∷ us) s = pins-mark_usable us (record s {
  cids_status = put c ((get_cid_status c s).0, min s.block_number max_u32) s.cids_status;
})

lookup-mark_usable :
    (us : Map Cid Status) (s : Storage) (cid : Cid)
    → lookup cid (mark_usable us s).cids_status ≡ (
        if contains (keys us) cid
        then some ((get_cid_status cid s).0, min s.block_number max_u32)
        else lookup cid s.cids_status)
unfolding mark_usable get_cid_status
lookup-mark_usable [] s cid = refl
lookup-mark_usable ((c, st) ∷ us) s cid =
    let marked : Status = ((get_cid_status c s).0, min s.block_number max_u32) in
    let t = record s { cids_status = put c marked s.cids_status } in
    ground (
      arith,
      lookup-mark_usable us t cid,
      lookup-put c cid marked s.cids_status,
      bytes_beq_iff c cid,
    )

-- What the loops of `ipfs_operations` collect, by the status of a CID.
contains-expired :
    (b : ℕ) (m : Map Cid Status) (cid : Cid)
    → Distinct (keys m)
    → contains (keys (expired b m)) cid ≡ holds (is_expired b) (lookup cid m)
unfolding expired lookup
contains-expired b [] cid d = refl
contains-expired b ((c, st) ∷ m) cid d =
    ground (arith, contains-expired b m cid, contains-keys m c, bytes_beq_iff c cid)

contains-now_usable :
    (s : Storage) (m : Map Cid Status) (cid : Cid)
    → Distinct (keys m)
    → contains (keys (now_usable s m)) cid
      ≡ (is_majority_pinned cid s && holds is_unmarked (lookup cid m))
unfolding now_usable lookup
contains-now_usable s [] cid d = ground (arith)
contains-now_usable s ((c, st) ∷ m) cid d =
    ground (arith, contains-now_usable s m cid, contains-keys m c, bytes_beq_iff c cid)

-- The status of a CID after the inherent of a block, by the one before.
abbrev pub settled : Storage → Cid → Option Status → Option Status
settled s cid none = none
settled s cid (some (expires_at, usable_from)) =
    if is_expired s.block_number (expires_at, usable_from)
    then none
    else if is_majority_pinned cid s && usable_from == 0
    then some (expires_at, min s.block_number max_u32)
    else some (expires_at, usable_from)

pub record IsSettled (s s' : Storage) (cid : Cid) : Type 0 where
  pub status : lookup cid s'.cids_status ≡ settled s cid (lookup cid s.cids_status)
  pub pins : lookup cid s'.nodes_pins ≡ (
      if holds (is_expired s.block_number) (lookup cid s.cids_status)
      then none
      else lookup cid s.nodes_pins)

settled-status :
    (s : Storage) (cid : Cid)
    → Distinct (keys s.cids_status)
    → lookup cid
        (remove_cids (create_inherent s).1 (mark_usable (create_inherent s).0 s)).cids_status
      ≡ settled s cid (lookup cid s.cids_status)
unfolding create_inherent ipfs_operations
settled-status s cid d =
    let us = now_usable s s.cids_status in
    let r = expired s.block_number s.cids_status in
    elim (Option-cases (lookup cid s.cids_status)) [
      | inl nothing ↦
          unfold get_cid_status in
          ground (
            arith,
            lookup-remove_cids r (mark_usable us s) cid,
            lookup-mark_usable us s cid,
            contains-expired s.block_number s.cids_status cid d,
            contains-now_usable s s.cids_status cid d,
          )
      | inr (st, given) ↦
          unfold get_cid_status in
          ground (
            arith,
            lookup-remove_cids r (mark_usable us s) cid,
            lookup-mark_usable us s cid,
            contains-expired s.block_number s.cids_status cid d,
            contains-now_usable s s.cids_status cid d,
          )
    ]

settled-pins :
    (s : Storage) (cid : Cid)
    → Distinct (keys s.cids_status)
    → lookup cid
        (remove_cids (create_inherent s).1 (mark_usable (create_inherent s).0 s)).nodes_pins
      ≡ (if holds (is_expired s.block_number) (lookup cid s.cids_status)
          then none
          else lookup cid s.nodes_pins)
unfolding create_inherent ipfs_operations
settled-pins s cid d =
    let us = now_usable s s.cids_status in
    let r = expired s.block_number s.cids_status in
    ground (
      arith,
      pins-remove_cids r (mark_usable us s) cid,
      pins-mark_usable us s,
      contains-expired s.block_number s.cids_status cid d,
    )

-- The inherent that `create_inherent` makes is executed once in a block, and `on_finalize` then
-- accepts the block: a CID that has expired is forgotten with all its pins, one that a majority has
-- pinned is usable from this block if it was not usable before, and every other one is as it was;
-- a second inherent in the block panics, and so does a block without any; the map of the
-- CIDs names none twice.
pub set_inherent_data-IsSettled :
    (s : Storage)
    → Distinct (keys s.cids_status)
    → s.inherent_did_update ≡ none
    → (s' : Storage) × (set_inherent_data unsigned (create_inherent s) s ≡ ok s')
      × ((cid : Cid) → IsSettled s s' cid)
      × ((operations : Map Cid Status × Map Cid Status)
          → set_inherent_data unsigned operations s' ≡ panic)
      × (on_finalize s' ≡ ok (record s' { inherent_did_update = none }))
      × (on_finalize s ≡ panic)
set_inherent_data-IsSettled s d fresh =
    let us = (create_inherent s).0 in
    let r = (create_inherent s).1 in
    (
      record (remove_cids r (mark_usable us s)) { inherent_did_update = some true },
      (unfold set_inherent_data in rw fresh refl),
      λ cid. record { status = settled-status s cid d; pins = settled-pins s cid d },
      λ operations. unfold set_inherent_data in refl,
      (unfold on_finalize in refl),
      (unfold on_finalize in rw fresh refl),
    )
