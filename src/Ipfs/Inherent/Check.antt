-- ===== src/Ipfs/Inherent/Check.antt =====
-- What `check_inherent` accepts.
use uomi_node.Prelude.{
  ℕ, ◌+◌, ◌<◌, true, false, some, ◌≡◌, ◌≢◌, refl, inl, inr, List, [], ◌∷◌, arith, ok, ◌==◌, ==_iff,
  Bool-cases,
}
use uomi_node.Prelude.Key.{nat_key, bytes_key, bytes_beq_iff}
use uomi_node.Prelude.Lists.{length, all, contains, Distinct}
use uomi_node.Prelude.Map.{Map, lookup, keys, contains-keys, beq_refl}
use uomi_node.Ipfs.{Cid, Status, Storage, is_majority_pinned, pins_of, pinned_count}
use uomi_node.Ipfs.Inherent.{
  is_expired, expired, now_usable, ipfs_operations, create_inherent, listed, check_inherent,
}

listed-cons :
    (q p : Cid × Status) (m : Map Cid Status) → listed m p ≡ true → listed (q ∷ m) p ≡ true
unfolding listed
listed-cons (c, (e, u)) (cid, (x, y)) m h = ground (arith)

listed-head : (p : Cid × Status) (m : Map Cid Status) → listed (p ∷ m) p ≡ true
unfolding listed
listed-head (cid, (e, u)) m = ground (arith, beq_refl cid)

-- Entries that are all on a list are all on a longer one.
all-listed-cons :
    (q : Cid × Status) (m ps : Map Cid Status)
    → all (listed m) ps ≡ true
    → all (listed (q ∷ m)) ps ≡ true
all-listed-cons q m [] h = refl
all-listed-cons q m (p ∷ ps) h = ground (arith, listed-cons q p m, all-listed-cons q m ps)

all-listed : (m : Map Cid Status) → all (listed m) m ≡ true
all-listed [] = refl
all-listed (p ∷ m) = ground (arith, listed-head p m, all-listed-cons p m m (all-listed m))

same_length : {A : Type 0} (xs : List A) → (length xs == length xs) ≡ true
same_length xs = (==_iff (length xs) (length xs)).1 refl

-- A majority does not depend on the block.
now_usable-block :
    (n : ℕ) (s : Storage) (m : Map Cid Status)
    → now_usable (record s { block_number = n }) m ≡ now_usable s m
unfolding now_usable is_majority_pinned pins_of pinned_count
now_usable-block n s [] = refl
now_usable-block n s ((cid, (e, u)) ∷ m) = ground (arith, now_usable-block n s m)

-- An entry of a list stands on every list that has all its entries.
listed_on :
    (m ps : Map Cid Status) (p : Cid × Status)
    → all (listed m) ps ≡ true
    → listed ps p ≡ true
    → listed m p ≡ true
unfolding listed
listed_on m [] (cid, (e, u)) h on = cc
listed_on m ((c, (x, y)) ∷ ps) (cid, (e, u)) h on =
    ground (arith, listed_on m ps (cid, (e, u)), bytes_beq_iff c cid, ==_iff x e, ==_iff y u)

lookup-listed_later :
    (c cid : Cid) (st st' : Status) (m : Map Cid Status)
    → contains (keys m) c ≡ false
    → lookup cid m ≡ some st'
    → lookup cid ((c, st) ∷ m) ≡ some st'
unfolding lookup
lookup-listed_later c cid st st' m new h = ground (arith, contains-keys m c, bytes_beq_iff c cid)

listed-expired :
    (b : ℕ) (m : Map Cid Status) (cid : Cid) (e u : ℕ)
    → Distinct (keys m)
    → listed (expired b m) (cid, (e, u)) ≡ true
    → (lookup cid m ≡ some (e, u)) × (is_expired b (e, u) ≡ true)
unfolding expired listed
listed-expired b [] cid e u d h = cc
listed-expired b ((c, (x, y)) ∷ m) cid e u d h =
    elim (Bool-cases (listed (expired b m) (cid, (e, u)))) [
      | inl later ↦
          let (there, past) = listed-expired b m cid e u d.1 later in
          (lookup-listed_later c cid (x, y) (e, u) m d.0 there, past)
      | inr here ↦ unfold lookup in ground (arith, bytes_beq_iff c cid, ==_iff x e, ==_iff y u)
    ]

listed-now_usable :
    (s : Storage) (m : Map Cid Status) (cid : Cid) (e u : ℕ)
    → Distinct (keys m)
    → listed (now_usable s m) (cid, (e, u)) ≡ true
    → (lookup cid m ≡ some (e, 0)) × (is_majority_pinned cid s ≡ true)
unfolding now_usable listed
listed-now_usable s [] cid e u d h = cc
listed-now_usable s ((c, (x, y)) ∷ m) cid e u d h =
    elim (Bool-cases (listed (now_usable s m) (cid, (e, u)))) [
      | inl later ↦
          let (there, most) = listed-now_usable s m cid e u d.1 later in
          (lookup-listed_later c cid (x, y) (e, 0) m d.0 there, most)
      | inr here ↦ unfold lookup in ground (arith, bytes_beq_iff c cid, ==_iff x e, ==_iff y 0)
    ]

-- The check, which runs in the state of the parent block, accepts what `create_inherent` makes at the
-- start of the next block.
pub check_inherent-create :
    (s : Storage)
    → check_inherent (create_inherent (record s { block_number = s.block_number + 1 })) s ≡ ok tt
unfolding check_inherent create_inherent ipfs_operations
check_inherent-create s =
    let us = now_usable s s.cids_status in
    let r = expired (s.block_number + 1) s.cids_status in
    rw
      (
        now_usable-block (s.block_number + 1) s s.cids_status,
        same_length us,
        all-listed us,
        same_length r,
        all-listed r,
      )
      refl

accepted :
    (s : Storage) (usable to_remove : Map Cid Status)
    → check_inherent (usable, to_remove) s ≡ ok tt
    → (all (listed (now_usable s s.cids_status)) usable ≡ true)
      × (all (listed (expired (s.block_number + 1) s.cids_status)) to_remove ≡ true)
unfolding check_inherent ipfs_operations
accepted s usable to_remove h = ground (arith)

-- Each entry of an inherent that the check accepts is on the list of the storage: what is to be
-- removed has an expiration and it is past, and what is to be usable has been pinned by a majority
-- and is not usable yet, where the map of the CIDs names none twice.
pub check_inherent_sound :
    (s : Storage) (usable to_remove : Map Cid Status) (cid : Cid) (e u : ℕ)
    → Distinct (keys s.cids_status)
    → check_inherent (usable, to_remove) s ≡ ok tt
    → ((listed to_remove (cid, (e, u)) ≡ true)
        → (lookup cid s.cids_status ≡ some (e, u)) × (e ≢ 0) × (e < s.block_number + 1))
      × ((listed usable (cid, (e, u)) ≡ true)
          → (lookup cid s.cids_status ≡ some (e, 0)) × (is_majority_pinned cid s ≡ true))
check_inherent_sound s usable to_remove cid e u d h =
    let (all_usable, all_removed) = accepted s usable to_remove h in
    (
      λ on.
          let (there, past) =
            listed-expired (s.block_number + 1) s.cids_status cid e u d
              (listed_on _ to_remove (cid, (e, u)) all_removed on) in
          (there, (λ z. ground (arith)), ground (arith)),
      λ on.
          listed-now_usable s s.cids_status cid e u d
            (listed_on _ usable (cid, (e, u)) all_usable on),
    )

-- The check does not tell a list from one that repeats an entry in place of another: with two CIDs to
-- remove, an inherent that names the first one twice and the second one never is accepted.
pub check_inherent-repeated :
    (s : Storage) (p q : Cid × Status) (usable rest : Map Cid Status)
    → ipfs_operations (s.block_number + 1) s ≡ (usable, p ∷ q ∷ rest)
    → check_inherent (usable, p ∷ p ∷ rest) s ≡ ok tt
unfolding check_inherent
check_inherent-repeated s p q usable rest h =
    let first = listed-head p (q ∷ rest) in
    let others =
      all-listed-cons p (q ∷ rest) rest (all-listed-cons q rest rest (all-listed rest)) in
    ground
      (arith, h, same_length usable, all-listed usable, same_length (p ∷ p ∷ rest), first, others)
