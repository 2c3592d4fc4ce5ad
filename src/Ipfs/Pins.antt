-- ===== src/Ipfs/Pins.antt =====
-- pallets/ipfs/src/lib.rs: what the calls do to the status and the pins of CIDs.
use mathlib.Core.List.{append_assoc, append-nil}
use uomi_node.Prelude.{
  ℕ, ◌*◌, ◌<◌, true, false, ◌&&◌, Option, none, some, ◌≡◌, ◌≢◌, ◌↔◌, refl, ap, sym, subst, ◌∙◌,
  ◌++◌, map, List, [], ◌∷◌, arith, ok, err, ◌==◌, if◌then◌else◌,
}
use uomi_node.Prelude.Key.{nat_key, bytes_key, bytes_beq_iff, ◌=?◌}
use uomi_node.Prelude.Lists.{length, filter, is_empty, contains}
use uomi_node.Prelude.Map.{
  Map, lookup, put, remove, keys, or_default, lookup-put, lookup-remove, beq_refl,
}
use uomi_node.Ipfs.{
  AccountId, Cid, Status, Storage, Origin, signed, root, unsigned, something_went_wrong,
  min_expire_duration, saturating_add, get_cid_status, expire, pin_to, repin, pin_agent, pins_of,
  add_node_pin, remove_node_pin, add_node_pins, remove_node_pins, is_validator, IpfsEvent,
  operation_success, pin, unpin, submit_processed_pins, pinned_count, required_majority,
  is_majority_pinned, get_agent_cid,
}

count-none : (vs : List AccountId) → length (filter (contains []) vs) ≡ 0
count-none [] = refl
count-none (v ∷ vs) = count-none vs

none_pinned : (cid : Cid) (s : Storage) → is_empty (pins_of cid s) ≡ true → pinned_count cid s ≡ 0
unfolding pinned_count
none_pinned cid s h =
    let nothing : pins_of cid s ≡ [] = ground (arith) in rw nothing (count-none s.validators)

-- On a chain with more than three validators a CID has a majority exactly if more than half of them
-- have pinned it.
pub is_majority_pinned_iff :
    (cid : Cid) (s : Storage)
    → 3 < length s.validators
    → (is_majority_pinned cid s ≡ true) ↔ (length s.validators < 2 * pinned_count cid s)
unfolding is_majority_pinned required_majority
is_majority_pinned_iff cid s many = ground (arith, none_pinned cid s)

-- What the CID that an agent leaves makes of the storage.
left_behind : Option Cid → Storage → Storage
left_behind none s = s
left_behind (some old) s = expire old s

repin-new :
    (cid : Cid) (nft : ℕ) (s : Storage) (o : Option Cid)
    → o ≢ some cid
    → repin cid nft s o ≡ ok (pin_to cid nft (left_behind o s))
unfolding repin left_behind
repin-new cid nft s none new = refl
repin-new cid nft s (some old) new = ground (arith, bytes_beq_iff old cid)

agents-left_behind : (o : Option Cid) (s : Storage) → (left_behind o s).agents_pins ≡ s.agents_pins
unfolding left_behind expire
agents-left_behind none s = refl
agents-left_behind (some old) s = refl

lookup-left_behind :
    (o : Option Cid) (s : Storage) (c : Cid)
    → lookup c (left_behind o s).cids_status ≡ elim o [
      | none ↦ lookup c s.cids_status
      | some old ↦
          if old =? c
          then some (saturating_add s.block_number min_expire_duration, (get_cid_status old s).1)
          else lookup c s.cids_status
    ]
unfolding left_behind expire
lookup-left_behind none s c = refl
lookup-left_behind (some old) s c =
    lookup-put old c (saturating_add s.block_number min_expire_duration, (get_cid_status old s).1)
      s.cids_status

unleft :
    (o : Option Cid) (s : Storage) (c : Cid)
    → o ≢ some c
    → lookup c (left_behind o s).cids_status ≡ lookup c s.cids_status
unleft none s c unhad = lookup-left_behind none s c
unleft (some old) s c unhad = ground (arith, lookup-left_behind (some old) s c, bytes_beq_iff old c)

-- A signed account pins an agent to a CID that is not empty and that the agent does not have yet:
-- reading the agent gives the CID, which has the status (0, 0), no expiration and no block it is usable
-- from, the CID the agent had expires `min_expire_duration` blocks later (a sum that stops at the last
-- number of 32 bits), and the CIDs of all other agents and the status of all other CIDs stay.
pub pin_agent-moves :
    (who : AccountId) (cid : Cid) (nft : ℕ) (s : Storage)
    → is_empty cid ≡ false
    → lookup nft s.agents_pins ≢ some cid
    → (s' : Storage) × (pin_agent (signed who) cid nft s ≡ ok s')
      × (get_agent_cid nft s' ≡ ok cid)
      × (get_cid_status cid s' ≡ (0, 0))
      × ((old : Cid)
          → lookup nft s.agents_pins ≡ some old
          → (get_cid_status old s').0 ≡ saturating_add s.block_number min_expire_duration)
      × ((other : ℕ) → nft ≢ other → lookup other s'.agents_pins ≡ lookup other s.agents_pins)
      × ((c : Cid)
          → c ≢ cid
          → lookup nft s.agents_pins ≢ some c
          → lookup c s'.cids_status ≡ lookup c s.cids_status)
unfolding pin_agent get_agent_cid get_cid_status pin_to
pin_agent-moves who cid nft s full new =
    let t = left_behind (lookup nft s.agents_pins) s in
    (
      pin_to cid nft t,
      repin-new cid nft s (lookup nft s.agents_pins) new,
      ground (arith, lookup-put nft nft cid t.agents_pins),
      ground (arith, lookup-put cid cid (0, 0) t.cids_status, beq_refl cid),
      λ old had. ground (
        arith,
        had,
        lookup-put cid old (0, 0) t.cids_status,
        bytes_beq_iff cid old,
        lookup-left_behind (some old) s old,
        beq_refl old,
      ),
      λ other different. ground (
        arith,
        lookup-put nft other cid t.agents_pins,
        agents-left_behind (lookup nft s.agents_pins) s,
      ),
      λ c different unhad. ground (
        arith,
        lookup-put cid c (0, 0) t.cids_status,
        bytes_beq_iff cid c,
        unleft (lookup nft s.agents_pins) s c unhad,
      ),
    )

-- Pinning an agent to the CID it has is refused.
pub pin_agent-same :
    (who : AccountId) (cid : Cid) (nft : ℕ) (s : Storage)
    → lookup nft s.agents_pins ≡ some cid
    → pin_agent (signed who) cid nft s ≡ err something_went_wrong
unfolding pin_agent repin
pin_agent-same who cid nft s h = rw (h, beq_refl cid) refl

-- An agent that leaves a CID takes it from every other agent that is pinned to it: the CID expires a
-- day later, although the other agent still has it.
pin_agent-shared :
    (who : AccountId) (cid old : Cid) (nft other : ℕ) (s : Storage)
    → is_empty cid ≡ false
    → old ≢ cid
    → nft ≢ other
    → lookup nft s.agents_pins ≡ some old
    → lookup other s.agents_pins ≡ some old
    → (s' : Storage) × (pin_agent (signed who) cid nft s ≡ ok s')
      × (lookup other s'.agents_pins ≡ some old)
      × ((get_cid_status old s').0 ≡ saturating_add s.block_number min_expire_duration)
pin_agent-shared who cid old nft other s full different apart had shared =
    let (s', done, got, status, expiry, others, rest) =
      pin_agent-moves who cid nft s full (λ e. ground (arith)) in
    (s', done, ground (arith, others other apart), expiry old had)

lookup-add_node_pin :
    (cid : Cid) (public : AccountId) (s : Storage) (c : Cid) (a : AccountId)
    → lookup a (pins_of c (add_node_pin cid public s))
      ≡ (if public == a && cid =? c then some true else lookup a (pins_of c s))
unfolding add_node_pin pins_of
lookup-add_node_pin cid public s c a = ground (
  arith,
  bytes_beq_iff cid c,
  lookup-put cid c (put public true (or_default (lookup cid s.nodes_pins) [])) s.nodes_pins,
  lookup-put public a true (or_default (lookup cid s.nodes_pins) []),
)

lookup-remove_node_pin :
    (cid : Cid) (public : AccountId) (s : Storage) (c : Cid) (a : AccountId)
    → lookup a (pins_of c (remove_node_pin cid public s))
      ≡ (if public == a && cid =? c then none else lookup a (pins_of c s))
unfolding remove_node_pin pins_of
lookup-remove_node_pin cid public s c a = ground (
  arith,
  bytes_beq_iff cid c,
  lookup-put cid c (remove public (or_default (lookup cid s.nodes_pins) [])) s.nodes_pins,
  lookup-remove public a (or_default (lookup cid s.nodes_pins) []),
)

lookup-add_node_pins :
    (ps : Map Cid Status) (public : AccountId) (s : Storage) (c : Cid) (a : AccountId)
    → lookup a (pins_of c (add_node_pins ps public s))
      ≡ (if public == a && contains (keys ps) c then some true else lookup a (pins_of c s))
unfolding add_node_pins
lookup-add_node_pins [] public s c a = ground (arith)
lookup-add_node_pins ((cid, st) ∷ ps) public s c a = ground (
  arith,
  lookup-add_node_pins ps public (add_node_pin cid public s) c a,
  lookup-add_node_pin cid public s c a,
)

lookup-remove_node_pins :
    (ps : Map Cid Status) (public : AccountId) (s : Storage) (c : Cid) (a : AccountId)
    → lookup a (pins_of c (remove_node_pins ps public s))
      ≡ (if public == a && contains (keys ps) c then none else lookup a (pins_of c s))
unfolding remove_node_pins
lookup-remove_node_pins [] public s c a = ground (arith)
lookup-remove_node_pins ((cid, st) ∷ ps) public s c a = ground (
  arith,
  lookup-remove_node_pins ps public (remove_node_pin cid public s) c a,
  lookup-remove_node_pin cid public s c a,
)

-- Of all but the pins of the nodes only the events change, by one for each CID of `done`, in order.
pub record IsReport (done : List IpfsEvent) (s s' : Storage) : Type 0 where
  pub events : s'.events ≡ s.events ++ done
  pub block_number : s'.block_number ≡ s.block_number
  pub validators : s'.validators ≡ s.validators
  pub agents_pins : s'.agents_pins ≡ s.agents_pins
  pub cids_status : s'.cids_status ≡ s.cids_status
  pub inherent_did_update : s'.inherent_did_update ≡ s.inherent_did_update

IsReport-twice :
    {done later : List IpfsEvent} {a b c : Storage}
    → IsReport done a b
    → IsReport later b c
    → IsReport (done ++ later) a c
IsReport-twice {done} {later} {a} {b} {c} p q = record {
  events = q.events ∙ ap (λ l. l ++ later) p.events ∙ append_assoc a.events done later;
  block_number = q.block_number ∙ p.block_number;
  validators = q.validators ∙ p.validators;
  agents_pins = q.agents_pins ∙ p.agents_pins;
  cids_status = q.cids_status ∙ p.cids_status;
  inherent_did_update = q.inherent_did_update ∙ p.inherent_did_update;
}

IsReport-refl : (s : Storage) → IsReport [] s s
IsReport-refl s = record {
  events = sym (append-nil s.events);
  block_number = refl;
  validators = refl;
  agents_pins = refl;
  cids_status = refl;
  inherent_did_update = refl;
}

add_node_pins-IsReport :
    (ps : Map Cid Status) (public : AccountId) (s : Storage)
    → IsReport (map (operation_success pin) (keys ps)) s (add_node_pins ps public s)
unfolding add_node_pins add_node_pin
add_node_pins-IsReport [] public s = IsReport-refl s
add_node_pins-IsReport ((cid, st) ∷ ps) public s =
    IsReport-twice
      record {
        events = refl;
        block_number = refl;
        validators = refl;
        agents_pins = refl;
        cids_status = refl;
        inherent_did_update = refl;
      }
      (add_node_pins-IsReport ps public (add_node_pin cid public s))

remove_node_pins-IsReport :
    (ps : Map Cid Status) (public : AccountId) (s : Storage)
    → IsReport (map (operation_success unpin) (keys ps)) s (remove_node_pins ps public s)
unfolding remove_node_pins remove_node_pin
remove_node_pins-IsReport [] public s = IsReport-refl s
remove_node_pins-IsReport ((cid, st) ∷ ps) public s =
    IsReport-twice
      record {
        events = refl;
        block_number = refl;
        validators = refl;
        agents_pins = refl;
        cids_status = refl;
        inherent_did_update = refl;
      }
      (remove_node_pins-IsReport ps public (remove_node_pin cid public s))

-- Only the unsigned report of a validator is accepted. Of the pins it changes those of that validator
-- alone: it has pinned what the report saves and does not remove, and it has not pinned what the report
-- removes. It deposits one event for each saved CID, then one for each removed CID, in order; the
-- agents' CIDs, the status of the CIDs, the validators, the block and the flag of the inherent are as
-- they were.
pub submit_processed_pins-reports :
    (origin : Origin) (public : AccountId) (to_save to_remove : Map Cid Status) (s s' : Storage)
    → submit_processed_pins origin public to_save to_remove s ≡ ok s'
    → (origin ≡ unsigned)
      × (contains s.validators public ≡ true)
      × ((c : Cid) (a : AccountId)
          → lookup a (pins_of c s') ≡ (
              if public == a && contains (keys to_remove) c
              then none
              else if public == a && contains (keys to_save) c
              then some true
              else lookup a (pins_of c s)))
      × IsReport
          (map (operation_success pin) (keys to_save)
            ++ map (operation_success unpin) (keys to_remove))
          s
          s'
unfolding submit_processed_pins is_validator
submit_processed_pins-reports unsigned public to_save to_remove s s' h =
    let t = add_node_pins to_save public s in
    let done : remove_node_pins to_remove public t ≡ s' = ground (arith) in
    (
      refl,
      ground (arith),
      λ c a. ground (
        arith,
        done,
        lookup-remove_node_pins to_remove public t c a,
        lookup-add_node_pins to_save public s c a,
      ),
      subst (IsReport _ s) done (
          IsReport-twice (add_node_pins-IsReport to_save public s)
            (remove_node_pins-IsReport to_remove public t)),
    )
submit_processed_pins-reports root public to_save to_remove s s' h = cc
submit_processed_pins-reports (signed who) public to_save to_remove s s' h = cc
