-- ===== src/Ipfs/Tests.antt =====
-- pallets/ipfs: the theorems at concrete storages.
use uomi_node.Prelude.{
  ℕ, ◌+◌, ◌*◌, ◌<◌, true, ◌&&◌, none, some, ◌≡◌, ◌≢◌, ◌↔◌, ◌⊎◌, refl, map, List, [], ◌∷◌, arith,
  Outcome, ok, err, panic, ◌==◌, if◌then◌else◌,
}
use uomi_node.Prelude.Key.{nat_key, bytes_key}
use uomi_node.Prelude.Lists.{length, contains}
use uomi_node.Prelude.Map.{Map, lookup, keys}
use uomi_node.Ipfs.{
  AccountId, Cid, Status, Storage, IpfsError, operation_success, pin, signed, unsigned,
  http_unknown, saturating_add, min_expire_duration, get_cid_status, pin_agent, pins_of,
  submit_processed_pins, pinned_count, is_majority_pinned, get_agent_cid, is_validator,
}
use uomi_node.Ipfs.Inherent.{
  ipfs_operations, create_inherent, check_inherent, listed, set_inherent_data, on_finalize,
  now_usable, expired,
}
use uomi_node.Ipfs.Inherent.Effect.{IsSettled, set_inherent_data-IsSettled}
use uomi_node.Ipfs.Inherent.Check.{
  check_inherent-create, check_inherent_sound, check_inherent-repeated,
}
use uomi_node.Ipfs.Files.{IsReadable, get_file, get_file_from_cid, get_file-cases}
use uomi_node.Ipfs.Node.{
  Node, pins_to_save, process_pins, process_pins-sends, process_pin, pins_to_remove, process_unpin,
  call_process_pins, PinPayload, payload, get_account_id,
}
use uomi_node.Ipfs.Pins.{
  is_majority_pinned_iff, pin_agent-moves, IsReport, submit_processed_pins-reports,
}

-- The CIDs 1 and 2 have expired, CID 3 has been pinned by three of four validators, and the agents 7
-- and 8 are pinned to it.
abbrev storage : Storage
storage = record {
  nodes_pins = (3 ∷ [], (11, true) ∷ (12, true) ∷ (13, true) ∷ []) ∷ [];
  inherent_did_update = none;
  agents_pins = (7, 3 ∷ []) ∷ (8, 3 ∷ []) ∷ [];
  cids_status = (1 ∷ [], (50, 20)) ∷ (2 ∷ [], (60, 0)) ∷ (3 ∷ [], (0, 0)) ∷ [];
  events = [];
  validators = 11 ∷ 12 ∷ 13 ∷ 14 ∷ [];
  block_number = 100;
}

set_inherent_data-IsSettled_example :
    (s' : Storage) × (set_inherent_data unsigned (create_inherent storage) storage ≡ ok s')
    × ((cid : Cid) → IsSettled storage s' cid)
    × ((operations : Map Cid Status × Map Cid Status)
        → set_inherent_data unsigned operations s' ≡ panic)
    × (on_finalize s' ≡ ok (record s' { inherent_did_update = none }))
    × (on_finalize storage ≡ panic)
set_inherent_data-IsSettled_example =
    set_inherent_data-IsSettled storage (refl, (refl, (refl, tt))) refl

check_inherent-create_example :
    check_inherent
      (create_inherent (record storage { block_number = storage.block_number + 1 }))
      storage
    ≡ ok tt
check_inherent-create_example = check_inherent-create storage

lists :
    ipfs_operations (storage.block_number + 1) storage
    ≡ ((3 ∷ [], (0, 0)) ∷ [], (1 ∷ [], (50, 20)) ∷ (2 ∷ [], (60, 0)) ∷ [])
unfolding ipfs_operations now_usable expired is_majority_pinned pins_of pinned_count lookup
lists = refl

repeated_entry_passes :
    check_inherent ((3 ∷ [], (0, 0)) ∷ [], (1 ∷ [], (50, 20)) ∷ (1 ∷ [], (50, 20)) ∷ []) storage
    ≡ ok tt
repeated_entry_passes =
    check_inherent-repeated storage (1 ∷ [], (50, 20)) (2 ∷ [], (60, 0)) ((3 ∷ [], (0, 0)) ∷ []) []
      lists

check_inherent_sound_example :
    ((listed ((1 ∷ [], (50, 20)) ∷ (1 ∷ [], (50, 20)) ∷ []) (1 ∷ [], (50, 20)) ≡ true)
      → (lookup (1 ∷ []) storage.cids_status ≡ some (50, 20)) × (◌≢◌ {A = ℕ} 50 0) × (50 < 101))
    × ((listed ((3 ∷ [], (0, 0)) ∷ []) (1 ∷ [], (50, 20)) ≡ true)
        → (lookup (1 ∷ []) storage.cids_status ≡ some (50, 0))
          × (is_majority_pinned (1 ∷ []) storage ≡ true))
check_inherent_sound_example =
    check_inherent_sound storage ((3 ∷ [], (0, 0)) ∷ [])
      ((1 ∷ [], (50, 20)) ∷ (1 ∷ [], (50, 20)) ∷ []) (1 ∷ []) 50 20 (refl, (refl, (refl, tt)))
      repeated_entry_passes

abbrev gateway : Cid → Outcome IpfsError (List ℕ)
gateway cid = ok cid

file_read :
    (IsReadable (1 ∷ []) storage
      × (get_file gateway (1 ∷ []) storage ≡ get_file_from_cid gateway (1 ∷ []) storage))
    ⊎ ((¬ IsReadable (1 ∷ []) storage)
        × (get_file gateway (1 ∷ []) storage ≡ (err http_unknown, storage)))
file_read = get_file-cases gateway (1 ∷ []) storage (omega (arith))

pinned_by_majority :
    (is_majority_pinned (3 ∷ []) storage ≡ true)
    ↔ (length storage.validators < 2 * pinned_count (3 ∷ []) storage)
pinned_by_majority = is_majority_pinned_iff (3 ∷ []) storage (omega (arith))

agent : lookup 7 storage.agents_pins ≡ some (3 ∷ [])
unfolding lookup
agent = refl

other_agent : lookup 8 storage.agents_pins ≡ some (3 ∷ [])
unfolding lookup
other_agent = refl

pin_agent-moves_example :
    (s' : Storage) × (pin_agent (signed 1) (4 ∷ []) 7 storage ≡ ok s')
    × (get_agent_cid 7 s' ≡ ok (4 ∷ []))
    × (get_cid_status (4 ∷ []) s' ≡ (0, 0))
    × ((old : Cid)
        → lookup 7 storage.agents_pins ≡ some old
        → (get_cid_status old s').0 ≡ saturating_add storage.block_number min_expire_duration)
    × ((other : ℕ) → 7 ≢ other → lookup other s'.agents_pins ≡ lookup other storage.agents_pins)
    × ((c : Cid)
        → c ≢ 4 ∷ []
        → lookup 7 storage.agents_pins ≢ some c
        → lookup c s'.cids_status ≡ lookup c storage.cids_status)
pin_agent-moves_example = pin_agent-moves 1 (4 ∷ []) 7 storage refl (λ e. ground (arith, agent))

abbrev saved : Map Cid Status
saved = (3 ∷ [], (0, 0)) ∷ []

reported :
    (s' : Storage) × (submit_processed_pins unsigned 14 ((3 ∷ [], (0, 0)) ∷ []) [] storage ≡ ok s')
unfolding submit_processed_pins is_validator
reported = (_, refl)

submit_processed_pins-reports_example :
    (unsigned ≡ unsigned)
    × (contains storage.validators 14 ≡ true)
    × ((c : Cid) (a : AccountId)
        → lookup a (pins_of c reported.0) ≡ (
            if 14 == a && contains (keys {V = Status} []) c
            then none
            else if 14 == a && contains (keys saved) c
            then some true
            else lookup a (pins_of c storage)))
    × IsReport (operation_success pin (3 ∷ []) ∷ []) storage reported.0
submit_processed_pins-reports_example =
    submit_processed_pins-reports unsigned 14 ((3 ∷ [], (0, 0)) ∷ []) [] storage reported.0
      reported.1

abbrev node : Node
node = record {
  pins = λ cid. true;
  unpins = λ cid. true;
  keystore = 14 ∷ [];
  accounts = 14 ∷ 15 ∷ [];
  session_validators = 14 ∷ [];
}

-- Account 15, which is no validator, sends a report too.
abbrev reports : List PinPayload
reports = payload saved [] 14 ∷ payload saved [] 15 ∷ []

sent : process_pins node storage ≡ ok reports
unfolding process_pins pins_to_save process_pin pins_to_remove process_unpin call_process_pins
    pins_of lookup
sent = refl

process_pins-sends_example :
    (public : AccountId) × (get_account_id node ≡ ok public)
    × (contains node.session_validators public ≡ true)
    × (pins_to_save node public storage storage.cids_status ≢ [])
    × (reports
        ≡ map (payload (pins_to_save node public storage storage.cids_status) []) node.accounts)
process_pins-sends_example = process_pins-sends node storage reports sent (λ e. cc)
