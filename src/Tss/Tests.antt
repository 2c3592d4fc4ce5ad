-- ===== src/Tss/Tests.antt =====
-- pallets/tss: the theorems at concrete storages.
use uomi_node.Prelude.{ℕ, ◌≤◌, none, some, ◌≡◌, refl, Bool, true, [], ◌∷◌, arith, ok}
use uomi_node.Prelude.Key.{nat_key, bytes_key}
use uomi_node.Prelude.Lists.{contains}
use uomi_node.Prelude.Map.{lookup}
use uomi_node.Tss.{
  Storage, SessionId, DkgSession, signed, unsigned, whitelisted, dkg_created, signing_in_progress,
  create_dkg_session, create_signing_session, get_next_session_id,
}
use uomi_node.Tss.Numbers.{
  update_validators, initialize_validator_ids, get_validator_id, get_validator_from_id,
  assign_validator_ids,
}
use uomi_node.Tss.Numbers.Matching.{
  IsMatched, IsGrown, update_validators-IsGrown, initialize_validator_ids-assign,
  initialize_validator_ids-clash,
}
use uomi_node.Tss.Sessions.{
  IsNumbered, IsOpened, create_dkg_session-IsOpened, create_dkg_session-refused,
}
use uomi_node.Tss.Sessions.Signing.{create_signing_session-IsOpened}
use uomi_node.Tss.Offchain.{offchain_worker, new_validators, offchain_worker-settles}

-- Validator 20 has the id 1, and session 0 is for the NFT 9.
abbrev dkg_session : DkgSession
dkg_session = record {
  participants = 20 ∷ [];
  nft_id = 9 ∷ [];
  threshold = 60;
  state = dkg_created;
  old_participants = none;
}

abbrev storage : Storage
storage = record {
  dkg_sessions = (0, dkg_session) ∷ [];
  signing_sessions = [];
  active_validators = 20 ∷ [];
  next_session_id = 1;
  validator_ids = (20, 1) ∷ [];
  id_to_validator = (1, 20) ∷ [];
  next_validator_id = 2;
  events = [];
}

storage-IsMatched : IsMatched storage
unfolding get_validator_id get_validator_from_id lookup
storage-IsMatched = record {
  there = λ v i h. ground (arith);
  back = λ v i h. ground (arith);
  below = λ v i h. ground (arith);
}

storage-IsNumbered : IsNumbered storage
unfolding lookup
storage-IsNumbered = record {
  distinct = (refl, tt);
  dkg_below = λ id h. ground (arith);
  signing_below = λ id h. cc;
  apart = λ id h. refl;
  linked = λ id session h. cc;
}

update_validators-IsGrown_example :
    (s' : Storage) × (update_validators unsigned (20 ∷ 21 ∷ []) storage ≡ ok s')
    × (s'.active_validators ≡ 20 ∷ 21 ∷ [])
    × IsGrown storage s' 2
    × ((v : ℕ) → contains (20 ∷ 21 ∷ []) v ≡ true → (i : ℕ) × (get_validator_id v s' ≡ some i))
update_validators-IsGrown_example =
    update_validators-IsGrown (20 ∷ 21 ∷ []) storage storage-IsMatched (omega (arith))
      (omega (arith))

initialize_validator_ids-assign_example :
    initialize_validator_ids (20 ∷ 21 ∷ []) storage
    ≡ assign_validator_ids (20 ∷ 21 ∷ []) (record storage { next_validator_id = 1 })
initialize_validator_ids-assign_example = initialize_validator_ids-assign (20 ∷ 21 ∷ []) storage

has_one : get_validator_id 20 storage ≡ some 1
unfolding get_validator_id lookup
has_one = refl

has_none : get_validator_id 21 storage ≡ none
unfolding get_validator_id lookup
has_none = refl

ids_clash : ¬ IsMatched (initialize_validator_ids (21 ∷ []) storage)
ids_clash = initialize_validator_ids-clash 21 20 [] storage has_one has_none

create_dkg_session-IsOpened_example :
    (s' : Storage) × (create_dkg_session (20 ∷ 21 ∷ []) (signed whitelisted) (8 ∷ []) 66 storage
      ≡ ok s')
    × (lookup 1 storage.dkg_sessions ≡ none)
    × (lookup 1 s'.dkg_sessions
        ≡ some (record {
          participants = 20 ∷ 21 ∷ [];
          nft_id = 8 ∷ [];
          threshold = 66;
          state = dkg_created;
          old_participants = none;
        }))
    × IsOpened storage s'
create_dkg_session-IsOpened_example =
    create_dkg_session-IsOpened (20 ∷ 21 ∷ []) (8 ∷ []) 66 storage storage-IsNumbered
      (omega (arith)) (omega (arith)) (omega (arith)) (omega (arith))

opened : (s' : Storage) × (create_dkg_session [] (signed whitelisted) (8 ∷ []) 66 storage ≡ ok s')
unfolding create_dkg_session get_next_session_id
opened = (_, refl)

session_refused : (signed whitelisted ≡ signed whitelisted) × (50 ≤ 66) × (66 ≤ 100) × (0 ≤ 65536)
session_refused =
    create_dkg_session-refused [] (signed whitelisted) (8 ∷ []) 66 storage opened.0 opened.1

has_session : lookup 0 storage.dkg_sessions ≡ some dkg_session
unfolding lookup
has_session = refl

create_signing_session-IsOpened_example :
    (s' : Storage) × (dkg_id : SessionId) × (create_signing_session
        (signed whitelisted)
        (9 ∷ [])
        (1 ∷ 2 ∷ [])
        storage
      ≡ ok s')
    × (lookup 1 storage.signing_sessions ≡ none)
    × (lookup 1 s'.signing_sessions
        ≡ some (record {
          dkg_session_id = dkg_id;
          nft_id = 9 ∷ [];
          message = 1 ∷ 2 ∷ [];
          state = signing_in_progress;
          aggregated_sig = none;
        }))
    × IsOpened storage s'
create_signing_session-IsOpened_example =
    create_signing_session-IsOpened (9 ∷ []) (1 ∷ 2 ∷ []) storage 0 dkg_session storage-IsNumbered
      (omega (arith)) has_session refl

sends : offchain_worker 20 2000000 true (20 ∷ 21 ∷ []) storage ≡ some (20 ∷ 21 ∷ [])
unfolding offchain_worker new_validators lookup
sends = refl

offchain_worker-settles_example :
    (s' : Storage) × (update_validators unsigned (20 ∷ 21 ∷ []) storage ≡ ok s')
    × ((n' block' : ℕ) (can_sign' : Bool)
        → offchain_worker n' block' can_sign' (20 ∷ 21 ∷ []) s' ≡ none)
offchain_worker-settles_example =
    offchain_worker-settles 20 2000000 true (20 ∷ 21 ∷ []) (20 ∷ 21 ∷ []) storage sends
      storage-IsMatched (omega (arith)) (omega (arith))
