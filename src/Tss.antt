-- ===== src/Tss.antt =====
-- pallets/tss/src/lib.rs: the sessions of the threshold signatures and the ids of the validators.
pub mod Numbers
pub mod Sessions
pub mod Offchain
pub mod Api
pub mod Tests
use uomi_node.Prelude.{
  ℕ, ◌+◌, ◌%◌, ◌^◌, Bool, true, false, not, Option, none, some, List, [], ◌∷◌, ◌++◌, Outcome, ok,
  err, ◌>>=◌, ◌>>◌, ensure, assert, leb, ltb, ◌==◌, if◌then◌else◌,
}
use uomi_node.Prelude.Key.{nat_key, bytes_key, ◌=?◌}
use uomi_node.Prelude.Lists.{length}
use uomi_node.Prelude.Map.{Map, lookup, put, contains_key}

-- An account is its 32 bytes read as a big-endian number.
abbrev pub AccountId : Type 0
AccountId = ℕ

abbrev pub SessionId : Type 0
SessionId = ℕ

abbrev pub NftId : Type 0
NftId = List ℕ

pub data SessionState : Type 0 where
  dkg_created dkg_in_progress dkg_complete signing_in_progress signing_complete : SessionState

pub record DkgSession : Type 0 where
  pub participants : List AccountId
  pub nft_id : NftId
  pub threshold : ℕ
  pub state : SessionState
  pub old_participants : Option (List AccountId)

pub record SigningSession : Type 0 where
  pub dkg_session_id : SessionId
  pub nft_id : NftId
  pub message : List ℕ
  pub state : SessionState
  pub aggregated_sig : Option (List ℕ)

pub data TssEvent : Type 0 where
  dkg_session_created : SessionId → TssEvent
  signing_session_created : SessionId → SessionId → TssEvent
  validator_id_assigned : AccountId → ℕ → TssEvent

pub data TssError : Type 0 where
  bad_origin unauthorized_participation invalid_threshold dkg_session_not_found : TssError

pub data Origin : Type 0 where
  root unsigned : Origin
  signed : AccountId → Origin

-- `AggregatedPublicKeys`, `PendingDKGUpdates` and `TSSKey` are not written by any code.
pub record Storage : Type 0 where
  pub dkg_sessions : Map SessionId DkgSession
  pub signing_sessions : Map SessionId SigningSession
  pub active_validators : List AccountId
  pub next_session_id : SessionId
  pub validator_ids : Map AccountId ℕ
  pub id_to_validator : Map ℕ AccountId
  pub next_validator_id : ℕ
  pub events : List TssEvent

abbrev pub max_number_of_shares : ℕ
max_number_of_shares = 65536

abbrev pub temp_block_for_new_opoc : ℕ
temp_block_for_new_opoc = 1950000

-- The account whose bytes the hexadecimal string in the source spells.
abbrev pub whitelisted : AccountId
whitelisted = 110642031995230130629660395052865235400496844753841232647401007011918865211508

abbrev pub ensure_signed : Origin → Outcome TssError AccountId
ensure_signed (signed who) = ok who
ensure_signed root = err bad_origin
ensure_signed unsigned = err bad_origin

abbrev pub ensure_none : Origin → Outcome TssError (Unit {0})
ensure_none unsigned = ok tt
ensure_none root = err bad_origin
ensure_none (signed who) = err bad_origin

unfoldable pub get_next_session_id : Storage → SessionId × Storage
get_next_session_id s =
    (s.next_session_id, record s { next_session_id = (s.next_session_id + 1) % 2 ^ 64 })

-- `validators` is what `pallet_staking::Validators` lists; a list that does not fit the bounded
-- vector makes `unwrap` panic.
unfoldable pub create_dkg_session :
    List AccountId → Origin → NftId → ℕ → Storage → Outcome TssError Storage
create_dkg_session validators origin nft_id threshold s = do
  who ← ensure_signed origin
  ensure (whitelisted == who) unauthorized_participation
  ensure (ltb 0 threshold) invalid_threshold
  ensure (leb threshold 100) invalid_threshold
  ensure (leb 50 threshold) invalid_threshold
  assert (leb (length validators) max_number_of_shares)
  let session : DkgSession = record {
    participants = validators;
    nft_id = nft_id;
    threshold = threshold;
    state = dkg_created;
    old_participants = none;
  }
  let (session_id, s') = get_next_session_id s
  ok (record s' {
    dkg_sessions = put session_id session s'.dkg_sessions;
    events = s'.events ++ dkg_session_created session_id ∷ [];
  })

-- The first session that is for the NFT, in the order of the storage.
unfoldable pub find_dkg_session : NftId → Map SessionId DkgSession → Option SessionId
find_dkg_session nft_id [] = none
find_dkg_session nft_id ((id, session) ∷ rest) =
    if session.nft_id =? nft_id then some id else find_dkg_session nft_id rest

-- `ok_or(Error::<T>::DkgSessionNotFound)`
abbrev pub found {ℓ} : {A : Type ℓ} → Option A → Outcome TssError A
found none = err dkg_session_not_found
found (some a) = ok a

unfoldable pub create_signing_session : Origin → NftId → List ℕ → Storage → Outcome TssError Storage
create_signing_session origin nft_id message s = do
  who ← ensure_signed origin
  ensure (whitelisted == who) unauthorized_participation
  dkg_session_id ← found (find_dkg_session nft_id s.dkg_sessions)
  dkg_session ← found (lookup dkg_session_id s.dkg_sessions)
  let session : SigningSession = record {
    dkg_session_id = dkg_session_id;
    nft_id = nft_id;
    message = message;
    state = signing_in_progress;
    aggregated_sig = none;
  }
  let (session_id, s') = get_next_session_id s
  ok (record s' {
    signing_sessions = put session_id session s'.signing_sessions;
    events = s'.events ++ signing_session_created session_id dkg_session_id ∷ [];
  })

-- The bodies of these three calls are commented out.
unfoldable pub submit_dkg_result : Origin → SessionId → List ℕ → Storage → Outcome TssError Storage
submit_dkg_result origin session_id aggregated_key s = ok s

unfoldable pub submit_aggregated_signature :
    Origin → SessionId → List ℕ → Storage → Outcome TssError Storage
submit_aggregated_signature origin session_id signature s = ok s

unfoldable pub create_reshare_dkg_session :
    Origin → NftId → ℕ → List AccountId → Storage → Outcome TssError Storage
create_reshare_dkg_session origin nft_id threshold old_participants s = ok s
