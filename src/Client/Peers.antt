-- ===== src/Client/Peers.antt =====
-- client/tss/src/lib.rs, `PeerMapper`: peers, their accounts, and the identifiers of accounts in a
-- session.
use uomi_node.Prelude.{
  ℕ, ◌+◌, ◌^◌, Option, none, some, List, [], ◌∷◌, Outcome, ok, panic, ◌>>=◌, ltb, ◌==◌,
  if◌then◌else◌,
}
use uomi_node.Prelude.Key.{nat_key, bytes_key, ◌=?◌}
use uomi_node.Prelude.Map.{Map, lookup, put, or_default}
use uomi_node.Client.{SessionId, TssPublic, PeerId, Identifier, SessionManagerError, Manager}

-- `iter().find(|(_, val)| val == account)`: the key of the first entry.
unfoldable pub find_key {ℓ} : {K : Type ℓ} → TssPublic → Map K TssPublic → Option K
find_key account [] = none
find_key account ((key, value) ∷ rest) =
    if value =? account then some key else find_key account rest

unfoldable pub get_peer_id_from_account_id : TssPublic → Manager → Option PeerId
get_peer_id_from_account_id account s = find_key account s.peers

unfoldable pub get_validator_id : TssPublic → Manager → Option ℕ
get_validator_id public_key s = lookup public_key s.validator_ids

unfoldable pub set_validator_id : TssPublic → ℕ → Manager → Manager
set_validator_id public_key id s = record s { validator_ids = put public_key id s.validator_ids }

unfoldable pub add_peer : PeerId → TssPublic → Manager → Manager
add_peer peer_id public_key s = record s { peers = put peer_id public_key s.peers }

-- `try_into().unwrap()` of a number of 16 bits: there is no identifier for 0.
abbrev pub to_identifier : ℕ → Outcome SessionManagerError Identifier
to_identifier id = if id == 0 then panic else ok id

-- `u16::try_from(id)`, with what is taken where it fails.
abbrev pub u16_or : ℕ → ℕ → ℕ
u16_or id otherwise = if ltb id (2 ^ 16) then id else otherwise

unfoldable pub get_identifier_from_account_id :
    SessionId → TssPublic → Manager → Outcome SessionManagerError (Option Identifier)
get_identifier_from_account_id session_id account s = elim (get_validator_id account s) [
  | some id ↦ to_identifier (u16_or id 65535) >>= λ identifier. ok (some identifier)
  | none ↦ ok (find_key account (or_default (lookup session_id s.sessions_participants) []))
]

unfoldable pub get_identifier_from_peer_id :
    SessionId → PeerId → Manager → Outcome SessionManagerError (Option Identifier)
get_identifier_from_peer_id session_id peer_id s = elim (lookup peer_id s.peers) [
  | some account ↦ get_identifier_from_account_id session_id account s
  | none ↦ ok none
]

unfoldable pub get_peer_id_from_identifier : SessionId → Identifier → Manager → Option PeerId
get_peer_id_from_identifier session_id identifier s =
    elim (lookup identifier (or_default (lookup session_id s.sessions_participants) [])) [
      | some account ↦ get_peer_id_from_account_id account s
      | none ↦ none
    ]

unfoldable pub get_id_from_account_id : SessionId → TssPublic → Manager → Option ℕ
get_id_from_account_id session_id account s =
    find_key account (or_default (lookup session_id s.sessions_participants_u16) [])

unfoldable pub get_id_from_peer_id : SessionId → PeerId → Manager → Option ℕ
get_id_from_peer_id session_id peer_id s = elim (lookup peer_id s.peers) [
  | some account ↦ get_id_from_account_id session_id account s
  | none ↦ none
]

-- The loop over the participants, from `index` on. Without a validator id a participant has its place
-- in the list, from 1.
unfoldable pub add_participants :
    SessionId → ℕ → List TssPublic → Manager → Outcome SessionManagerError Manager
add_participants session_id index [] s = ok s
add_participants session_id index (account ∷ rest) s = do
  identifier ← to_identifier (u16_or (or_default (get_validator_id account s) (index + 1)) 0)
  place ← if ltb (index + 1) (2 ^ 16) then ok (index + 1) else panic
  let participants = or_default (lookup session_id s.sessions_participants) []
  let places = or_default (lookup session_id s.sessions_participants_u16) []
  add_participants session_id (index + 1) rest (record s {
    sessions_participants =
        put session_id (put identifier account participants) s.sessions_participants;
    sessions_participants_u16 =
        put session_id (put place account places) s.sessions_participants_u16;
  })

-- `entry(session_id).or_insert(empty_hash_map())` in both maps, then the loop.
unfoldable pub create_session :
    SessionId → List TssPublic → Manager → Outcome SessionManagerError Manager
create_session session_id participants s = add_participants session_id 0 participants (record s {
  sessions_participants =
      put session_id (or_default (lookup session_id s.sessions_participants) [])
        s.sessions_participants;
  sessions_participants_u16 =
      put session_id (or_default (lookup session_id s.sessions_participants_u16) [])
        s.sessions_participants_u16;
})
