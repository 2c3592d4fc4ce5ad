-- ===== src/Tss/Api.antt =====
-- runtime/uomi/src/lib.rs: what the runtime tells the clients of the sessions of pallet_tss.
use uomi_node.Prelude.{ℕ, ◌-◌, ◌^◌, Option, none, some, List, [], ltb, if◌then◌else◌}
use uomi_node.Prelude.Key.{nat_key}
use uomi_node.Prelude.Lists.{length}
use uomi_node.Prelude.Map.{lookup}
use uomi_node.Tss.{AccountId, SessionId, Storage}

unfoldable pub get_dkg_session_threshold : SessionId → Storage → ℕ
get_dkg_session_threshold session_id s = elim (lookup session_id s.dkg_sessions) [
  | some session ↦ session.threshold
  | none ↦ 2 ^ 32 - 1
]

-- A number that does not fit 16 bits panics, `none`.
unfoldable pub get_dkg_session_participants_count : SessionId → Storage → Option ℕ
get_dkg_session_participants_count session_id s = elim (lookup session_id s.dkg_sessions) [
  | some session ↦
      if ltb (length session.participants) (2 ^ 16)
      then some (length session.participants)
      else none
  | none ↦ some (2 ^ 16 - 1)
]

unfoldable pub get_dkg_session_participants : SessionId → Storage → List AccountId
get_dkg_session_participants session_id s = elim (lookup session_id s.dkg_sessions) [
  | some session ↦ session.participants
  | none ↦ []
]

-- Of every session, the empty list.
unfoldable pub get_signing_session_message : SessionId → Storage → List (List ℕ)
get_signing_session_message session_id s = []
