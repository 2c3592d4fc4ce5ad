-- ===== src/Client/Sessions.antt =====
-- client/tss/src/lib.rs, `SessionManager`: sessions, their timeout and their removal.
pub mod Cleanup
use uomi_node.Prelude.{
  ℕ, ◌-◌, Bool, true, false, not, ◌&&◌, ◌||◌, Option, none, some, List, [], ◌∷◌, Outcome, ok, err,
  panic, ◌>>=◌, ◌>>◌, ensure, ltb, ◌==◌, if◌then◌else◌,
}
use uomi_node.Prelude.Key.{nat_key, bytes_key, ◌=?◌}
use uomi_node.Prelude.Lists.{length}
use uomi_node.Prelude.Map.{Map, lookup, put, remove, contains_key, is_some}
use uomi_node.Client.{Bytes, SessionId, TssPublic, SessionManagerError, session_error, Manager}
use uomi_node.Client.Peers.{create_session, get_id_from_peer_id}

-- `session_timeout`, in seconds
abbrev pub session_timeout : ℕ
session_timeout = 3600

unfoldable pub session_exists : SessionId → Manager → Bool
session_exists session_id s = contains_key s.sessions_data session_id

-- A session without a timestamp has not timed out.
abbrev pub is_older : ℕ → Option ℕ → Bool
is_older now none = false
is_older now (some timestamp) = ltb session_timeout (now - timestamp)

unfoldable pub is_session_timed_out : ℕ → SessionId → Manager → Bool
is_session_timed_out now session_id s = is_older now (lookup session_id s.session_timestamps)

unfoldable pub is_authorized_for_session : SessionId → Manager → Bool
is_authorized_for_session session_id s = is_some (get_id_from_peer_id session_id s.local_peer_id s)

-- A session that exists already is only logged.
unfoldable pub add_session_data :
    ℕ
    → SessionId
    → ℕ
    → ℕ
    → TssPublic
    → List TssPublic
    → Bytes
    → Manager
    → Outcome SessionManagerError Manager
add_session_data now session_id t n coordinator participants message s = do
  ensure (not (t == 0 || (n == 0 || ltb n t))) session_error
  ensure (length participants == n) session_error
  created ←
      create_session session_id participants
        (record s { sessions_data = put session_id (t, n, coordinator, message) s.sessions_data })
  ok (record created { session_timestamps = put session_id now created.session_timestamps })

unfoldable pub get_session_data : ℕ → SessionId → Manager → Option (ℕ × ℕ × TssPublic × Bytes)
get_session_data now session_id s =
    if is_session_timed_out now session_id s then none else lookup session_id s.sessions_data

unfoldable pub is_coordinator : ℕ → SessionId → Manager → Bool
is_coordinator now session_id s = elim (get_session_data now session_id s) [
  | none ↦ false
  | some (t, n, coordinator, message) ↦ coordinator =? s.validator_key
]

-- The first loop of `cleanup_expired_sessions`
unfoldable pub expired_sessions : ℕ → Map SessionId ℕ → List SessionId
expired_sessions now [] = []
expired_sessions now ((session_id, timestamp) ∷ rest) =
    let others = expired_sessions now rest in
    if ltb session_timeout (now - timestamp) then session_id ∷ others else others

-- The body of the second loop
unfoldable pub forget_session : SessionId → Manager → Manager
forget_session session_id s = record s {
  sessions_data = remove session_id s.sessions_data;
  sessions_participants = remove session_id s.sessions_participants;
  dkg_session_states = remove session_id s.dkg_session_states;
  signing_session_states = remove session_id s.signing_session_states;
  session_timestamps = remove session_id s.session_timestamps;
  buffer = remove session_id s.buffer;
}

unfoldable pub forget_sessions : List SessionId → Manager → Manager
forget_sessions [] s = s
forget_sessions (session_id ∷ rest) s = forget_sessions rest (forget_session session_id s)

unfoldable pub cleanup_expired_sessions : ℕ → Manager → Manager
cleanup_expired_sessions now s = forget_sessions (expired_sessions now s.session_timestamps) s
