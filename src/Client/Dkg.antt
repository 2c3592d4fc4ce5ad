-- ===== src/Client/Dkg.antt =====
-- client/tss/src/lib.rs, `SessionManager`: the key generation of a session, message by message.
pub mod Rounds
pub mod Handled
pub mod Endless
pub mod Early
use uomi_node.Prelude.{
  ℕ, zero, suc, ◌+◌, ◌%◌, ◌^◌, Bool, true, false, not, ◌&&◌, ◌||◌, Option, none, some, List, [],
  ◌∷◌, ◌++◌, Outcome, ok, err, panic, ltb, leb, ◌==◌, if◌then◌else◌,
}
use uomi_node.Prelude.Key.{nat_key, pair_key, bytes_key, ◌=?◌}
use uomi_node.Prelude.Lists.{length, all}
use uomi_node.Prelude.Map.{Map, lookup, put, insert, values, or_default, contains_key}
use uomi_node.Client.{
  Bytes, SessionId, TssPublic, PeerId, Identifier, DkgSessionState, idle, round1_initiated,
  round1_completed, round2_initiated, round2_completed, round3_initiated, round3_completed,
  key_generated, failed, TssMessage, dkg_round1, dkg_round2, other_message, signing_commitment,
  signing_package, signing_share, SessionManagerError, identifier_not_found, deserialization_error,
  session_not_yet_initiated, round2_secret_package_not_yet_available, Frost, Manager, Reply,
  replied, panicked, unfinished,
}
use uomi_node.Client.Peers.{
  find_key, get_peer_id_from_account_id, get_identifier_from_account_id,
  get_identifier_from_peer_id,
}
use uomi_node.Client.Sessions.{session_exists, is_session_timed_out}

-- The derived order of the states
abbrev pub rank : DkgSessionState → ℕ
rank idle = 0
rank round1_initiated = 1
rank round1_completed = 2
rank round2_initiated = 3
rank round2_completed = 4
rank round3_initiated = 5
rank round3_completed = 6
rank key_generated = 7
rank failed = 8

unfoldable pub current_state : SessionId → Manager → DkgSessionState
current_state session_id s = or_default (lookup session_id s.dkg_session_states) idle

unfoldable pub set_state : SessionId → DkgSessionState → Manager → Manager
set_state session_id state s = record s {
  dkg_session_states = put session_id state s.dkg_session_states;
}

-- `n - 1` of a number of 16 bits
abbrev pub others_of : ℕ → ℕ
others_of n = (n + 65535) % 2 ^ 16

-- `buffer.entry(session_id).or_default()`
unfoldable pub buffered : SessionId → Manager → List (PeerId × TssMessage)
buffered session_id s = or_default (lookup session_id s.buffer) []

unfoldable pub push_buffer : SessionId → PeerId × TssMessage → Manager → Manager
unfolding buffered
push_buffer session_id m s = record s {
  buffer = put session_id (buffered session_id s ++ m ∷ []) s.buffer;
}

unfoldable pub store_round1_packages : SessionId → Identifier → Bytes → Manager → Manager
store_round1_packages session_id identifier bytes s = record s {
  round1_packages =
      put session_id (insert identifier bytes (or_default (lookup session_id s.round1_packages) []))
        s.round1_packages;
}

unfoldable pub store_round2_packages : SessionId → Identifier → Bytes → Manager → Manager
store_round2_packages session_id identifier bytes s = record s {
  round2_packages =
      put session_id (insert identifier bytes (or_default (lookup session_id s.round2_packages) []))
        s.round2_packages;
}

-- `fetch_round1_packages` and its like: a package that does not deserialize makes `unwrap` panic.
unfoldable pub fetch :
    (Bytes → Bool)
    → SessionId
    → Map SessionId (Map Identifier Bytes)
    → Option (Map Identifier Bytes)
fetch is_package session_id packages =
    let found = or_default (lookup session_id packages) [] in
    if all is_package (values found) then some found else none

-- What follows the lookup of an identifier.
abbrev pub with_identifier :
    Outcome SessionManagerError (Option Identifier) → Manager → (Identifier → Reply) → Reply
with_identifier (ok (some identifier)) s next = next identifier
with_identifier (ok none) s next = replied s (some identifier_not_found)
with_identifier (err e) s next = replied s (some e)
with_identifier panic s next = panicked

-- An error is logged, and what follows runs.
abbrev pub and_then : Reply → (Manager → Reply) → Reply
and_then (replied s result) next = next s
and_then panicked next = panicked
and_then unfinished next = unfinished

abbrev pub log_error : Reply → Reply
log_error r = and_then r (λ s. replied s none)

module _ (frost : Frost) where
  -- `dkg_handle_round2_message`, where `complete` is the call of `dkg_verify_and_complete`.
  unfoldable pub dkg_handle_round2_message :
      (Manager → Reply) → SessionId → Bytes → PeerId → PeerId → Manager → Reply
  dkg_handle_round2_message complete session_id bytes recipient sender s =
      if ltb (rank (current_state session_id s)) (rank round2_initiated)
      then replied s (some round2_secret_package_not_yet_available)
      else if not (s.local_peer_id =? recipient)
      then replied s none
      else with_identifier (get_identifier_from_peer_id session_id sender s) s (λ identifier.
        if not (frost.is_round2_package bytes)
        then replied s (some deserialization_error)
        else log_error (complete (store_round2_packages session_id identifier bytes s)))

  -- The loop over a copy of the buffer.
  unfoldable pub handle_buffered :
      (Manager → Reply) → SessionId → List (PeerId × TssMessage) → Manager → Reply
  handle_buffered complete session_id [] s = replied s none
  handle_buffered complete session_id ((peer_id, dkg_round2 id bytes recipient) ∷ rest) s =
      and_then (dkg_handle_round2_message complete session_id bytes recipient peer_id s)
        (handle_buffered complete session_id rest)
  handle_buffered complete session_id ((peer_id, dkg_round1 id bytes) ∷ rest) s =
      handle_buffered complete session_id rest s
  handle_buffered complete session_id ((peer_id, signing_commitment id bytes) ∷ rest) s =
      handle_buffered complete session_id rest s
  handle_buffered complete session_id ((peer_id, signing_package id bytes) ∷ rest) s =
      handle_buffered complete session_id rest s
  handle_buffered complete session_id ((peer_id, signing_share id bytes) ∷ rest) s =
      handle_buffered complete session_id rest s
  handle_buffered complete session_id ((peer_id, other_message bytes) ∷ rest) s =
      handle_buffered complete session_id rest s

  unfoldable pub dkg_process_buffer_for_round2 : (Manager → Reply) → SessionId → Manager → Reply
  unfolding buffered
  dkg_process_buffer_for_round2 complete session_id s =
      let messages = buffered session_id s in
      handle_buffered complete session_id messages
        (record s { buffer = put session_id messages s.buffer })

  -- The keys that part 3 gives are stored under the own identifier.
  unfoldable pub finish : SessionId → Bytes × Bytes → Manager → Reply
  unfolding set_state
  finish session_id key s =
      with_identifier (get_identifier_from_account_id session_id s.validator_key s) s (λ identifier.
        replied
          (set_state session_id key_generated
            (record s { keys = put (session_id, identifier) key s.keys }))
          none)

  abbrev pub part3_of :
      SessionId → Bytes → Map Identifier Bytes → Map Identifier Bytes → Manager → Reply
  part3_of session_id secret round1 round2 s = elim (frost.part3 secret round1 round2) [
    | some key ↦ finish session_id key s
    | none ↦ replied (set_state session_id failed s) none
  ]

  -- `dkg_verify_and_complete` after its first line
  unfoldable pub complete_now : SessionId → Manager → Reply
  complete_now session_id s = elim (lookup session_id s.round2_secret) [
    | none ↦ replied s (some round2_secret_package_not_yet_available)
    | some secret ↦ elim (fetch frost.is_round1_package session_id s.round1_packages) [
      | none ↦ panicked
      | some round1 ↦ elim (fetch frost.is_round2_package session_id s.round2_packages) [
        | none ↦ panicked
        | some round2 ↦
            if leb (others_of (frost.max_signers secret)) (length round2)
            then part3_of session_id secret round1 round2 s
            else replied s none
      ]
    ]
  ]

  -- The fuel bounds the calls of itself through the buffer.
  unfoldable pub dkg_verify_and_complete : ℕ → SessionId → Manager → Reply
  dkg_verify_and_complete zero session_id s = unfinished
  dkg_verify_and_complete (suc fuel) session_id s =
      and_then
        (dkg_process_buffer_for_round2 (dkg_verify_and_complete fuel session_id) session_id s)
        (complete_now session_id)
