-- ===== src/Client/Signing.antt =====
-- client/tss/src/lib.rs, `SessionManager`: the rounds of a signing session, message by message: the states and what is stored.
pub mod Created
pub mod Commitments
pub mod Package
pub mod Shares
pub mod Messages
use uomi_node.Prelude.{
  ℕ, ◌+◌, ◌^◌, Bool, true, false, not, Option, none, some, List, [], ◌∷◌, ◌++◌, Outcome, ok, err,
  panic, ◌>>=◌, ltb, leb, if◌then◌else◌,
}
use uomi_node.Prelude.Key.{nat_key, pair_key, bytes_key, ◌=?◌}
use uomi_node.Prelude.Lists.{length}
use uomi_node.Prelude.Map.{Map, lookup, put, insert, keys, or_default}
use uomi_node.Client.{
  Bytes, SessionId, TssPublic, PeerId, Identifier, SigningSessionState, signing_idle,
  signing_round1_initiated, signing_round1_completed, signing_round2_initiated,
  signing_round2_completed, signing_round3_initiated, signing_round3_completed, signature_generated,
  signing_failed, TssMessage, dkg_round1, dkg_round2, signing_commitment, signing_package,
  signing_share, other_message, SessionManagerError, identifier_not_found, deserialization_error,
  signature_aggregation_error, signature_not_ready_yet, FrostSigning, Manager, Reply, replied,
  panicked,
}
use uomi_node.Client.Peers.{
  get_peer_id_from_account_id, get_peer_id_from_identifier, get_identifier_from_account_id,
  get_identifier_from_peer_id,
}
use uomi_node.Client.Sessions.{
  session_exists, is_session_timed_out, get_session_data, is_coordinator,
}
use uomi_node.Client.Dkg.{fetch, with_identifier, log_error}

abbrev pub signing_rank : SigningSessionState → ℕ
signing_rank signing_idle = 0
signing_rank signing_round1_initiated = 1
signing_rank signing_round1_completed = 2
signing_rank signing_round2_initiated = 3
signing_rank signing_round2_completed = 4
signing_rank signing_round3_initiated = 5
signing_rank signing_round3_completed = 6
signing_rank signature_generated = 7
signing_rank signing_failed = 8

unfoldable pub set_signing_state : SessionId → SigningSessionState → Manager → Manager
set_signing_state session_id state s = record s {
  signing_session_states = put session_id state s.signing_session_states;
}

abbrev pub send : PeerId → TssMessage → Manager → Manager
send peer_id message s = record s { sent = s.sent ++ (peer_id, message) ∷ [] }

unfoldable pub store_commitment : SessionId → Identifier → Bytes → Manager → Manager
store_commitment session_id identifier bytes s = record s {
  commitments =
      put session_id (insert identifier bytes (or_default (lookup session_id s.commitments) []))
        s.commitments;
}

unfoldable pub store_signature_share : SessionId → Identifier → Bytes → Manager → Manager
store_signature_share session_id identifier bytes s = record s {
  signature_shares =
      put session_id
        (insert identifier bytes (or_default (lookup session_id s.signature_shares) []))
        s.signature_shares;
}

module _ (frost : FrostSigning) where
  -- `get_key_package` panics where no key is stored.
  unfoldable pub get_key_package :
      SessionId → Identifier → Manager → Outcome SessionManagerError Bytes
  get_key_package session_id identifier s = elim (lookup (session_id, identifier) s.keys) [
    | none ↦ panic
    | some (key, pubkey) ↦ if frost.is_key_package key then ok key else err deserialization_error
  ]

  unfoldable pub get_pubkey : SessionId → Identifier → Manager → Outcome SessionManagerError Bytes
  get_pubkey session_id identifier s = elim (lookup (session_id, identifier) s.keys) [
    | none ↦ panic
    | some (key, pubkey) ↦
        if frost.is_public_key_package pubkey then ok pubkey else err deserialization_error
  ]
