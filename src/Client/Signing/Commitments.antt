-- ===== src/Client/Signing/Commitments.antt =====
-- client/tss/src/lib.rs, `SessionManager`: the commitments of the signers, which the coordinator makes a signing package of.
pub mod Round
use uomi_node.Prelude.{
  ℕ, ◌^◌, Bool, false, not, Option, none, some, List, [], ◌∷◌, ltb, leb, if◌then◌else◌,
}
use uomi_node.Prelude.Key.{nat_key, pair_key, bytes_key}
use uomi_node.Prelude.Lists.{length}
use uomi_node.Prelude.Map.{Map, lookup, put, keys}
use uomi_node.Client.{
  Bytes, SessionId, PeerId, Identifier, SigningSessionState, signing_round2_initiated,
  signing_round2_completed, signing_package, FrostSigning, Manager, Reply, replied, panicked,
}
use uomi_node.Client.Peers.{get_peer_id_from_identifier, get_identifier_from_peer_id}
use uomi_node.Client.Sessions.{is_coordinator}
use uomi_node.Client.Dkg.{fetch, with_identifier, log_error}
use uomi_node.Client.Signing.{signing_rank, set_signing_state, send, store_commitment}

abbrev pub send_if : SessionId → Bytes → Option PeerId → Manager → Manager
send_if session_id package_bytes none s = s
send_if session_id package_bytes (some peer_id) s =
    send peer_id (signing_package session_id package_bytes) s

-- The loop over the identifiers of the commitments: one without a peer is left out.
unfoldable pub send_to_committed : SessionId → Bytes → List Identifier → Manager → Manager
send_to_committed session_id package_bytes [] s = s
send_to_committed session_id package_bytes (identifier ∷ rest) s =
    send_to_committed session_id package_bytes rest
      (send_if session_id package_bytes (get_peer_id_from_identifier session_id identifier s) s)

unfoldable pub signing_send_signing_package_to_committed_participants :
    SessionId → Bytes → List Identifier → Manager → Manager
signing_send_signing_package_to_committed_participants session_id package_bytes committed s =
    set_signing_state session_id signing_round2_completed
      (send_to_committed session_id package_bytes committed s)

-- No state is below every other one.
abbrev pub is_past_round2 : Option SigningSessionState → Bool
is_past_round2 none = false
is_past_round2 (some state) = leb (signing_rank signing_round2_completed) (signing_rank state)

module _ (frost : FrostSigning) where
  -- Enough commitments make a package, of them all and of the message of the session.
  unfoldable pub start_signing_round2 : SessionId → Bytes → Map Identifier Bytes → Manager → Reply
  start_signing_round2 session_id message commitments s =
      elim (frost.new_package commitments message) [
        | none ↦ panicked
        | some package_bytes ↦
            let started = set_signing_state session_id signing_round2_initiated s in
            replied
              (signing_send_signing_package_to_committed_participants session_id package_bytes
                (keys commitments)
                (record started {
                  signing_packages = put session_id package_bytes started.signing_packages;
                }))
              none
      ]

  unfoldable pub signing_handle_verification_to_complete_round1 : SessionId → Manager → Reply
  signing_handle_verification_to_complete_round1 session_id s =
      elim (fetch frost.is_commitment session_id s.commitments) [
        | none ↦ panicked
        | some commitments ↦ elim (lookup session_id s.sessions_data) [
          | none ↦ replied s none
          | some (t, n, coordinator, message) ↦
              if not (ltb (length commitments) (2 ^ 16))
              then panicked
              else if ltb (length commitments) t
              then replied s none
              else start_signing_round2 session_id message commitments s
        ]
      ]

  -- The commitments are stored before the state is looked at, and are not deserialized.
  unfoldable pub signing_handle_commitment : ℕ → SessionId → Bytes → PeerId → Manager → Reply
  signing_handle_commitment now session_id bytes sender s =
      with_identifier (get_identifier_from_peer_id session_id sender s) s (λ identifier.
        let stored = store_commitment session_id identifier bytes s in
        if is_past_round2 (lookup session_id stored.signing_session_states)
        then replied stored none
        else if is_coordinator now session_id stored
        then log_error (signing_handle_verification_to_complete_round1 session_id stored)
        else replied stored none)
