-- ===== src/Client/Signing/Package.antt =====
-- client/tss/src/lib.rs, `SessionManager`: a signing package, which a signer answers by its share.
pub mod Reuse
use uomi_node.Prelude.{ℕ, not, Option, none, some, ok, err, panic, ltb, if◌then◌else◌}
use uomi_node.Prelude.Key.{nat_key, pair_key, bytes_key}
use uomi_node.Prelude.Map.{lookup}
use uomi_node.Client.{
  Bytes, SessionId, PeerId, signing_round2_initiated, signing_round2_completed, signing_share,
  deserialization_error, FrostSigning, Manager, Reply, replied, panicked,
}
use uomi_node.Client.Peers.{get_peer_id_from_account_id, get_identifier_from_account_id}
use uomi_node.Client.Sessions.{get_session_data}
use uomi_node.Client.Dkg.{with_identifier}
use uomi_node.Client.Signing.{set_signing_state, send, get_key_package}

module _ (frost : FrostSigning) where
  -- From the share on: it goes to the coordinator of the session, if its peer is known.
  unfoldable pub send_share : ℕ → SessionId → Bytes → Manager → Reply
  send_share now session_id share s = elim (get_session_data now session_id s) [
    | none ↦ panicked
    | some (t, n, coordinator, message) ↦ elim (get_peer_id_from_account_id coordinator s) [
      | none ↦ replied s none
      | some peer_id ↦
          replied
            (set_signing_state session_id signing_round2_completed
              (send peer_id (signing_share session_id share) s))
            none
    ]
  ]

  -- Nonces that are not there, or no nonces, make `unwrap` panic, and so does an error of `sign`.
  unfoldable pub sign_with : ℕ → SessionId → Bytes → Bytes → Option Bytes → Manager → Reply
  sign_with now session_id package_bytes key none s = panicked
  sign_with now session_id package_bytes key (some stored_nonces) s =
      if not (frost.is_nonces stored_nonces)
      then panicked
      else elim (frost.sign package_bytes stored_nonces key) [
        | none ↦ panicked
        | some share ↦ send_share now session_id share s
      ]

  -- The sender is not looked at.
  unfoldable pub signing_handle_signing_package : ℕ → SessionId → Bytes → PeerId → Manager → Reply
  signing_handle_signing_package now session_id bytes sender s =
      let entered = set_signing_state session_id signing_round2_initiated s in
      if not (frost.is_signing_package bytes)
      then replied entered (some deserialization_error)
      else with_identifier (get_identifier_from_account_id session_id entered.validator_key entered)
          entered
          (λ identifier. elim (get_key_package frost session_id identifier entered) [
            | panic ↦ panicked
            | err e ↦ panicked
            | ok key ↦
                if ltb (frost.signers_of bytes) (frost.min_signers key)
                then replied entered none
                else sign_with now session_id bytes key (lookup session_id entered.nonces) entered
          ])
