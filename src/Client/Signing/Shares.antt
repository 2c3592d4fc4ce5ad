-- ===== src/Client/Signing/Shares.antt =====
-- client/tss/src/lib.rs, `SessionManager`: the shares of the signers, which the coordinator makes a signature of.
pub mod Sound
use uomi_node.Prelude.{Outcome, ℕ, not, Option, none, some, ok, err, panic, leb, if◌then◌else◌}
use uomi_node.Prelude.Key.{nat_key, pair_key, bytes_key}
use uomi_node.Prelude.Lists.{length}
use uomi_node.Prelude.Map.{Map, lookup}
use uomi_node.Client.{
  TssPublic, Bytes, SessionId, PeerId, Identifier, signing_round3_initiated, signature_generated,
  signing_failed, SessionManagerError, identifier_not_found, deserialization_error,
  signature_aggregation_error, signature_not_ready_yet, FrostSigning, Manager, Reply, replied,
  panicked,
}
use uomi_node.Client.Peers.{get_identifier_from_account_id, get_identifier_from_peer_id}
use uomi_node.Client.Sessions.{get_session_data}
use uomi_node.Client.Dkg.{fetch}
use uomi_node.Client.Signing.{set_signing_state, store_signature_share, get_pubkey}

-- How `signing_handle_signature_share` ends: with a signature, with an error, or with a panic.
pub data ShareReply : Type 0 where
  signed : Manager → Bytes → ShareReply
  refused : Manager → SessionManagerError → ShareReply
  share_panicked : ShareReply

-- What the gossip does with it: both are only logged.
abbrev pub logged : ShareReply → Reply
logged (signed s signature) = replied s none
logged (refused s error) = replied s none
logged share_panicked = panicked

-- What follows `aggregate`.
abbrev pub aggregated : SessionId → Option Bytes → Manager → ShareReply
aggregated session_id none s =
    refused (set_signing_state session_id signing_failed s) signature_aggregation_error
aggregated session_id (some signature) s =
    signed (set_signing_state session_id signature_generated s) signature

module _ (frost : FrostSigning) where
  -- A signing package that is missing, or is none, makes `unwrap` panic.
  abbrev pub aggregate_with :
      SessionId → Map Identifier Bytes → Bytes → Option Bytes → Manager → ShareReply
  aggregate_with session_id shares pubkey none s = share_panicked
  aggregate_with session_id shares pubkey (some package_bytes) s =
      if not (frost.is_signing_package package_bytes)
      then share_panicked
      else aggregated session_id (frost.aggregate package_bytes shares pubkey) s

  -- What follows the lookup of the public keys, and of the identifier of this node.
  abbrev pub aggregate_under :
      SessionId → Map Identifier Bytes → Outcome SessionManagerError Bytes → Manager → ShareReply
  aggregate_under session_id shares panic s = share_panicked
  aggregate_under session_id shares (err e) s = share_panicked
  aggregate_under session_id shares (ok pubkey) s =
      aggregate_with session_id shares pubkey (lookup session_id s.signing_packages) s

  abbrev pub aggregate_as :
      SessionId
      → Map Identifier Bytes
      → Outcome SessionManagerError (Option Identifier)
      → Manager
      → ShareReply
  aggregate_as session_id shares panic s = share_panicked
  aggregate_as session_id shares (err e) s = refused s e
  aggregate_as session_id shares (ok none) s = refused s identifier_not_found
  aggregate_as session_id shares (ok (some identifier)) s =
      aggregate_under session_id shares (get_pubkey frost session_id identifier s) s

  -- What follows the lookup of the session: `t` shares are needed.
  abbrev pub count_in :
      SessionId → Map Identifier Bytes → Option (ℕ × ℕ × TssPublic × Bytes) → Manager → ShareReply
  count_in session_id shares none s = share_panicked
  count_in session_id shares (some (t, n, coordinator, message)) s =
      if leb t (length shares)
      then aggregate_as session_id shares
          (get_identifier_from_account_id session_id s.validator_key s) s
      else refused s signature_not_ready_yet

  abbrev pub count_shares : ℕ → SessionId → Option (Map Identifier Bytes) → Manager → ShareReply
  count_shares now session_id none s = share_panicked
  count_shares now session_id (some shares) s =
      count_in session_id shares (get_session_data now session_id s) s

  -- What follows the lookup of the identifier of the sender.
  abbrev pub share_of :
      ℕ → SessionId → Bytes → Outcome SessionManagerError (Option Identifier) → Manager → ShareReply
  share_of now session_id bytes panic s = share_panicked
  share_of now session_id bytes (err e) s = refused s e
  share_of now session_id bytes (ok none) s = refused s identifier_not_found
  share_of now session_id bytes (ok (some identifier)) s =
      let stored = store_signature_share session_id identifier bytes s in
      count_shares now session_id (fetch frost.is_share session_id stored.signature_shares) stored

  unfoldable pub signing_handle_signature_share :
      ℕ → SessionId → Bytes → PeerId → Manager → ShareReply
  signing_handle_signature_share now session_id bytes sender s =
      let entered = set_signing_state session_id signing_round3_initiated s in
      if not (frost.is_share bytes)
      then refused entered deserialization_error
      else share_of now session_id bytes (get_identifier_from_peer_id session_id sender entered)
          entered
