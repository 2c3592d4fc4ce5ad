-- ===== src/Client/Signing/Messages.antt =====
-- client/tss/src/lib.rs, `SessionManager`: the messages of signing that the gossip hands on, `handle_gossip_message`.
use uomi_node.Prelude.{ℕ, not, none, if◌then◌else◌}
use uomi_node.Prelude.Key.{nat_key, pair_key, bytes_key}
use uomi_node.Client.{
  SessionId, PeerId, TssMessage, dkg_round1, dkg_round2, signing_commitment, signing_package,
  signing_share, other_message, Frost, FrostSigning, Manager, Reply, replied,
}
use uomi_node.Client.Sessions.{session_exists, is_session_timed_out}
use uomi_node.Client.Dkg.{log_error}
use uomi_node.Client.Dkg.Rounds.{handle_dkg_message}
use uomi_node.Client.Signing.Commitments.{signing_handle_commitment}
use uomi_node.Client.Signing.Package.{signing_handle_signing_package}
use uomi_node.Client.Signing.Shares.{logged, signing_handle_signature_share}

-- A message of a session that is not there, or has timed out, is dropped; an error is logged.
unfoldable pub in_session : ℕ → SessionId → Manager → Reply → Reply
in_session now session_id s handled =
    if not (session_exists session_id s)
    then replied s none
    else if is_session_timed_out now session_id s
    then replied s none
    else log_error handled

-- `handle_gossip_message`, without what the ECDSA library does with its messages. An announcement, a
-- ping and a request for information change nothing here.
unfoldable pub handle_gossip_message :
    Frost → FrostSigning → ℕ → ℕ → PeerId → TssMessage → Manager → Reply
handle_gossip_message frost signing fuel now sender (dkg_round1 session_id bytes) s =
    handle_dkg_message frost fuel now sender (dkg_round1 session_id bytes) s
handle_gossip_message frost signing fuel now sender (dkg_round2 session_id bytes recipient) s =
    handle_dkg_message frost fuel now sender (dkg_round2 session_id bytes recipient) s
handle_gossip_message frost signing fuel now sender (signing_commitment session_id bytes) s =
    in_session now session_id s (signing_handle_commitment signing now session_id bytes sender s)
handle_gossip_message frost signing fuel now sender (signing_share session_id bytes) s =
    in_session now session_id s
      (logged (signing_handle_signature_share signing now session_id bytes sender s))
handle_gossip_message frost signing fuel now sender (signing_package session_id bytes) s =
    in_session now session_id s
      (signing_handle_signing_package signing now session_id bytes sender s)
handle_gossip_message frost signing fuel now sender (other_message bytes) s = replied s none
