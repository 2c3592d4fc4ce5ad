-- ===== src/Client/Signing/Package/Reuse.antt =====
-- The nonces of a signer after a signing package.
use uomi_node.Prelude.{
  ℕ, true, false, none, some, ◌≡◌, refl, List, [], ◌∷◌, ◌++◌, ok, err, panic, ltb, if◌then◌else◌,
}
use uomi_node.Prelude.Key.{nat_key, pair_key, bytes_key}
use uomi_node.Prelude.Map.{Map, lookup}
use uomi_node.Client.{
  Bytes, SessionId, TssPublic, PeerId, Identifier, SigningSessionState, signing_round2_initiated,
  signing_round2_completed, TssMessage, signing_share, FrostSigning, Manager, replied, panicked,
}
use uomi_node.Client.Dkg.{and_then, with_identifier}
use uomi_node.Client.Peers.{
  get_validator_id, get_identifier_from_account_id, get_peer_id_from_account_id,
}
use uomi_node.Client.Sessions.{is_session_timed_out, get_session_data}
use uomi_node.Client.Signing.{set_signing_state, send, get_key_package}
use uomi_node.Client.Signing.Package.{send_share, sign_with, signing_handle_signing_package}

module _ (frost : FrostSigning) (now : ℕ) (session_id : SessionId) where
  -- A session, not timed out, that this node has a key and nonces in, with the peer of its coordinator.
  pub record CanSign (key stored_nonces : Bytes) (peer_id : PeerId) (s : Manager) : Type 0 where
    pub identifier : Identifier
    pub coordinator : TssPublic
    pub t : ℕ
    pub n : ℕ
    pub message : Bytes
    pub identified :
        get_identifier_from_account_id session_id s.validator_key s ≡ ok (some identifier)
    pub has_key : get_key_package frost session_id identifier s ≡ ok key
    pub has_nonces : lookup session_id s.nonces ≡ some stored_nonces
    pub are_nonces : frost.is_nonces stored_nonces ≡ true
    pub has_data : get_session_data now session_id s ≡ some (t, n, coordinator, message)
    pub has_peer : get_peer_id_from_account_id coordinator s ≡ some peer_id

  -- A package of enough signers, and the share that the library makes of it.
  pub record IsSigned (key stored_nonces : Bytes) (package_bytes share : Bytes) : Type 0 where
    pub is_package : frost.is_signing_package package_bytes ≡ true
    pub enough : ltb (frost.signers_of package_bytes) (frost.min_signers key) ≡ false
    pub shared : frost.sign package_bytes stored_nonces key ≡ some share

  -- The state after a package.
  abbrev answered : PeerId → Bytes → Manager → Manager
  answered peer_id share s = set_signing_state session_id signing_round2_completed (
      send peer_id (signing_share session_id share)
        (set_signing_state session_id signing_round2_initiated s))

  -- The state of a session and what is sent change none of this.
  CanSign-same :
      (key stored_nonces : Bytes) (peer_id : PeerId) (s : Manager)
      (states : Map SessionId SigningSessionState) (out : List (PeerId × TssMessage))
      → CanSign key stored_nonces peer_id s
      → CanSign key stored_nonces peer_id (record s { signing_session_states = states; sent = out })
  CanSign-same key stored_nonces peer_id s states out c = record {
    identifier = c.identifier;
    coordinator = c.coordinator;
    t = c.t;
    n = c.n;
    message = c.message;
    identified = unfold get_identifier_from_account_id in unfold get_validator_id in c.identified;
    has_key = unfold get_key_package in c.has_key;
    has_nonces = c.has_nonces;
    are_nonces = c.are_nonces;
    has_data = unfold get_session_data in unfold is_session_timed_out in c.has_data;
    has_peer = unfold get_peer_id_from_account_id in c.has_peer;
  }

  send_share-sent :
      (key stored_nonces : Bytes) (peer_id : PeerId) (share : Bytes) (s : Manager)
      → CanSign key stored_nonces peer_id s
      → send_share frost now session_id share s
        ≡ replied
            (set_signing_state session_id signing_round2_completed
              (send peer_id (signing_share session_id share) s))
            none
  unfolding send_share
  send_share-sent key stored_nonces peer_id share s c = rw (c.has_data, send_share, c.has_peer) refl

  -- What follows the test of the package.
  sign-answered :
      (key stored_nonces : Bytes) (peer_id : PeerId) (p share : Bytes) (s : Manager)
      → CanSign key stored_nonces peer_id s
      → IsSigned key stored_nonces p share
      → with_identifier
          (get_identifier_from_account_id session_id s.validator_key s)
          s
          (λ identifier. elim (get_key_package frost session_id identifier s) [
            | panic ↦ panicked
            | err e ↦ panicked
            | ok key ↦
                if ltb (frost.signers_of p) (frost.min_signers key)
                then replied s none
                else sign_with frost now session_id p key (lookup session_id s.nonces) s
          ])
        ≡ replied
            (set_signing_state session_id signing_round2_completed
              (send peer_id (signing_share session_id share) s))
            none
  sign-answered key stored_nonces peer_id p share s c i = rw c.identified keyed
    where
      keyed :
          elim (get_key_package frost session_id c.identifier s) [
            | panic ↦ panicked
            | err e ↦ panicked
            | ok key ↦
                if ltb (frost.signers_of p) (frost.min_signers key)
                then replied s none
                else sign_with frost now session_id p key (lookup session_id s.nonces) s
          ]
          ≡ replied
              (set_signing_state session_id signing_round2_completed
                (send peer_id (signing_share session_id share) s))
              none
      keyed =
          rw (c.has_key, i.enough, c.has_nonces)
            (unfold sign_with in
              rw (c.are_nonces, i.shared) (send_share-sent key stored_nonces peer_id share s c))

  signing_handle_signing_package-answered :
      (key stored_nonces : Bytes) (peer_id sender : PeerId) (p share : Bytes) (s : Manager)
      → CanSign key stored_nonces peer_id s
      → IsSigned key stored_nonces p share
      → signing_handle_signing_package frost now session_id p sender s
        ≡ replied (answered peer_id share s) none
  unfolding signing_handle_signing_package
  signing_handle_signing_package-answered key stored_nonces peer_id sender p share s c i =
      rw i.is_package (
        sign-answered key stored_nonces peer_id p share
          (set_signing_state session_id signing_round2_initiated s)
          (unfold set_signing_state in CanSign-same key stored_nonces peer_id s _ s.sent c) i)

  -- Two signing packages, from any peers, each of enough signers, that the library makes shares of with
  -- the stored nonces: this node sends the coordinator a share of each, both made with the same nonces.
  pub signing_handle_signing_package-reuses :
      (key stored_nonces : Bytes) (peer_id sender sender' : PeerId) (p p' share share' : Bytes)
      (s : Manager)
      → CanSign key stored_nonces peer_id s
      → IsSigned key stored_nonces p share
      → IsSigned key stored_nonces p' share'
      → (s' : Manager) × ((and_then
              (signing_handle_signing_package frost now session_id p sender s)
              (signing_handle_signing_package frost now session_id p' sender')
            ≡ replied s' none)
          × (s'.sent
              ≡ (s.sent ++ (peer_id, signing_share session_id share) ∷ [])
                ++ (peer_id, signing_share session_id share') ∷ []))
  unfolding set_signing_state
  signing_handle_signing_package-reuses key stored_nonces peer_id sender sender' p p' share share' s
        c i i' =
      let first =
        signing_handle_signing_package-answered key stored_nonces peer_id sender p share s c i in
      let c' = CanSign-same key stored_nonces peer_id s _ _ c in
      (
        answered peer_id share' (answered peer_id share s),
        (
          rw first (
              signing_handle_signing_package-answered key stored_nonces peer_id sender' p' share'
                (answered peer_id share s) c' i'),
          refl,
        ),
      )
