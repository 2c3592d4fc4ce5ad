-- ===== src/Client/Tests/Signing.antt =====
-- client/tss: a signing session of a small manager.
use uomi_node.Prelude.{true, not, ◌&&◌, none, some, ◌≡◌, refl, [], ◌∷◌, ◌++◌, ltb}
use uomi_node.Prelude.Key.{nat_key, pair_key, bytes_key}
use uomi_node.Prelude.Map.{Map, lookup, put, insert, place, keys}
use uomi_node.Client.{
  Identifier, Bytes, FrostSigning, Manager, replied, signing_round1_completed, signature_generated,
  signing_share,
}
use uomi_node.Client.Dkg.{and_then, fetch}
use uomi_node.Client.Peers.{
  find_key, get_identifier_from_peer_id, get_identifier_from_account_id,
  get_peer_id_from_account_id, get_validator_id,
}
use uomi_node.Client.Sessions.{get_session_data, is_coordinator, is_session_timed_out}
use uomi_node.Client.Signing.{
  set_signing_state, store_commitment, store_signature_share, get_key_package, get_pubkey,
}
use uomi_node.Client.Signing.Commitments.{is_past_round2, signing_handle_commitment}
use uomi_node.Client.Signing.Commitments.Round.{CanStart, Round2, signing_handle_commitment-Round2}
use uomi_node.Client.Signing.Package.{signing_handle_signing_package}
use uomi_node.Client.Signing.Package.Reuse.{CanSign, signing_handle_signing_package-reuses}
use uomi_node.Client.Signing.Shares.{signing_handle_signature_share}
use uomi_node.Client.Signing.Shares.Sound.{IsCounted, signing_handle_signature_share-IsCounted}
use uomi_node.Client.Tests.{manager}

-- A library in which all bytes are valid; a share is the package that it is made of.
abbrev library : FrostSigning
library = record {
  is_key_package = λ bytes. true;
  is_public_key_package = λ bytes. true;
  is_nonces = λ bytes. true;
  is_commitment = λ bytes. true;
  is_signing_package = λ bytes. true;
  is_share = λ bytes. true;
  min_signers = λ key. 1;
  signers_of = λ package_bytes. 2;
  commit = λ draw key. some (8 ∷ [], 9 ∷ []);
  new_package = λ cs message. some (7 ∷ []);
  sign = λ package_bytes nonces key. some package_bytes;
  aggregate = λ package_bytes shares pubkey. some (6 ∷ []);
}

-- The other node coordinates.
abbrev signer : Manager
signer = record manager {
  keys = ((1, 1), (4 ∷ [], 5 ∷ [])) ∷ [];
  nonces = (1, 8 ∷ []) ∷ [];
  sessions_data = (1, (1, 2, 22 ∷ [], 3 ∷ [])) ∷ [];
  session_timestamps = (1, 9000) ∷ [];
  signing_session_states = (1, signing_round1_completed) ∷ [];
}

signer_can : CanSign library 9100 1 (4 ∷ []) (8 ∷ []) (20 ∷ []) signer
unfolding get_identifier_from_account_id get_validator_id lookup get_key_package get_session_data
    is_session_timed_out get_peer_id_from_account_id find_key
signer_can = record {
  identifier = 1;
  coordinator = 22 ∷ [];
  t = 1;
  n = 2;
  message = 3 ∷ [];
  identified = refl;
  has_key = refl;
  has_nonces = refl;
  are_nonces = refl;
  has_data = refl;
  has_peer = refl;
}

signing_handle_signing_package-reuses_example :
    (s' : Manager) × ((and_then
          (signing_handle_signing_package library 9100 1 (1 ∷ []) (20 ∷ []) signer)
          (signing_handle_signing_package library 9100 1 (2 ∷ []) (30 ∷ []))
        ≡ replied s' none)
      × (s'.sent
          ≡ ([] ++ (20 ∷ [], signing_share 1 (1 ∷ [])) ∷ [])
            ++ (20 ∷ [], signing_share 1 (2 ∷ [])) ∷ []))
signing_handle_signing_package-reuses_example =
    signing_handle_signing_package-reuses library 9100 1 (4 ∷ []) (8 ∷ []) (20 ∷ []) (20 ∷ [])
      (30 ∷ []) (1 ∷ []) (2 ∷ []) (1 ∷ []) (2 ∷ []) signer signer_can
      record { is_package = refl; enough = refl; shared = refl }
      record { is_package = refl; enough = refl; shared = refl }

-- This node coordinates, and has made a package.
abbrev coordinating : Manager
coordinating = record signer {
  sessions_data = (1, (1, 2, 11 ∷ [], 3 ∷ [])) ∷ [];
  sessions_participants = (1, (1, 11 ∷ []) ∷ (2, 22 ∷ []) ∷ []) ∷ [];
  signing_packages = (1, 7 ∷ []) ∷ [];
}

-- The commitments stored with those of peer 20.
abbrev committed : Map Identifier Bytes
committed = (2, 9 ∷ []) ∷ []

coordinating_can :
    CanStart library 9100 1 (7 ∷ []) committed 1 (store_commitment 1 2 (9 ∷ []) coordinating)
unfolding store_commitment lookup put insert place fetch
coordinating_can = record {
  n = 2;
  coordinator = 11 ∷ [];
  message = 3 ∷ [];
  fetched = refl;
  has_data = refl;
  bounded = refl;
  made = refl;
}

signing_handle_commitment-Round2_example :
    (s' : Manager) × (signing_handle_commitment library 9100 1 (9 ∷ []) (20 ∷ []) coordinating
      ≡ replied s' none)
    × Round2
        (not (is_past_round2 (lookup 1 coordinating.signing_session_states))
          && (is_coordinator 9100 1 coordinating && not (ltb 1 1)))
        1
        (7 ∷ [])
        (keys committed)
        (store_commitment 1 2 (9 ∷ []) coordinating)
        s'
unfolding get_identifier_from_peer_id get_identifier_from_account_id get_validator_id lookup
signing_handle_commitment-Round2_example =
    signing_handle_commitment-Round2 library 9100 1 (9 ∷ []) (7 ∷ []) committed 1 (20 ∷ []) 2
      coordinating refl coordinating_can

abbrev with_signature : Manager
with_signature = record coordinating {
  signature_shares = (1, (2, 9 ∷ []) ∷ []) ∷ [];
  signing_session_states = (1, signature_generated) ∷ [];
}

signing_handle_signature_share-IsCounted_example :
    IsCounted library 9100 1 (9 ∷ []) (20 ∷ []) (6 ∷ []) coordinating with_signature
unfolding signing_handle_signature_share get_identifier_from_peer_id get_identifier_from_account_id
    get_validator_id lookup put insert place fetch set_signing_state store_signature_share
    get_session_data is_session_timed_out get_pubkey
signing_handle_signature_share-IsCounted_example =
    signing_handle_signature_share-IsCounted library 9100 1 (9 ∷ []) (20 ∷ []) (6 ∷ []) coordinating
      with_signature refl
