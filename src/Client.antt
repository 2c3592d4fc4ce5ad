-- ===== src/Client.antt =====
-- client/tss/src/lib.rs: the state of the session manager, with that of its `PeerMapper`, and what it
-- takes from the library of threshold signatures.
pub mod Peers
pub mod Sessions
pub mod Dkg
pub mod Signing
pub mod Runtime
pub mod Tests
use uomi_node.Prelude.{ℕ, Bool, Option, List}
use uomi_node.Prelude.Map.{Map}

abbrev pub Bytes : Type 0
Bytes = List ℕ

abbrev pub SessionId : Type 0
SessionId = ℕ

-- `TSSPublic` and `TSSParticipant`
abbrev pub TssPublic : Type 0
TssPublic = Bytes

-- A `PeerId` is its bytes: the senders of messages are the bytes of peer ids.
abbrev pub PeerId : Type 0
PeerId = Bytes

-- An identifier of a participant is the number of 16 bits that it is made from.
abbrev pub Identifier : Type 0
Identifier = ℕ

pub data DkgSessionState : Type 0 where
  idle round1_initiated round1_completed round2_initiated round2_completed : DkgSessionState
  round3_initiated round3_completed key_generated failed : DkgSessionState

-- The derived order of both kinds of states is that of their constructors.
pub data SigningSessionState : Type 0 where
  signing_idle signing_round1_initiated signing_round1_completed : SigningSessionState
  signing_round2_initiated signing_round2_completed signing_round3_initiated : SigningSessionState
  signing_round3_completed signature_generated signing_failed : SigningSessionState

-- The messages of the key generation and of signing; the others are told apart no further.
pub data TssMessage : Type 0 where
  dkg_round1 : SessionId → Bytes → TssMessage
  dkg_round2 : SessionId → Bytes → PeerId → TssMessage
  signing_commitment signing_package signing_share : SessionId → Bytes → TssMessage
  other_message : Bytes → TssMessage

-- The errors of the rounds, and `session_error` for a `SessionError`.
pub data SessionManagerError : Type 0 where
  identifier_not_found deserialization_error session_not_yet_initiated session_error :
      SessionManagerError
  round2_secret_package_not_yet_available : SessionManagerError
  signature_aggregation_error signature_not_ready_yet : SessionManagerError

-- The key generation of the library frost_ed25519, on serialized packages: what it makes of them, or
-- `none` for an error, and whether bytes are a package.
pub record Frost : Type 0 where
  pub part1 : ℕ → ℕ → Identifier → Option (Bytes × Bytes)
  pub part2 : Bytes → Map Identifier Bytes → Option (Bytes × Map Identifier Bytes)
  pub part3 : Bytes → Map Identifier Bytes → Map Identifier Bytes → Option (Bytes × Bytes)
  pub is_round1_package : Bytes → Bool
  pub is_round2_package : Bytes → Bool
  pub max_signers : Bytes → ℕ

-- Signing in the same library, on serialized values. The number stands for the random draw of
-- `commit`, which gives nonces and commitments; `signers_of` counts the commitments of a package.
pub record FrostSigning : Type 0 where
  pub is_key_package : Bytes → Bool
  pub is_public_key_package : Bytes → Bool
  pub is_nonces : Bytes → Bool
  pub is_commitment : Bytes → Bool
  pub is_signing_package : Bytes → Bool
  pub is_share : Bytes → Bool
  pub min_signers : Bytes → ℕ
  pub signers_of : Bytes → ℕ
  pub commit : ℕ → Bytes → Option (Bytes × Bytes)
  pub new_package : Map Identifier Bytes → Bytes → Option Bytes
  pub sign : Bytes → Bytes → Bytes → Option Bytes
  pub aggregate : Bytes → Map Identifier Bytes → Bytes → Option Bytes

-- `SessionManager`. The secret packages, the nonces, the signing packages and what is received are
-- those of its `storage`, `keys` what it has written to `key_storage` (the private key package and the
-- public one), a timestamp is in seconds, and `sent` is what it has given to
-- the gossip.
pub record Manager : Type 0 where
  pub round1_secret : Map SessionId Bytes
  pub round2_secret : Map SessionId Bytes
  pub round1_packages : Map SessionId (Map Identifier Bytes)
  pub round2_packages : Map SessionId (Map Identifier Bytes)
  pub nonces : Map SessionId Bytes
  pub commitments : Map SessionId (Map Identifier Bytes)
  pub signing_packages : Map SessionId Bytes
  pub signature_shares : Map SessionId (Map Identifier Bytes)
  pub keys : Map (SessionId × Identifier) (Bytes × Bytes)
  pub sessions_participants : Map SessionId (Map Identifier TssPublic)
  pub sessions_participants_u16 : Map SessionId (Map ℕ TssPublic)
  pub sessions_data : Map SessionId (ℕ × ℕ × TssPublic × Bytes)
  pub dkg_session_states : Map SessionId DkgSessionState
  pub signing_session_states : Map SessionId SigningSessionState
  pub session_timestamps : Map SessionId ℕ
  pub buffer : Map SessionId (List (PeerId × TssMessage))
  pub peers : Map PeerId TssPublic
  pub validator_ids : Map TssPublic ℕ
  pub validator_key : TssPublic
  pub local_peer_id : PeerId
  pub sent : List (PeerId × TssMessage)

-- How a function of the manager ends: with its `Ok(())` or its error, and the state; with a panic; or
-- not with the fuel that it is given.
pub data Reply : Type 0 where
  replied : Manager → Option SessionManagerError → Reply
  panicked : Reply
  unfinished : Reply
