-- ===== src/Client/Dkg/Rounds.antt =====
-- client/tss/src/lib.rs, `SessionManager`: round 1 of the key generation, the start of round 2, and the
-- messages of the gossip that drive both.
use uomi_node.Prelude.{
  ℕ, ◌+◌, not, ◌||◌, Option, none, some, List, [], ◌∷◌, ◌++◌, ltb, leb, ◌==◌, if◌then◌else◌,
}
use uomi_node.Prelude.Key.{nat_key, bytes_key, ◌=?◌}
use uomi_node.Prelude.Lists.{length}
use uomi_node.Prelude.Map.{Map, lookup, put, or_default}
use uomi_node.Client.{
  Bytes, SessionId, TssPublic, PeerId, Identifier, round1_initiated, round1_completed,
  round2_initiated, failed, TssMessage, dkg_round1, dkg_round2, other_message, signing_commitment,
  signing_package, signing_share, identifier_not_found, deserialization_error,
  session_not_yet_initiated, round2_secret_package_not_yet_available, session_error,
  signature_aggregation_error, signature_not_ready_yet, Frost, Manager, Reply, replied, panicked,
  unfinished,
}
use uomi_node.Client.Peers.{get_peer_id_from_account_id, get_identifier_from_peer_id}
use uomi_node.Client.Sessions.{session_exists, is_session_timed_out}
use uomi_node.Client.Dkg.{
  rank, current_state, set_state, others_of, buffered, push_buffer, store_round1_packages, fetch,
  with_identifier, and_then, log_error, dkg_handle_round2_message, dkg_verify_and_complete,
}

-- The loop over the packages of part 2: to every participant but this node, if its peer is known.
unfoldable pub send_packages : SessionId → Map Identifier Bytes → Manager → Manager
send_packages session_id [] s = s
send_packages session_id ((identifier, package_bytes) ∷ rest) s =
    send_packages session_id rest
      (elim (lookup identifier (or_default (lookup session_id s.sessions_participants) [])) [
        | none ↦ s
        | some account ↦
            if account =? s.validator_key then s else elim (get_peer_id_from_account_id account s) [
              | none ↦ s
              | some peer_id ↦ record s {
                sent = s.sent ++ (peer_id, dkg_round2 session_id package_bytes peer_id) ∷ [];
              }
            ]
      ])

-- The place of this node among the participants
unfoldable pub index_of : TssPublic → ℕ → List TssPublic → Option ℕ
index_of account i [] = none
index_of account i (participant ∷ rest) =
    if participant =? account then some i else index_of account (i + 1) rest

module _ (frost : Frost) (fuel : ℕ) where
  unfoldable pub dkg_verify_and_start_round2 :
      SessionId → Bytes → Map Identifier Bytes → Manager → Reply
  dkg_verify_and_start_round2 session_id secret packages s = elim (frost.part2 secret packages) [
    | none ↦ replied (set_state session_id failed s) none
    | some (secret2, packages2) ↦
        let sent = send_packages session_id packages2 (set_state session_id round1_completed s) in
        let stored = record sent { round2_secret = put session_id secret2 sent.round2_secret } in
        log_error (
          dkg_verify_and_complete frost fuel session_id
            (set_state session_id round2_initiated stored))
  ]

  unfoldable pub dkg_handle_verification_to_complete_round1 : SessionId → Manager → Reply
  dkg_handle_verification_to_complete_round1 session_id s =
      elim (lookup session_id s.round1_secret) [
        | none ↦ replied s none
        | some secret ↦ elim (fetch frost.is_round1_package session_id s.round1_packages) [
          | none ↦ panicked
          | some packages ↦
              if leb (others_of (frost.max_signers secret)) (length packages)
              then dkg_verify_and_start_round2 session_id secret packages s
              else replied s none
        ]
      ]

  -- The message is stored before the state is looked at, and is not deserialized.
  unfoldable pub dkg_handle_round1_message : SessionId → Bytes → PeerId → Manager → Reply
  dkg_handle_round1_message session_id bytes sender s =
      with_identifier (get_identifier_from_peer_id session_id sender s) s (λ identifier.
        let stored = store_round1_packages session_id identifier bytes s in
        if ltb (rank (current_state session_id s)) (rank round1_initiated)
        then replied stored (some session_not_yet_initiated)
        else dkg_handle_verification_to_complete_round1 session_id stored)

  -- The loop over a copy of the buffer
  unfoldable pub handle_buffered_round1 : SessionId → List (PeerId × TssMessage) → Manager → Reply
  handle_buffered_round1 session_id [] s = replied s none
  handle_buffered_round1 session_id ((peer_id, dkg_round1 id bytes) ∷ rest) s =
      and_then (dkg_handle_round1_message session_id bytes peer_id s)
        (handle_buffered_round1 session_id rest)
  handle_buffered_round1 session_id ((peer_id, dkg_round2 id bytes recipient) ∷ rest) s =
      handle_buffered_round1 session_id rest s
  handle_buffered_round1 session_id ((peer_id, signing_commitment id bytes) ∷ rest) s =
      handle_buffered_round1 session_id rest s
  handle_buffered_round1 session_id ((peer_id, signing_package id bytes) ∷ rest) s =
      handle_buffered_round1 session_id rest s
  handle_buffered_round1 session_id ((peer_id, signing_share id bytes) ∷ rest) s =
      handle_buffered_round1 session_id rest s
  handle_buffered_round1 session_id ((peer_id, other_message bytes) ∷ rest) s =
      handle_buffered_round1 session_id rest s

  -- From the random draw of round 1 on
  unfoldable pub start_round1 : SessionId → Bytes × Bytes → Manager → Reply
  start_round1 session_id (r1, secret) s =
      let started =
        set_state session_id round1_initiated
          (record s { round1_secret = put session_id secret s.round1_secret }) in
      let messages = buffered session_id started in
      let announced = record started {
        sent = started.sent ++ (started.local_peer_id, dkg_round1 session_id r1) ∷ [];
        buffer = put session_id messages started.buffer;
      } in
      and_then (handle_buffered_round1 session_id messages announced)
        (dkg_handle_verification_to_complete_round1 session_id)

  -- `t` and `n` come from numbers of 16 bits. The identifier is the place of this node, from 1.
  unfoldable pub dkg_handle_session_created : SessionId → ℕ → ℕ → List TssPublic → Manager → Reply
  dkg_handle_session_created session_id n t participants s =
      if t == 0 || (n == 0 || ltb n t)
      then replied s (some session_error)
      else if not (length participants == n)
      then replied s (some session_error)
      else elim (index_of s.validator_key 0 participants) [
        | none ↦ replied s (some session_error)
        | some index ↦ elim (frost.part1 t n (index + 1)) [
          | none ↦ replied s (some session_error)
          | some drawn ↦ start_round1 session_id drawn s
        ]
      ]

  -- The error that a handler gives decides whether the message is kept for later.
  abbrev pub keep_if_not_found : SessionId → PeerId × TssMessage → Reply → Reply
  keep_if_not_found session_id m (replied s (some identifier_not_found)) =
      replied (push_buffer session_id m s) none
  keep_if_not_found session_id m (replied s (some deserialization_error)) = replied s none
  keep_if_not_found session_id m (replied s (some session_not_yet_initiated)) = replied s none
  keep_if_not_found session_id m (replied s (some session_error)) = replied s none
  keep_if_not_found session_id m (replied s (some signature_aggregation_error)) = replied s none
  keep_if_not_found session_id m (replied s (some signature_not_ready_yet)) = replied s none
  keep_if_not_found session_id m (replied s (some round2_secret_package_not_yet_available)) =
      replied s none
  keep_if_not_found session_id m (replied s none) = replied s none
  keep_if_not_found session_id m panicked = panicked
  keep_if_not_found session_id m unfinished = unfinished

  abbrev pub keep_if_early : SessionId → PeerId × TssMessage → Reply → Reply
  keep_if_early session_id m (replied s (some round2_secret_package_not_yet_available)) =
      replied (push_buffer session_id m s) none
  keep_if_early session_id m (replied s (some identifier_not_found)) = replied s none
  keep_if_early session_id m (replied s (some deserialization_error)) = replied s none
  keep_if_early session_id m (replied s (some session_not_yet_initiated)) = replied s none
  keep_if_early session_id m (replied s (some session_error)) = replied s none
  keep_if_early session_id m (replied s (some signature_aggregation_error)) = replied s none
  keep_if_early session_id m (replied s (some signature_not_ready_yet)) = replied s none
  keep_if_early session_id m (replied s none) = replied s none
  keep_if_early session_id m panicked = panicked
  keep_if_early session_id m unfinished = unfinished

  -- The two messages of the key generation.
  unfoldable pub handle_dkg_message : ℕ → PeerId → TssMessage → Manager → Reply
  handle_dkg_message now sender (dkg_round1 session_id bytes) s =
      if not (session_exists session_id s)
      then replied (push_buffer session_id (sender, dkg_round1 session_id bytes) s) none
      else if is_session_timed_out now session_id s
      then replied s none
      else keep_if_not_found session_id (sender, dkg_round1 session_id bytes)
          (dkg_handle_round1_message session_id bytes sender s)
  handle_dkg_message now sender (dkg_round2 session_id bytes recipient) s =
      if not (session_exists session_id s)
      then replied s none
      else if is_session_timed_out now session_id s
      then replied s none
      else keep_if_early session_id (sender, dkg_round2 session_id bytes recipient)
          (dkg_handle_round2_message frost (dkg_verify_and_complete frost fuel session_id)
            session_id bytes recipient sender s)
  handle_dkg_message now sender (signing_commitment id bytes) s = replied s none
  handle_dkg_message now sender (signing_package id bytes) s = replied s none
  handle_dkg_message now sender (signing_share id bytes) s = replied s none
  handle_dkg_message now sender (other_message bytes) s = replied s none
