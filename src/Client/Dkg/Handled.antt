-- ===== src/Client/Dkg/Handled.antt =====
-- The messages of round 2 that a node handles, and what the loop over its buffer makes of them.
use uomi_node.Prelude.{
  ℕ, Bool, true, false, not, ◌&&◌, ◌||◌, Option, none, some, ◌≡◌, ◌≢◌, refl, ap, ◌∙◌, List, [], ◌∷◌,
  arith, Outcome, ok, err, panic, ◌>>=◌, ltb, if◌then◌else◌,
}
use uomi_node.Prelude.Key.{nat_key, bytes_key, ◌=?◌}
use uomi_node.Prelude.Map.{lookup}
use uomi_node.Client.{
  Bytes, SessionId, TssPublic, PeerId, Identifier, round2_initiated, TssMessage, dkg_round1,
  dkg_round2, other_message, signing_commitment, signing_package, signing_share,
  SessionManagerError, round2_secret_package_not_yet_available, deserialization_error, Frost,
  Manager, Reply, replied, unfinished,
}
use uomi_node.Client.Peers.{
  to_identifier, u16_or, get_validator_id, get_identifier_from_account_id,
  get_identifier_from_peer_id,
}
use uomi_node.Client.Dkg.{
  rank, current_state, store_round2_packages, with_identifier, and_then, log_error,
  dkg_handle_round2_message, handle_buffered,
}

abbrev pub has_identifier : Outcome SessionManagerError (Option Identifier) → Bool
has_identifier (ok (some identifier)) = true
has_identifier (ok none) = false
has_identifier (err e) = false
has_identifier panic = false

-- Whether the pallet has numbered no validator by 0.
abbrev pub IdsPositive : Manager → Type 0
IdsPositive s = (account : TssPublic) → lookup account s.validator_ids ≢ some 0

module _ (frost : Frost) (session_id : SessionId) where
  -- A message of round 2 that is for this node, from a peer with an identifier, and a package, in a
  -- session that has reached round 2.
  abbrev pub is_handled : Manager → PeerId × TssMessage → Bool
  is_handled s (peer_id, dkg_round2 id bytes recipient) =
      not (ltb (rank (current_state session_id s)) (rank round2_initiated))
      && (s.local_peer_id =? recipient
          && (has_identifier (get_identifier_from_peer_id session_id peer_id s)
              && frost.is_round2_package bytes))
  is_handled s (peer_id, dkg_round1 id bytes) = false
  is_handled s (peer_id, signing_commitment id bytes) = false
  is_handled s (peer_id, signing_package id bytes) = false
  is_handled s (peer_id, signing_share id bytes) = false
  is_handled s (peer_id, other_message bytes) = false

  -- Whether the list has such a message.
  abbrev pub any_handled : Manager → List (PeerId × TssMessage) → Bool
  any_handled s [] = false
  any_handled s (m ∷ rest) = is_handled s m || any_handled s rest

  -- With and without a validator id.
  id-ok :
      (id : Option ℕ) (other : Option Identifier)
      → id ≢ some 0
      → (found : Option Identifier) × ◌≡◌ {A = Outcome SessionManagerError (Option Identifier)}
          (elim id [
            | some id ↦ to_identifier (u16_or id 65535) >>= λ identifier. ok (some identifier)
            | none ↦ ok other
          ])
          (ok found)
  id-ok none other nonzero = (other, refl)
  id-ok (some id) other nonzero =
      (some (u16_or id 65535), positive id (λ zero. nonzero (ap some zero)))
    where
      positive :
          (id : ℕ)
          → id ≢ 0
          → ◌≡◌ {A = Outcome SessionManagerError (Option Identifier)}
              (to_identifier (u16_or id 65535) >>= λ identifier. ok (some identifier))
              (ok (some (u16_or id 65535)))
      positive id nonzero = ground (arith)

  identifier-ok :
      (peer_id : PeerId) (s : Manager)
      → IdsPositive s
      → (found : Option Identifier) × (get_identifier_from_peer_id session_id peer_id s ≡ ok found)
  unfolding get_identifier_from_peer_id get_identifier_from_account_id get_validator_id
  identifier-ok peer_id s positive = of_account (lookup peer_id s.peers)
    where
      of_account :
          (account : Option TssPublic)
          → (found : Option Identifier) × ◌≡◌ {A = Outcome SessionManagerError (Option Identifier)}
              (elim account [
                | some account ↦ get_identifier_from_account_id session_id account s
                | none ↦ ok none
              ])
              (ok found)
      of_account none = (none, refl)
      of_account (some account) =
          unfold get_identifier_from_account_id in
          unfold get_validator_id in id-ok (lookup account s.validator_ids) _ (positive account)

  -- The tests of a message, and what follows.
  tests :
      (early mine valid : Bool) (found : Option Identifier) (s : Manager)
      (handle : Identifier → Reply) (next : Manager → Reply)
      → (not early && (mine && (has_identifier (ok found) && valid)) ≡ true
          → (identifier : Identifier) → handle identifier ≡ unfinished)
      → and_then
          (if early
            then replied s (some round2_secret_package_not_yet_available)
            else if not mine
            then replied s none
            else with_identifier (ok found) s (λ identifier.
              if not valid
              then replied s (some deserialization_error)
              else log_error (handle identifier)))
          next
        ≡ (if not early && (mine && (has_identifier (ok found) && valid))
            then unfinished
            else next s)
  tests true mine valid found s handle next endless = refl
  tests false false valid found s handle next endless = refl
  tests false true valid none s handle next endless = refl
  tests false true false (some i) s handle next endless = refl
  tests false true true (some i) s handle next endless = rw (endless refl i) refl

  -- A message that is handled goes on to `complete`; another one leaves the state as it is.
  handle-handled :
      (complete : Manager → Reply) (s : Manager) (peer_id : PeerId) (id : SessionId) (bytes : Bytes)
      (recipient : PeerId)
      → IdsPositive s
      → (is_handled s (peer_id, dkg_round2 id bytes recipient) ≡ true
          → (identifier : Identifier)
          → complete (store_round2_packages session_id identifier bytes s) ≡ unfinished)
      → (next : Manager → Reply)
      → and_then
          (dkg_handle_round2_message frost complete session_id bytes recipient peer_id s)
          next
        ≡ (if is_handled s (peer_id, dkg_round2 id bytes recipient) then unfinished else next s)
  unfolding dkg_handle_round2_message
  handle-handled complete s peer_id id bytes recipient positive endless next =
      let (found, e) = identifier-ok peer_id s positive in
      rw e (
        tests (ltb (rank (current_state session_id s)) (rank round2_initiated))
          (s.local_peer_id =? recipient) (frost.is_round2_package bytes) found s
          (λ i. complete (store_round2_packages session_id i bytes s)) next
          (λ on. endless (rw e on)))

  pub buffered-handled :
      (complete : Manager → Reply) (s : Manager) (messages : List (PeerId × TssMessage))
      → IdsPositive s
      → (any_handled s messages ≡ true
          → (identifier : Identifier) (bytes : Bytes)
          → complete (store_round2_packages session_id identifier bytes s) ≡ unfinished)
      → handle_buffered frost complete session_id messages s
        ≡ (if any_handled s messages then unfinished else replied s none)
  unfolding handle_buffered
  buffered-handled complete s [] positive endless = refl
  buffered-handled complete s ((peer_id, dkg_round2 id bytes recipient) ∷ rest) positive endless =
      let m = is_handled s (peer_id, dkg_round2 id bytes recipient) in
      handle-handled complete s peer_id id bytes recipient positive
        (λ on i. endless (rw on refl) i bytes) (handle_buffered frost complete session_id rest)
      ∙ either m (any_handled s rest) (handle_buffered frost complete session_id rest s) s
          (buffered-handled complete s rest positive (λ on. endless (ground (arith, on))))
    where
      either :
          (m others : Bool) (r : Reply) (s : Manager)
          → r ≡ (if others then unfinished else replied s none)
          → (if m then unfinished else r) ≡ (if m || others then unfinished else replied s none)
      either true others r s e = refl
      either false others r s e = e
  buffered-handled complete s ((peer_id, dkg_round1 id bytes) ∷ rest) positive endless =
      buffered-handled complete s rest positive endless
  buffered-handled complete s ((peer_id, signing_commitment id bytes) ∷ rest) positive endless =
      buffered-handled complete s rest positive endless
  buffered-handled complete s ((peer_id, signing_package id bytes) ∷ rest) positive endless =
      buffered-handled complete s rest positive endless
  buffered-handled complete s ((peer_id, signing_share id bytes) ∷ rest) positive endless =
      buffered-handled complete s rest positive endless
  buffered-handled complete s ((peer_id, other_message bytes) ∷ rest) positive endless =
      buffered-handled complete s rest positive endless
