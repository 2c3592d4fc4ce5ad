-- ===== src/Client/Dkg/Early.antt =====
-- A message of round 2 that comes before this node has reached round 2.
use uomi_node.Prelude.{
  ℕ, true, ◌||◌, Option, none, some, ◌≡◌, refl, ap, ◌∙◌, List, [], ◌∷◌, ◌++◌, arith, if◌then◌else◌,
  Bool-cases, inl, inr,
}
use uomi_node.Prelude.Key.{nat_key, bytes_key, ◌=?◌}
use uomi_node.Prelude.Map.{Map, lookup, put, or_default, lookup-put}
use uomi_node.Client.{
  Bytes, SessionId, PeerId, Identifier, TssPublic, DkgSessionState, round1_completed,
  round2_initiated, TssMessage, dkg_round1, dkg_round2, other_message, signing_commitment,
  signing_package, signing_share, Frost, Manager, unfinished,
}
use uomi_node.Client.Peers.{
  get_peer_id_from_account_id, get_validator_id, get_identifier_from_account_id,
  get_identifier_from_peer_id,
}
use uomi_node.Client.Dkg.{current_state, set_state, buffered, log_error, dkg_verify_and_complete}
use uomi_node.Client.Dkg.Rounds.{send_packages, dkg_verify_and_start_round2}
use uomi_node.Client.Dkg.Handled.{IdsPositive, is_handled, any_handled}
use uomi_node.Client.Dkg.Endless.{verify_and_complete_endless}

module _ (frost : Frost) (session_id : SessionId) where
  -- Sending changes nothing but what is sent.
  send_only :
      (packages : Map Identifier Bytes) (s : Manager)
      → (sent : List (PeerId × TssMessage)) × (send_packages session_id packages s
          ≡ record s { sent = sent })
  unfolding send_packages
  send_only [] s = (s.sent, refl)
  send_only ((identifier, bytes) ∷ rest) s =
      let (sent, e) =
        send_one (lookup identifier (or_default (lookup session_id s.sessions_participants) [])) in
      let (sent', e') = send_only rest (record s { sent = sent }) in
      (sent', ap (send_packages session_id rest) e ∙ e')
    where
      send_peer :
          (peer : Option PeerId)
          → (sent : List (PeerId × TssMessage)) × (elim peer [
            | none ↦ s
            | some peer_id ↦ record s {
              sent = s.sent ++ (peer_id, dkg_round2 session_id bytes peer_id) ∷ [];
            }
          ]
              ≡ record s { sent = sent })
      send_peer none = (s.sent, refl)
      send_peer (some peer_id) =
          (s.sent ++ (peer_id, dkg_round2 session_id bytes peer_id) ∷ [], refl)

      send_one :
          (account : Option TssPublic)
          → (sent : List (PeerId × TssMessage)) × (elim account [
            | none ↦ s
            | some account ↦
                if account =? s.validator_key
                then s
                else elim (get_peer_id_from_account_id account s) [
                  | none ↦ s
                  | some peer_id ↦ record s {
                    sent = s.sent ++ (peer_id, dkg_round2 session_id bytes peer_id) ∷ [];
                  }
                ]
          ]
              ≡ record s { sent = sent })
      send_one none = (s.sent, refl)
      send_one (some account) = elim (Bool-cases (account =? s.validator_key)) [
        | inl own ↦ (s.sent, rw own refl)
        | inr other ↦ rw other (send_peer (get_peer_id_from_account_id account s))
      ]

  any_handled_state :
      (s : Manager) (states states' : Map SessionId DkgSessionState) (secrets : Map SessionId Bytes)
      (sent : List (PeerId × TssMessage)) (messages : List (PeerId × TssMessage))
      → lookup session_id states ≡ lookup session_id states'
      → any_handled frost session_id
          (record s { dkg_session_states = states; round2_secret = secrets; sent = sent })
          messages
        ≡ any_handled frost session_id (record s { dkg_session_states = states' }) messages
  unfolding current_state get_identifier_from_peer_id get_identifier_from_account_id
      get_validator_id
  any_handled_state s states states' secrets sent [] same = refl
  any_handled_state s states states' secrets sent ((peer_id, dkg_round1 id bytes) ∷ rest) same =
      any_handled_state s states states' secrets sent rest same
  any_handled_state s states states' secrets sent ((peer_id, signing_commitment id bytes) ∷ rest)
        same =
      any_handled_state s states states' secrets sent rest same
  any_handled_state s states states' secrets sent ((peer_id, signing_package id bytes) ∷ rest)
        same =
      any_handled_state s states states' secrets sent rest same
  any_handled_state s states states' secrets sent ((peer_id, signing_share id bytes) ∷ rest) same =
      any_handled_state s states states' secrets sent rest same
  any_handled_state s states states' secrets sent ((peer_id, other_message bytes) ∷ rest) same =
      any_handled_state s states states' secrets sent rest same
  any_handled_state s states states' secrets sent ((peer_id, dkg_round2 id bytes recipient) ∷ rest)
        same =
      rw same (
        ap
          (λ b.
            is_handled frost session_id (record s { dkg_session_states = states' })
              (peer_id, dkg_round2 id bytes recipient)
            || b)
          (any_handled_state s states states' secrets sent rest same))

  -- Where the pallet has given no validator the id 0: if the buffer of a session holds a message of
  -- round 2 that this node handles once it is in round 2, then the start of round 2 does not end,
  -- whatever the bound on the calls.
  pub dkg_verify_and_start_round2_endless :
      (fuel : ℕ) (secret secret2 : Bytes) (packages packages2 : Map Identifier Bytes) (s : Manager)
      → IdsPositive s
      → frost.part2 secret packages ≡ some (secret2, packages2)
      → any_handled frost session_id
          (set_state session_id round2_initiated s)
          (buffered session_id s)
        ≡ true
      → dkg_verify_and_start_round2 frost fuel session_id secret packages s ≡ unfinished
  unfolding dkg_verify_and_start_round2 set_state buffered
  dkg_verify_and_start_round2_endless fuel secret secret2 packages packages2 s positive drawn
        early =
      let started = set_state session_id round1_completed s in
      let (sent, e) = send_only packages2 started in
      let secrets = put session_id secret2 s.round2_secret in
      let states = put session_id round2_initiated started.dkg_session_states in
      let handled =
        any_handled_state s states (put session_id round2_initiated s.dkg_session_states) secrets
          sent (buffered session_id s)
          (ground (
            arith,
            lookup-put session_id session_id round2_initiated started.dkg_session_states,
            lookup-put session_id session_id round2_initiated s.dkg_session_states,
          )) in
      rw (dkg_verify_and_start_round2, drawn)
        (ap
            (λ (t : Manager). log_error (
              dkg_verify_and_complete frost fuel session_id (
                set_state session_id round2_initiated
                  (record t { round2_secret = put session_id secret2 t.round2_secret }))))
            e
          ∙ ap log_error (
              verify_and_complete_endless frost session_id fuel
                (record s { dkg_session_states = states; round2_secret = secrets; sent = sent })
                positive (handled ∙ early)))
