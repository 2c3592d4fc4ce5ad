-- ===== src/Client/Signing/Created.antt =====
-- client/tss/src/lib.rs, `SessionManager`: the start of a signing session, `signing_handle_session_created`.
use uomi_node.Prelude.{
  ℕ, ◌+◌, ◌^◌, Option, none, some, List, [], ◌∷◌, Outcome, ok, err, panic, ◌>>=◌, ltb,
  if◌then◌else◌,
}
use uomi_node.Prelude.Key.{nat_key, pair_key, bytes_key, ◌=?◌}
use uomi_node.Prelude.Map.{Map, put}
use uomi_node.Client.{
  Bytes, SessionId, TssPublic, Identifier, signing_round1_initiated, signing_round1_completed,
  signing_commitment, SessionManagerError, FrostSigning, Manager, Reply, replied, panicked,
}
use uomi_node.Client.Peers.{get_peer_id_from_account_id}
use uomi_node.Client.Signing.{set_signing_state, send, get_key_package}

-- The places of the participants, from `i + 1` on; the number is one of 16 bits.
unfoldable pub number_participants :
    ℕ
    → List TssPublic
    → Map Identifier TssPublic
    → Outcome SessionManagerError (Map Identifier TssPublic)
number_participants i [] numbered = ok numbered
number_participants i (account ∷ rest) numbered = do
  place ← if ltb (i + 1) (2 ^ 16) then ok (i + 1) else panic
  number_participants (i + 1) rest (put place account numbered)

-- `index`: the last place of this node
unfoldable pub last_index_of : TssPublic → ℕ → List TssPublic → Option ℕ → Option ℕ
last_index_of account i [] index = index
last_index_of account i (participant ∷ rest) index =
    last_index_of account (i + 1) rest (if participant =? account then some i else index)

module _ (frost : FrostSigning) where
  -- From the commitments that the draw gives on: they go to the coordinator, if its peer is known.
  unfoldable pub commit_to : SessionId → TssPublic → Bytes × Bytes → Manager → Manager
  commit_to session_id coordinator (drawn_nonces, drawn_commitments) s =
      let started =
        set_signing_state session_id signing_round1_initiated
          (record s { nonces = put session_id drawn_nonces s.nonces }) in
      elim (get_peer_id_from_account_id coordinator started) [
        | none ↦ started
        | some peer_id ↦
            set_signing_state session_id signing_round1_completed
              (send peer_id (signing_commitment session_id drawn_commitments) started)
      ]

  -- What follows the numbering of the participants, for a node at the place `index`
  unfoldable pub start_signing :
      ℕ → SessionId → TssPublic → Map Identifier TssPublic → ℕ → Manager → Reply
  start_signing draw session_id coordinator numbered index s =
      let entered = record s {
        sessions_participants = put session_id numbered s.sessions_participants;
      } in
      elim (get_key_package frost session_id (index + 1) entered) [
        | panic ↦ panicked
        | err e ↦ replied entered none
        | ok key ↦ elim (frost.commit draw key) [
          | none ↦ panicked
          | some drawn ↦ replied (commit_to session_id coordinator drawn entered) none
        ]
      ]

  unfoldable pub signing_handle_session_created :
      ℕ → SessionId → List TssPublic → TssPublic → Manager → Reply
  signing_handle_session_created draw session_id participants coordinator s =
      elim (number_participants 0 participants []) [
        | panic ↦ panicked
        | err e ↦ panicked
        | ok numbered ↦ elim (last_index_of s.validator_key 0 participants none) [
          | none ↦ replied s none
          | some index ↦ start_signing draw session_id coordinator numbered index s
        ]
      ]
