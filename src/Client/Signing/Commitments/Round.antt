-- ===== src/Client/Signing/Commitments/Round.antt =====
-- Round 1 of signing at the coordinator: when it ends, and what is sent then.
use uomi_node.Prelude.{
  ℕ, ◌^◌, Bool, true, false, not, ◌&&◌, Option, none, some, ◌≡◌, refl, ap, ◌∙◌, sym, List, [], ◌∷◌,
  ◌++◌, ok, ltb, if◌then◌else◌,
}
use mathlib.Core.List.{append_assoc, append-nil}
use uomi_node.Prelude.Key.{nat_key, bytes_key}
use uomi_node.Prelude.Lists.{length}
use uomi_node.Prelude.Map.{Map, lookup, put, keys, lookup-put_same}
use uomi_node.Client.{
  Bytes, SessionId, TssPublic, PeerId, Identifier, SigningSessionState, signing_round2_initiated,
  signing_round2_completed, TssMessage, signing_package, FrostSigning, Manager, Reply, replied,
}
use uomi_node.Client.Dkg.{fetch, log_error}
use uomi_node.Client.Peers.{
  get_peer_id_from_account_id, get_peer_id_from_identifier, get_identifier_from_peer_id,
}
use uomi_node.Client.Sessions.{is_coordinator, get_session_data, is_session_timed_out}
use uomi_node.Client.Signing.{set_signing_state, store_commitment}
use uomi_node.Client.Signing.Commitments.{
  send_if, send_to_committed, signing_send_signing_package_to_committed_participants,
  start_signing_round2, signing_handle_verification_to_complete_round1, is_past_round2,
  signing_handle_commitment,
}

abbrev pub prepend : Option PeerId → List PeerId → List PeerId
prepend none peers = peers
prepend (some peer_id) peers = peer_id ∷ peers

-- The peers of the identifiers that have one.
unfoldable pub peers_of : SessionId → List Identifier → Manager → List PeerId
peers_of session_id [] s = []
peers_of session_id (identifier ∷ rest) s =
    prepend (get_peer_id_from_identifier session_id identifier s) (peers_of session_id rest s)

abbrev pub packages_to : SessionId → Bytes → List PeerId → List (PeerId × TssMessage)
packages_to session_id p [] = []
packages_to session_id p (peer_id ∷ rest) =
    (peer_id, signing_package session_id p) ∷ packages_to session_id p rest

peers_of-same :
    (session_id : SessionId) (ids : List Identifier) (s : Manager)
    (out : List (PeerId × TssMessage)) (states : Map SessionId SigningSessionState)
    (packages : Map SessionId Bytes) (received : Map SessionId (Map Identifier Bytes))
    → peers_of session_id ids (record s {
      sent = out;
      signing_session_states = states;
      signing_packages = packages;
      commitments = received;
    })
      ≡ peers_of session_id ids s
unfolding peers_of get_peer_id_from_identifier get_peer_id_from_account_id
peers_of-same session_id [] s out states packages received = refl
peers_of-same session_id (identifier ∷ rest) s out states packages received =
    ap (prepend (get_peer_id_from_identifier session_id identifier s))
      (peers_of-same session_id rest s out states packages received)

send_if-sent :
    (session_id : SessionId) (p : Bytes) (rest : List Identifier) (o : Option PeerId) (s : Manager)
    → ((s : Manager)
        → send_to_committed session_id p rest s
          ≡ record s { sent = s.sent ++ packages_to session_id p (peers_of session_id rest s) })
    → send_to_committed session_id p rest (send_if session_id p o s) ≡ record s {
      sent = s.sent ++ packages_to session_id p (prepend o (peers_of session_id rest s));
    }
send_if-sent session_id p rest none s loop = loop s
send_if-sent session_id p rest (some peer_id) s loop =
    loop _
    ∙ ap (λ out. record s { sent = out })
        (ap
            (λ peers.
              (s.sent ++ (peer_id, signing_package session_id p) ∷ [])
              ++ packages_to session_id p peers)
            (peers_of-same session_id rest s _ _ _ _)
          ∙ append_assoc s.sent _ _)

send_to_committed-sent :
    (session_id : SessionId) (p : Bytes) (ids : List Identifier) (s : Manager)
    → send_to_committed session_id p ids s
      ≡ record s { sent = s.sent ++ packages_to session_id p (peers_of session_id ids s) }
unfolding send_to_committed peers_of
send_to_committed-sent session_id p [] s =
    ap (λ out. record s { sent = out }) (sym (append-nil s.sent))
send_to_committed-sent session_id p (identifier ∷ rest) s =
    send_if-sent session_id p rest (get_peer_id_from_identifier session_id identifier s) s
      (λ u. send_to_committed-sent session_id p rest u)

-- What follows the storing of the commitments: a state that is kept, or the start of round 2, which
-- stores the package and sends it to every peer that has committed.
pub record IsStarted (session_id : SessionId) (p : Bytes) (committed : List Identifier)
    (s s' : Manager) : Type 0 where
  pub sent : s'.sent ≡ s.sent ++ packages_to session_id p (peers_of session_id committed s)
  pub stored : lookup session_id s'.signing_packages ≡ some p
  pub state : lookup session_id s'.signing_session_states ≡ some signing_round2_completed
  pub commitments : s'.commitments ≡ s.commitments

start_signing_round2-IsStarted :
    (session_id : SessionId) (p : Bytes) (committed : List Identifier) (s : Manager)
    → IsStarted session_id p committed s (
        signing_send_signing_package_to_committed_participants session_id p committed
          (record (set_signing_state session_id signing_round2_initiated s) {
            signing_packages = put session_id p s.signing_packages;
          }))
unfolding signing_send_signing_package_to_committed_participants set_signing_state
start_signing_round2-IsStarted session_id p committed s =
    rw
      (send_to_committed-sent session_id p committed (record s {
        signing_session_states = put session_id signing_round2_initiated s.signing_session_states;
        signing_packages = put session_id p s.signing_packages;
      }))
      record {
        sent =
            ap (λ peers. s.sent ++ packages_to session_id p peers)
              (peers_of-same session_id committed s _ _ _ _);
        stored = lookup-put_same session_id p s.signing_packages;
        state = lookup-put_same session_id signing_round2_completed _;
        commitments = refl;
      }

-- The state after the commitments are stored: round 2 is started, or nothing more is done.
abbrev pub Round2 : Bool → SessionId → Bytes → List Identifier → Manager → Manager → Type 0
Round2 true session_id p committed s s' = IsStarted session_id p committed s s'
Round2 false session_id p committed s s' = s' ≡ s

module _ (frost : FrostSigning) (now : ℕ) (session_id : SessionId) where
  -- A package of the commitments stored in a session can be made.
  pub record CanStart (p : Bytes) (cs : Map Identifier Bytes) (t : ℕ) (s : Manager) : Type 0 where
    pub n : ℕ
    pub coordinator : TssPublic
    pub message : Bytes
    pub fetched : fetch frost.is_commitment session_id s.commitments ≡ some cs
    pub has_data : lookup session_id s.sessions_data ≡ some (t, n, coordinator, message)
    pub bounded : ltb (length cs) (2 ^ 16) ≡ true
    pub made : frost.new_package cs message ≡ some p

  abbrev started : Bytes → Map Identifier Bytes → Manager → Manager
  started p cs s =
      signing_send_signing_package_to_committed_participants session_id p (keys cs)
        (record (set_signing_state session_id signing_round2_initiated s) {
          signing_packages = put session_id p s.signing_packages;
        })

  start_signing_round2-started :
      (p message : Bytes) (cs : Map Identifier Bytes) (s : Manager)
      → frost.new_package cs message ≡ some p
      → start_signing_round2 frost session_id message cs s ≡ replied (started p cs s) none
  unfolding start_signing_round2 set_signing_state
  start_signing_round2-started p message cs s made = rw (made, start_signing_round2) refl

  verification-started :
      (p : Bytes) (cs : Map Identifier Bytes) (t : ℕ) (s : Manager)
      → CanStart p cs t s
      → signing_handle_verification_to_complete_round1 frost session_id s
        ≡ (if ltb (length cs) t then replied s none else replied (started p cs s) none)
  unfolding signing_handle_verification_to_complete_round1
  verification-started p cs t s c =
      rw (c.fetched, signing_handle_verification_to_complete_round1, c.has_data, c.bounded)
        (ap (λ r. if ltb (length cs) t then replied s none else r)
          (start_signing_round2-started p c.message cs s c.made))

  decided :
      (past coordinates few : Bool) (p : Bytes) (committed : List Identifier) (s u : Manager)
      (r : Reply)
      → IsStarted session_id p committed s u
      → r ≡ (if few then replied s none else replied u none)
      → (s' : Manager) × ((if past
            then replied s none
            else if coordinates
            then log_error r
            else replied s none)
          ≡ replied s' none)
        × Round2 (not past && (coordinates && not few)) session_id p committed s s'
  decided true coordinates few p committed s u r i e = (s, refl, refl)
  decided false false few p committed s u r i e = (s, refl, refl)
  decided false true true p committed s u r i e = (s, ap log_error e, refl)
  decided false true false p committed s u r i e = (u, ap log_error e, i)

  -- Commitments from a peer with an identifier are stored. Where those stored then deserialize and a
  -- package can be made of them: if this node is the coordinator, the session is not past round 2 and
  -- has at least `t` commitments, the package is stored, is sent to every peer that has committed, and
  -- the state is that of round 2 completed; otherwise nothing more is done.
  pub signing_handle_commitment-Round2 :
      (bytes p : Bytes) (cs : Map Identifier Bytes) (t : ℕ) (sender : PeerId)
      (identifier : Identifier) (s : Manager)
      → get_identifier_from_peer_id session_id sender s ≡ ok (some identifier)
      → CanStart p cs t (store_commitment session_id identifier bytes s)
      → let stored = store_commitment session_id identifier bytes s in
        (s' : Manager) × (signing_handle_commitment frost now session_id bytes sender s
          ≡ replied s' none)
        × Round2
            (not (is_past_round2 (lookup session_id s.signing_session_states))
              && (is_coordinator now session_id s && not (ltb (length cs) t)))
            session_id
            p
            (keys cs)
            stored
            s'
  unfolding signing_handle_commitment store_commitment is_coordinator get_session_data
      is_session_timed_out
  signing_handle_commitment-Round2 bytes p cs t sender identifier s identified c =
      let stored = store_commitment session_id identifier bytes s in
      rw identified (
        decided (is_past_round2 (lookup session_id s.signing_session_states))
          (is_coordinator now session_id s) (ltb (length cs) t) p (keys cs) stored
          (started p cs stored) _ (start_signing_round2-IsStarted session_id p (keys cs) stored)
          (verification-started p cs t stored c))
