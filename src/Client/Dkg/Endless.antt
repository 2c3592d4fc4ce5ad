-- ===== src/Client/Dkg/Endless.antt =====
-- When the key generation goes round in its own buffer: `dkg_verify_and_complete` handles a copy of the
-- buffered messages, and the handling of a message of round 2 ends with `dkg_verify_and_complete`.
use uomi_node.Prelude.{
  ℕ, zero, suc, Bool, true, false, ◌||◌, none, ◌≡◌, refl, sym, ap, ◌∙◌, List, [], ◌∷◌, arith,
  if◌then◌else◌,
}
use uomi_node.Prelude.Key.{nat_key, bytes_key}
use uomi_node.Prelude.Map.{Map, put, lookup-put}
use uomi_node.Client.{
  Bytes, SessionId, PeerId, Identifier, TssMessage, dkg_round1, dkg_round2, other_message,
  signing_commitment, signing_package, signing_share, Frost, Manager, Reply, replied, unfinished,
}
use uomi_node.Client.Peers.{
  get_validator_id, get_identifier_from_account_id, get_identifier_from_peer_id,
}
use uomi_node.Client.Dkg.{
  current_state, buffered, store_round2_packages, and_then, dkg_process_buffer_for_round2,
  complete_now, dkg_verify_and_complete,
}
use uomi_node.Client.Dkg.Handled.{IdsPositive, is_handled, any_handled, buffered-handled}

module _ (frost : Frost) (session_id : SessionId) where
  -- `buffer.entry(session_id).or_default()`
  abbrev pub entered : Manager → Manager
  entered s = record s { buffer = put session_id (buffered session_id s) s.buffer }

  -- What is handled depends neither on the buffer nor on the packages of round 2.
  any_handled_same :
      (s : Manager) (received : Map SessionId (Map Identifier Bytes))
      (buffer : Map SessionId (List (PeerId × TssMessage))) (messages : List (PeerId × TssMessage))
      → any_handled frost session_id
          (record s { round2_packages = received; buffer = buffer })
          messages
        ≡ any_handled frost session_id s messages
  unfolding current_state get_identifier_from_peer_id get_identifier_from_account_id
      get_validator_id
  any_handled_same s received buffer [] = refl
  any_handled_same s received buffer ((peer_id, dkg_round2 id bytes recipient) ∷ rest) =
      ap (λ b. is_handled frost session_id s (peer_id, dkg_round2 id bytes recipient) || b)
        (any_handled_same s received buffer rest)
  any_handled_same s received buffer ((peer_id, dkg_round1 id bytes) ∷ rest) =
      any_handled_same s received buffer rest
  any_handled_same s received buffer ((peer_id, signing_commitment id bytes) ∷ rest) =
      any_handled_same s received buffer rest
  any_handled_same s received buffer ((peer_id, signing_package id bytes) ∷ rest) =
      any_handled_same s received buffer rest
  any_handled_same s received buffer ((peer_id, signing_share id bytes) ∷ rest) =
      any_handled_same s received buffer rest
  any_handled_same s received buffer ((peer_id, other_message bytes) ∷ rest) =
      any_handled_same s received buffer rest

  buffered-put :
      (s : Manager) (received : Map SessionId (Map Identifier Bytes))
      (messages : List (PeerId × TssMessage))
      → buffered session_id
          (record s { round2_packages = received; buffer = put session_id messages s.buffer })
        ≡ messages
  unfolding buffered
  buffered-put s received messages =
      ground (arith, lookup-put session_id session_id messages s.buffer)

  -- One call, where the calls that it makes do not end if one of the messages is handled.
  verify_and_complete-step :
      (complete : Manager → Reply) (s : Manager)
      → IdsPositive s
      → (any_handled frost session_id s (buffered session_id s) ≡ true
          → (identifier : Identifier) (bytes : Bytes)
          → complete (store_round2_packages session_id identifier bytes (entered s)) ≡ unfinished)
      → and_then
          (dkg_process_buffer_for_round2 frost complete session_id s)
          (complete_now frost session_id)
        ≡ (if any_handled frost session_id s (buffered session_id s)
            then unfinished
            else complete_now frost session_id (entered s))
  unfolding dkg_process_buffer_for_round2
  verify_and_complete-step complete s positive endless =
      let same = any_handled_same s s.round2_packages (entered s).buffer (buffered session_id s) in
      let handled =
        buffered-handled frost session_id complete (entered s) (buffered session_id s) positive
          (λ on. endless (sym same ∙ on)) in
      ap (λ r. and_then r (complete_now frost session_id)) handled
      ∙ ap
          (λ b.
            and_then (if b then unfinished else replied (entered s) none)
              (complete_now frost session_id))
          same
      ∙ branch (any_handled frost session_id s (buffered session_id s))
    where
      branch :
          (b : Bool)
          → and_then
              (if b then unfinished else replied (entered s) none)
              (complete_now frost session_id)
            ≡ (if b then unfinished else complete_now frost session_id (entered s))
      branch true = refl
      branch false = refl

  -- A package that is stored keeps the message in the buffer.
  still_handled :
      (s : Manager) (identifier : Identifier) (bytes : Bytes)
      → any_handled frost session_id s (buffered session_id s) ≡ true
      → (let s' = store_round2_packages session_id identifier bytes (entered s) in
          any_handled frost session_id s' (buffered session_id s'))
        ≡ true
  unfolding store_round2_packages
  still_handled s identifier bytes on =
      let s' = store_round2_packages session_id identifier bytes (entered s) in
      let messages = buffered session_id s in
      ap (any_handled frost session_id s') (buffered-put s s'.round2_packages messages)
      ∙ any_handled_same s s'.round2_packages (entered s).buffer messages
      ∙ on

  pub verify_and_complete_endless :
      (fuel : ℕ) (s : Manager)
      → IdsPositive s
      → any_handled frost session_id s (buffered session_id s) ≡ true
      → dkg_verify_and_complete frost fuel session_id s ≡ unfinished
  unfolding dkg_verify_and_complete store_round2_packages
  verify_and_complete_endless zero s positive on = refl
  verify_and_complete_endless (suc fuel) s positive on =
      verify_and_complete-step (dkg_verify_and_complete frost fuel session_id) s positive
        (λ here i bytes.
          verify_and_complete_endless fuel (store_round2_packages session_id i bytes (entered s))
            positive (still_handled s i bytes here))
      ∙ ap (λ b. if b then unfinished else complete_now frost session_id (entered s)) on

  -- Where the pallet has given no validator the id 0: if the buffer of a session holds a message of
  -- round 2 that this node handles, then `dkg_verify_and_complete` calls itself without end, whatever the
  -- bound on its calls; otherwise it ends, with the answer of its part after the buffer.
  pub dkg_verify_and_complete_decided :
      (fuel : ℕ) (s : Manager)
      → IdsPositive s
      → dkg_verify_and_complete frost (suc fuel) session_id s ≡ (
          if any_handled frost session_id s (buffered session_id s)
          then unfinished
          else complete_now frost session_id (entered s))
  unfolding dkg_verify_and_complete store_round2_packages
  dkg_verify_and_complete_decided fuel s positive =
      verify_and_complete-step (dkg_verify_and_complete frost fuel session_id) s positive
        (λ here i bytes.
          verify_and_complete_endless fuel (store_round2_packages session_id i bytes (entered s))
            positive (still_handled s i bytes here))
