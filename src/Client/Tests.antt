-- ===== src/Client/Tests.antt =====
-- client/tss: sessions of a small manager.
mod Signing
mod Runtime
use uomi_node.Prelude.{true, none, some, ◌≡◌, refl, [], ◌∷◌, arith, if◌then◌else◌}
use uomi_node.Prelude.Key.{nat_key, bytes_key}
use uomi_node.Prelude.Map.{lookup, put}
use uomi_node.Client.{
  Frost, Manager, replied, unfinished, round1_initiated, round1_completed, round2_initiated,
  key_generated, dkg_round2,
}
use uomi_node.Client.Peers.{
  get_identifier_from_peer_id, get_identifier_from_account_id, get_validator_id,
}
use uomi_node.Client.Sessions.{is_session_timed_out, cleanup_expired_sessions}
use uomi_node.Client.Sessions.Cleanup.{IsCleaned, cleanup_expired_sessions-IsCleaned}
use uomi_node.Client.Dkg.{
  current_state, buffered, complete_now, dkg_verify_and_complete, fetch, finish, set_state,
  handle_buffered, dkg_process_buffer_for_round2,
}
use uomi_node.Client.Dkg.Handled.{IdsPositive, any_handled}
use uomi_node.Client.Dkg.Rounds.{dkg_verify_and_start_round2}
use uomi_node.Client.Dkg.Early.{dkg_verify_and_start_round2_endless}
use uomi_node.Client.Dkg.Endless.{entered, dkg_verify_and_complete_decided}

-- A library in which all bytes are packages, of sessions of two.
abbrev library : Frost
library = record {
  part1 = λ t n identifier. some (1 ∷ [], 2 ∷ []);
  part2 = λ secret packages. some (3 ∷ [], []);
  part3 = λ secret round1 round2. some (4 ∷ [], 5 ∷ []);
  is_round1_package = λ bytes. true;
  is_round2_package = λ bytes. true;
  max_signers = λ secret. 2;
}

-- This node is validator 1. The other one, peer 20, has sent a message of round 2 early.
abbrev pub manager : Manager
manager = record {
  round1_secret = (1, 2 ∷ []) ∷ [];
  round2_secret = (1, 3 ∷ []) ∷ [];
  round1_packages = (1, (2, 6 ∷ []) ∷ []) ∷ [];
  round2_packages = (1, (2, 7 ∷ []) ∷ []) ∷ [];
  nonces = [];
  commitments = [];
  signing_packages = [];
  signature_shares = [];
  keys = [];
  sessions_participants = [];
  sessions_participants_u16 = [];
  sessions_data = (1, (2, 2, [], [])) ∷ (3, (2, 2, [], [])) ∷ [];
  dkg_session_states = (1, round2_initiated) ∷ (3, round1_completed) ∷ [];
  signing_session_states = [];
  session_timestamps = (1, 9000) ∷ (3, 100) ∷ [];
  buffer = (1, (20 ∷ [], dkg_round2 1 (7 ∷ []) (10 ∷ [])) ∷ []) ∷ [];
  peers = (20 ∷ [], 22 ∷ []) ∷ [];
  validator_ids = (11 ∷ [], 1) ∷ (22 ∷ [], 2) ∷ [];
  validator_key = 11 ∷ [];
  local_peer_id = 10 ∷ [];
  sent = [];
}

numbered_from_1 : IdsPositive manager
unfolding lookup
numbered_from_1 account = ground (arith)

dkg_verify_and_complete_decided_example : dkg_verify_and_complete library 5 1 manager ≡ (
    if any_handled library 1 manager (buffered 1 manager)
    then unfinished
    else complete_now library 1 (entered library 1 manager))
dkg_verify_and_complete_decided_example =
    dkg_verify_and_complete_decided library 1 4 manager numbered_from_1

-- Without the message the key is there.
key_there :
    dkg_verify_and_complete library 1 1 (record manager { buffer = [] })
    ≡ replied
        (record manager {
          buffer = (1, []) ∷ [];
          keys = ((1, 1), (4 ∷ [], 5 ∷ [])) ∷ [];
          dkg_session_states = (1, key_generated) ∷ (3, round1_completed) ∷ [];
        })
        none
unfolding dkg_verify_and_complete dkg_process_buffer_for_round2 handle_buffered buffered
    complete_now fetch finish set_state get_identifier_from_account_id get_validator_id lookup put
key_there = refl

cleanup_expired_sessions-IsCleaned_example :
    IsCleaned
      (is_session_timed_out 10000 3 manager)
      3
      manager
      (cleanup_expired_sessions 10000 manager)
cleanup_expired_sessions-IsCleaned_example =
    cleanup_expired_sessions-IsCleaned 10000 manager 3 (refl, (refl, tt))

-- Peer 20 sends its message of round 2 while this node is in round 1.
abbrev early : Manager
early = record manager { dkg_session_states = (1, round1_initiated) ∷ []; round2_secret = [] }

dkg_verify_and_start_round2_endless_example :
    dkg_verify_and_start_round2 library 5 1 (2 ∷ []) ((2, 6 ∷ []) ∷ []) early ≡ unfinished
unfolding buffered set_state lookup put current_state get_identifier_from_peer_id
    get_identifier_from_account_id get_validator_id
dkg_verify_and_start_round2_endless_example =
    dkg_verify_and_start_round2_endless library 1 5 (2 ∷ []) (3 ∷ []) ((2, 6 ∷ []) ∷ []) [] early
      numbered_from_1 refl refl
