-- ===== src/Engine/Tests/Worker.antt =====
-- The worker of a node at a small storage.
use uomi_node.Prelude.{ℕ, false, some, ◌≡◌, ◌⊎◌, refl, [], ◌∷◌, arith, ok}
use uomi_node.Prelude.Key.{nat_key, pair_key}
use uomi_node.Prelude.Lists.{take}
use uomi_node.Prelude.Map.{lookup, iter_prefix, keys, or_default}
use uomi_node.Engine.{Storage, default_input, empty_storage}
use uomi_node.Engine.Run.{max_inputs_managed_per_block, as_u32}
use uomi_node.Engine.Tests.{chain}
use uomi_node.Engine.Worker.{
  Node, returned, output, Host, assigned_requests, sort_requests,
  offchain_find_request_with_min_expiration_block_number, offchain_detect_opoc_level,
  offchain_run_wasm, offchain_store_output_data, offchain_run_agents,
}
use uomi_node.Engine.Worker.Next.{
  IsNext, is_pending, is_unanswered, expiration_of, find_request-IsNext,
}
use uomi_node.Engine.Worker.Answer.{Ends, NeverPanics, offchain_run_agents-Ends}

-- Three requests are assigned to account 11, which has answered the second.
abbrev waiting : Storage
waiting = record empty_storage {
  inputs =
      (4, record default_input { nft_execution_max_time = 10 })
      ∷ (5, record default_input { nft_execution_max_time = 10 })
      ∷ (6, record default_input { nft_execution_max_time = 2 })
      ∷ [];
  opoc_assignment = ((4, 11), 2000020) ∷ ((5, 11), 2000001) ∷ ((6, 11), 2000030) ∷ [];
  nodes_outputs = ((5, 11), []) ∷ [];
}

abbrev node : Node
node = record { semaphore = false; accounts = 11 ∷ []; sent = [] }

-- Every agent gives its level and its time in milliseconds.
abbrev host : Host
host = record {
  get_file = λ cid. some [];
  execute = λ wasm input level r time. ok (level ∷ time ∷ []);
}

host_never : NeverPanics host
host_never wasm input level r time e = cc

next_is_4 : offchain_find_request_with_min_expiration_block_number 11 waiting ≡ (4, 2000020)
unfolding offchain_find_request_with_min_expiration_block_number sort_requests assigned_requests
    lookup
next_is_4 = refl

find_request-IsNext_example :
    (let requests = keys (take max_inputs_managed_per_block waiting.inputs) in
      let r = offchain_find_request_with_min_expiration_block_number 11 waiting in
      (((q : ℕ)
          → is_pending (is_unanswered 11 waiting) (expiration_of 11 waiting) requests q ≡ false)
        × (r ≡ (0, 0)))
      ⊎ IsNext (is_unanswered 11 waiting) (expiration_of 11 waiting) requests r)
find_request-IsNext_example = find_request-IsNext 11 waiting

offchain_run_agents-Ends_example :
    (let (r, expiration) = offchain_find_request_with_min_expiration_block_number 11 waiting in
      Ends host r
        (or_default (lookup r waiting.inputs) default_input)
        expiration
        chain.current_block_number
        node
        (offchain_run_agents host chain waiting 11 node))
unfolding offchain_find_request_with_min_expiration_block_number sort_requests assigned_requests
    lookup
offchain_run_agents-Ends_example =
    offchain_run_agents-Ends host chain waiting 11 node refl (omega arith) host_never

-- Request 4 is answered with 7 blocks of time.
answered :
    offchain_run_agents host chain waiting 11 node
    ≡ returned (record node { sent = output 11 4 (0 ∷ 21000 ∷ []) ∷ [] })
unfolding offchain_run_agents offchain_find_request_with_min_expiration_block_number sort_requests
    assigned_requests lookup offchain_detect_opoc_level as_u32 offchain_run_wasm
    offchain_store_output_data iter_prefix
answered = refl
