-- ===== src/Engine/Worker/Answer.antt =====
-- What a run of the worker sends, and how it leaves the semaphore.
use uomi_node.Prelude.{
  ◌-◌, ◌*◌, ◌≤◌, ℕ, ◌^◌, ◌<◌, Bool, true, false, Option, none, some, ◌≡◌, ◌≢◌, ◌⊎◌, zero, suc, refl,
  sym, subst, inl, inr, [], ◌++◌, arith, Outcome, ok, err, panic, ltb, ◌==◌, if◌then◌else◌,
  Bool-cases,
}
use uomi_node.Prelude.Key.{nat_key, pair_key}
use uomi_node.Prelude.Lists.{length}
use uomi_node.Prelude.Map.{lookup, or_default, iter_prefix}
use uomi_node.Engine.{
  AccountId, RequestId, BlockNumber, Data, EngineError, Input, default_input, Chain, Storage,
  worker_error,
}
use uomi_node.Engine.Run.{as_u32}
use uomi_node.Engine.Worker.{
  Node, Run, returned, panicked, Host, outputs_of,
  offchain_find_request_with_min_expiration_block_number, offchain_detect_opoc_level,
  offchain_store_output_data, offchain_run_wasm, answer_with, run_agent, offchain_run_agents,
  block_time,
}

-- A run that has answered request `r`, where 0 is none: the semaphore is free, and every account of the
-- node has sent one output for it.
pub record IsAnswered (r : RequestId) (node : Node) (run : Run) : Type 0 where
  pub after : Node
  pub ends : run ≡ returned after
  pub free : after.semaphore ≡ false
  pub same_accounts : after.accounts ≡ node.accounts
  pub idle : r ≡ 0 → after.sent ≡ node.sent
  pub answers : r ≢ 0 → (d : Data) × (after.sent ≡ node.sent ++ outputs_of r d node.accounts)

module _ (host : Host) where
  answer_with-IsAnswered :
      (r : RequestId) (o : Outcome EngineError Data) (node : Node)
      → r ≢ 0
      → o ≢ panic
      → IsAnswered r node (answer_with host r o (record node { semaphore = true }))
  unfolding offchain_store_output_data
  answer_with-IsAnswered r (ok d) node some_request ends = record {
    after = record node { semaphore = false; sent = node.sent ++ outputs_of r d node.accounts };
    ends = refl;
    free = refl;
    same_accounts = refl;
    idle = λ e. absurd (some_request e);
    answers = λ n. (d, refl);
  }
  answer_with-IsAnswered r (err e) node some_request ends = record {
    after = record node { semaphore = false; sent = node.sent ++ outputs_of r [] node.accounts };
    ends = refl;
    free = refl;
    same_accounts = refl;
    idle = λ e. absurd (some_request e);
    answers = λ n. ([], refl);
  }
  answer_with-IsAnswered r panic node some_request ends = absurd (ends refl)

  -- The execution does not panic of itself.
  abbrev pub NeverPanics : Type 0
  NeverPanics =
      (wasm : Data) (input : Input) (level : ℕ) (r : RequestId) (time : ℕ)
      → host.execute wasm input level r time ≢ panic

  -- The blocks that an execution gets
  abbrev pub fewer : ℕ → ℕ → ℕ
  fewer most blocks = if ltb most blocks then most else blocks

  -- Either the request allows fewer than 3 blocks, or the time until it expires, in seconds, passes 256
  -- bits, and so does the time that the request allows.
  abbrev pub NoTime : Input → BlockNumber → BlockNumber → Type 0
  NoTime input expiration current =
      (input.nft_execution_max_time < 3)
      ⊎ ((2 ^ 256 ≤ (input.nft_execution_max_time - 3) * block_time)
          × (2 ^ 256 ≤ (expiration - current) * block_time))

  offchain_run_wasm-cases :
      (c : Chain) (wasm : Data) (input : Input) (expiration : BlockNumber) (level : ℕ)
      (r : RequestId)
      → NeverPanics
      → (offchain_run_wasm host c wasm input expiration level r ≢ panic)
        ⊎ (NoTime input expiration c.current_block_number
            × (offchain_run_wasm host c wasm input expiration level r ≡ panic))
  unfolding offchain_run_wasm
  offchain_run_wasm-cases c wasm input expiration level r never =
      elim (Bool-cases (ltb input.nft_execution_max_time 3)) [
        | inl short ↦ inr (inl (ground (arith, short)), rw short refl)
        | inr long ↦ rw long (elim (Bool-cases (ltb expiration c.current_block_number)) [
          | inl late ↦ inl (rw late (λ e. cc))
          | inr due ↦
              let blocks =
                fewer (input.nft_execution_max_time - 3) (expiration - c.current_block_number) in
              elim (Bool-cases (ltb (blocks * block_time) (2 ^ 256))) [
                | inl fits ↦ inl (rw (due, fits) (never wasm input level r _))
                | inr over ↦
                    inr (inr (ground (arith, over), ground (arith, over)), rw (due, over) refl)
              ]
        ])
      ]

  level-ok :
      (r : RequestId) (consensus : ℕ) (s : Storage)
      → consensus < 2 ^ 32
      → (level : ℕ) × (offchain_detect_opoc_level r consensus s ≡ ok level)
  unfolding offchain_detect_opoc_level as_u32
  level-ok r consensus s small =
      let count = length (iter_prefix r s.opoc_assignment) in
      (
        if count == 0 then 0 else if count == 1 then 0 else if count == consensus then 1 else 2,
        ground (arith),
      )

  -- The two ends of a run that answers.
  abbrev pub Ends : RequestId → Input → BlockNumber → BlockNumber → Node → Run → Type 0
  Ends r input expiration current node run =
      IsAnswered r node run
      ⊎ (NoTime input expiration current × (run ≡ panicked (record node { semaphore = true })))

  run_agent-Ends :
      (c : Chain) (r : RequestId) (input : Input) (expiration : BlockNumber) (level : ℕ)
      (node : Node)
      → r ≢ 0
      → NeverPanics
      → Ends r input expiration c.current_block_number node
          (run_agent host c r input expiration (ok level) (record node { semaphore = true }))
  run_agent-Ends c r input expiration level node some_request never =
      of_file (host.get_file input.nft_file_cid)
    where
      of_file :
          (file : Option Data)
          → Ends r input expiration c.current_block_number node (elim file [
            | none ↦ answer_with host r (err worker_error) (record node { semaphore = true })
            | some wasm ↦
                answer_with host r
                  (offchain_run_wasm host c wasm input expiration level r)
                  (record node { semaphore = true })
          ])
      of_file none = inl (answer_with-IsAnswered r (err worker_error) node some_request (λ e. cc))
      of_file (some wasm) = elim (offchain_run_wasm-cases c wasm input expiration level r never) [
        | inl ends ↦ inl (answer_with-IsAnswered r _ node some_request ends)
        | inr (short, panics) ↦ inr (short, rw panics refl)
      ]

  if_not : (b : Bool) (x y : Run) → b ≡ false → (if b then x else y) ≡ y
  if_not false x y e = refl
  if_not true x y e = cc

  next-Ends :
      (c : Chain) (s : Storage) (r : RequestId) (expiration : BlockNumber) (input : Input)
      (node : Node)
      → input.nft_required_consensus < 2 ^ 32
      → NeverPanics
      → Ends r input expiration c.current_block_number node (
          if r == 0
          then returned (record node { semaphore = false })
          else run_agent host c r input expiration
              (offchain_detect_opoc_level r input.nft_required_consensus s)
              (record node { semaphore = true }))
  next-Ends c s zero expiration input node small never = inl (record {
    after = record node { semaphore = false };
    ends = refl;
    free = refl;
    same_accounts = refl;
    idle = λ e. refl;
    answers = λ n. absurd (n refl);
  })
  next-Ends c s (suc r) expiration input node small never =
      let (level, e) = level-ok (suc r) input.nft_required_consensus s small in
      subst (Ends (suc r) input expiration c.current_block_number node)
        (sym (if_not (suc r == 0) _ _ (ground (arith))))
        (rw e (run_agent-Ends c (suc r) input expiration level node (λ z. ground (arith, z)) never))

  -- Where the semaphore is free, the required consensus of the next request fits 32 bits and the
  -- execution does not panic of itself, a run sends one output of every account for the next request,
  -- and nothing if there is none, and leaves the semaphore free; or the request allows fewer than 3
  -- blocks, or both the time it allows less 3 blocks and the time until it expires pass 256 bits in
  -- seconds, and the run panics and leaves the semaphore taken.
  pub offchain_run_agents-Ends :
      (c : Chain) (s : Storage) (account : AccountId) (node : Node)
      → node.semaphore ≡ false
      → (let r = (offchain_find_request_with_min_expiration_block_number account s).0 in
          let input = or_default (lookup r s.inputs) default_input in
          input.nft_required_consensus < 2 ^ 32)
      → NeverPanics
      → (let (r, expiration) = offchain_find_request_with_min_expiration_block_number account s in
          Ends r
            (or_default (lookup r s.inputs) default_input)
            expiration
            c.current_block_number
            node
            (offchain_run_agents host c s account node))
  unfolding offchain_run_agents
  offchain_run_agents-Ends c s account node idle small never =
      let (r, expiration) = offchain_find_request_with_min_expiration_block_number account s in
      let input = or_default (lookup r s.inputs) default_input in
      subst (Ends r input expiration c.current_block_number node)
        (sym (if_not node.semaphore _ _ idle)) (next-Ends c s r expiration input node small never)
