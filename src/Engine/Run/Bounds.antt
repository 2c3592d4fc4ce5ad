-- ===== src/Engine/Run/Bounds.antt =====
-- A request that requires more than 32 bits of consensus, in a run.
use uomi_node.Prelude.{
  ◌≤◌, ◌^◌, false, ltb, ◌≡◌, ◌≢◌, refl, sym, ap, ◌∙◌, [], ◌∷◌, ◌++◌, arith, Outcome, ok, err, panic,
  ◌>>=◌,
}
use uomi_node.Prelude.Lists.{take}
use uomi_node.Prelude.Map.{Map}
use uomi_node.Engine.{
  RequestId, BlockNumber, EngineError, Input, Chain, Storage, Operations, no_operations,
}
use uomi_node.Engine.Run.{as_u32, run_input, run_inputs, opoc_run, max_inputs_managed_per_block}

-- The operations so far are lost.
abbrev pub lost : Outcome EngineError Operations → Outcome EngineError Operations
lost m = m >>= λ ops. panic

lost-bind :
    (m : Outcome EngineError Operations) (f g : Operations → Outcome EngineError Operations)
    → ((ops : Operations) → f ops ≡ lost (g ops))
    → (m >>= f) ≡ lost (m >>= g)
lost-bind (ok ops) f g h = h ops
lost-bind (err e) f g h = refl
lost-bind panic f g h = refl

module _ (c : Chain) (s : Storage) (current : BlockNumber) (r : RequestId) (input : Input)
    (rest : Map RequestId Input) (large : 2 ^ 32 ≤ input.nft_required_consensus) where
  run_input-large : (ops : Operations) → run_input c s current r input ops ≡ panic
  unfolding run_input as_u32
  run_input-large ops =
      let over : ltb input.nft_required_consensus (2 ^ 32) ≡ false = ground (arith, large) in
      rw over refl

  run_inputs-stops :
      (before : Map RequestId Input) (ops : Operations)
      → run_inputs c s current (before ++ (r, input) ∷ rest) ops
        ≡ lost (run_inputs c s current before ops)
  unfolding run_inputs
  run_inputs-stops [] ops = rw (run_input-large ops) refl
  run_inputs-stops ((q, first) ∷ before) ops =
      lost-bind (run_input c s current q first ops) _ _ (λ mid. run_inputs-stops before mid)

-- Where one of the first 100 pending requests requires a consensus of 2 ^ 32 or more, a run does what the
-- requests before that one do, and then panics: it never gives operations, and those of the requests
-- before are lost.
pub opoc_run-stops :
    (c : Chain) (s : Storage) (current : BlockNumber) (before rest : Map RequestId Input)
    (r : RequestId) (input : Input)
    → take max_inputs_managed_per_block s.inputs ≡ before ++ (r, input) ∷ rest
    → 2 ^ 32 ≤ input.nft_required_consensus
    → (opoc_run c s current ≡ lost (run_inputs c s current before no_operations))
      × ((ops : Operations) → opoc_run c s current ≢ ok ops)
unfolding opoc_run
opoc_run-stops c s current before rest r input split large =
    let stops =
      ap (λ m. run_inputs c s current m no_operations) split
      ∙ run_inputs-stops c s current r input rest large before no_operations in
    (stops, λ ops e. lost-never (run_inputs c s current before no_operations) ops (sym stops ∙ e))
  where
    lost-never : (m : Outcome EngineError Operations) (ops : Operations) → lost m ≢ ok ops
    lost-never (ok mid) ops e = cc
    lost-never (err x) ops e = cc
    lost-never panic ops e = cc
