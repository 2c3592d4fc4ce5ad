-- ===== src/Engine/Run/Level2/Check.antt =====
-- What level 2 does with a request, whatever its validators have answered.
use uomi_node.Prelude.{ℕ, ◌%◌, ◌^◌, ◌≤◌, some, ◌≡◌, ◌≢◌, [], Outcome, ok, panic}
use uomi_node.Prelude.Key.{nat_key, bytes_key, pair_key}
use uomi_node.Prelude.Lists.{length, occurrences}
use uomi_node.Prelude.Map.{Map, lookup, values}
use uomi_node.Engine.{AccountId, RequestId, Data, EngineError, Storage, Operations}
use uomi_node.Engine.Outputs.{Collected}
use uomi_node.Engine.Run.Level1.{timeout_all}
use uomi_node.Engine.Run.Level2.Judgement.{IsJudged}

-- The outcome of a vote on the answers of a request: the output with its counts, and the judgement.
pub record IsCompleted (s : Storage) (r : RequestId) (outputs : Map AccountId Data)
    (ops ops' : Operations) : Type 0 where
  pub consensus : Data
  pub agreeing : ℕ
  pub stored :
      lookup r ops'.outputs_operations
      ≡ some (consensus, length outputs % 2 ^ 32, agreeing % 2 ^ 32)
  pub counted : agreeing ≡ occurrences consensus (values outputs)
  pub most : (other : Data) → occurrences other (values outputs) ≤ agreeing
  pub judged : (w : AccountId) → IsJudged s r consensus outputs ops ops' w

-- What level 2 makes of what is collected.
pub data IsDecided (s : Storage) (r : RequestId) (ops : Operations) (found : Collected)
    : Outcome EngineError Operations → Type 0 where
  waits : found.validators_not_completed ≢ [] → IsDecided s r ops found (ok ops)
  stops : found.validators_not_completed ≡ [] → found.outputs ≡ [] → IsDecided s r ops found panic
  completes :
      (ops' : Operations)
      → found.validators_not_completed ≡ []
      → IsCompleted s r found.outputs (timeout_all s r found.validators_in_timeout ops) ops'
      → IsDecided s r ops found (ok ops')
