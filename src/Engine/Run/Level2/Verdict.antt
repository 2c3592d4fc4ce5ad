-- ===== src/Engine/Run/Level2/Verdict.antt =====
-- The verdict of level 2 on a request.
use uomi_node.Prelude.{ℕ, ◌%◌, ◌^◌, ◌≤◌, Option, none, some, ◌≡◌, refl, ap, ◌∙◌, [], ◌∷◌, ok, panic}
use uomi_node.Prelude.Key.{nat_key, bytes_key}
use uomi_node.Prelude.Lists.{length, Distinct, occurrences}
use uomi_node.Prelude.Map.{Map, lookup, keys, values, lookup-insert, beq_refl}
use uomi_node.Engine.{AccountId, RequestId, Data, Storage, Operations}
use uomi_node.Engine.Works.{opoc_complete}
use uomi_node.Engine.Run.Level2.{
  count_values, most_common, judge_outputs, verdict_on, level_2_verdict,
}
use uomi_node.Engine.Run.Level2.Majority.{IsWinner, most_common-IsWinner}
use uomi_node.Engine.Run.Level2.Judgement.{IsJudged, judge_outputs-IsJudged}

-- Completing the request leaves the judgement.
IsJudged-opoc_complete :
    (s : Storage) (r : RequestId) (d : Data) (executions agreeing : ℕ)
    (outputs : Map AccountId Data) (ops : Operations) (w : AccountId)
    → IsJudged s r d outputs ops (judge_outputs s r d outputs ops) w
    → IsJudged s r d outputs ops
        (opoc_complete r d executions agreeing (judge_outputs s r d outputs ops))
        w
unfolding opoc_complete
IsJudged-opoc_complete s r d executions agreeing outputs ops w j = record {
  blacklist = j.blacklist;
  assignment = j.assignment;
  errors = j.errors;
}

-- The verdict on at least one answer completes the request: with an output that no other output
-- outnumbers, the number of answers and the number of those that agree, and every validator is judged by
-- whether its output is that one, where no validator has two outputs.
pub level_2_verdict-completes :
    (s : Storage) (r : RequestId) (v : AccountId) (o : Data) (rest : Map AccountId Data)
    (ops : Operations)
    → Distinct (keys ((v, o) ∷ rest))
    → (d : Data) × (n : ℕ) × (ops' : Operations) × (level_2_verdict s r ((v, o) ∷ rest) ops
        ≡ ok ops')
      × (lookup r ops'.outputs_operations ≡ some (d, length ((v, o) ∷ rest) % 2 ^ 32, n % 2 ^ 32))
      × (n ≡ occurrences d (values ((v, o) ∷ rest)))
      × ((other : Data) → occurrences other (values ((v, o) ∷ rest)) ≤ n)
      × ((w : AccountId) → IsJudged s r d ((v, o) ∷ rest) ops ops' w)
level_2_verdict-completes s r v o rest ops distinct =
    verdict_of (most_common (count_values (o ∷ values rest) [])) refl
      (most_common-IsWinner (o ∷ values rest))
  where
    outputs : Map AccountId Data
    outputs = (v, o) ∷ rest

    verdict_of :
        (vote : Option (Data × ℕ))
        → most_common (count_values (o ∷ values rest) []) ≡ vote
        → IsWinner (o ∷ values rest) vote
        → (d : Data) × (n : ℕ) × (ops' : Operations) × (level_2_verdict s r ((v, o) ∷ rest) ops
            ≡ ok ops')
          × (lookup r ops'.outputs_operations
              ≡ some (d, length ((v, o) ∷ rest) % 2 ^ 32, n % 2 ^ 32))
          × (n ≡ occurrences d (values ((v, o) ∷ rest)))
          × ((other : Data) → occurrences other (values ((v, o) ∷ rest)) ≤ n)
          × ((w : AccountId) → IsJudged s r d ((v, o) ∷ rest) ops ops' w)
    verdict_of none e w = cc
    verdict_of (some (d, n)) e w =
        let judged = judge_outputs s r d outputs ops in
        let executions : ℕ = length outputs % 2 ^ 32 in
        (
          d,
          n,
          opoc_complete r d executions (n % 2 ^ 32) judged,
          (unfold level_2_verdict in ap (verdict_on s r outputs ops) e ∙ unfold verdict_on in refl),
          (unfold opoc_complete in
              (lookup-insert r r (d, executions, n % 2 ^ 32) judged.outputs_operations
                ∙ rw (beq_refl r))),
          w.0,
          w.1,
          λ x.
              IsJudged-opoc_complete s r d executions (n % 2 ^ 32) outputs ops x
                (judge_outputs-IsJudged s r d outputs ops x distinct),
        )

-- Without any answer the run panics.
pub level_2_verdict-empty :
    (s : Storage) (r : RequestId) (ops : Operations) → level_2_verdict s r [] ops ≡ panic
unfolding level_2_verdict verdict_on most_common count_values
level_2_verdict-empty s r ops = refl
