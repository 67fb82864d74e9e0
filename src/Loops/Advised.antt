-- ===== src/Loops/Advised.antt =====
-- src/memory-loop.ts: what a recall of memory adds to a step.
use dsh_ai_coding.Base.{
  ◌≡◌, refl, ap, true, some, none, Option, List, [], ◌∷◌, ◌++◌, String, Result, ok, err, ◌>>=◌,
  ◌&&◌, not, by_if, by_option, by_result_eq, by_list, both, opt_eq, eq_iff, arith, some_inj,
  from_none, from_false, is_ok,
}
use dsh_ai_coding.Loops.{ContentBlock, UserMessage, PreStepDecision, enter, reject, query_of}
use dsh_ai_coding.Loops.Memory.{
  MemoryRecallResponse, is_answer, unless_aborted, memory_message, remember, recall_step,
}

opt_eq-some : (o : Option String) (a : String) → opt_eq o (some a) ≡ true → o ≡ some a
opt_eq-some none a e = from_false e
opt_eq-some (some b) a e = ap some ((eq_iff b a).0 e)

both-some {ℓ κ} :
    {A : Type ℓ} {B : Type κ} (o : Option A) (q : Option B) (p : A × B)
    → both o q ≡ some p
    → (o ≡ some p.0) × (q ≡ some p.1)
both-some (some a) (some b) p e = (ap (λ r. some r.0) (some_inj e), ap (λ r. some r.1) (some_inj e))
both-some (some a) none p e = from_none e
both-some none q p e = from_none e

-- A result that passes the abort is the result before it.
passed {ℓ} :
    {E : Type 0} {A : Type ℓ} (m : Result E A) (aborted : Option E) (a : A)
    → (m >>= unless_aborted aborted) ≡ ok a
    → m ≡ ok a
passed (ok b) none a e = e
passed (ok b) (some x) a e = from_false (ap is_ok e)
passed (err x) aborted a e = e

module _ (create_user_message : List ContentBlock → String → UserMessage) {E : Type 0}
    (project project_recalled project_entered : Option String) (messages : List UserMessage)
    (recall : String → String → Result E MemoryRecallResponse) where
  -- The decision of the others, or this with a message more: that of what was recalled for the
  -- query in the project that is selected each time it is asked for.
  pub data Advised (next : Result E PreStepDecision) : Result E PreStepDecision → Type 0 where
    unchanged : Advised next next
    reminded :
        (id query : String) (response : MemoryRecallResponse) (others : List UserMessage)
        → next ≡ ok (enter others)
        → (project ≡ some id) × (project_recalled ≡ some id) × (project_entered ≡ some id)
        → query_of messages ≡ some query
        → recall id query ≡ ok response
        → is_answer response.status ≡ true
        → Advised next (ok (enter (others ++ memory_message create_user_message response ∷ [])))

  Advised-remember :
      (id query : String) (response : MemoryRecallResponse) (next : Result E PreStepDecision)
      → (project ≡ some id) × (project_recalled ≡ some id)
      → query_of messages ≡ some query
      → recall id query ≡ ok response
      → Advised next (
          next >>= λ d.
          ok (remember create_user_message response (opt_eq project_entered (some id)) d))
  Advised-remember id query response (err e) p q r = unchanged
  Advised-remember id query response (ok reject) p q r = unchanged
  Advised-remember id query response (ok (enter others)) p q r =
      by_list A response.items unchanged (λ _ _.
        by_if A (is_answer response.status && opt_eq project_entered (some id))
          (λ t.
            reminded id query response others refl
              (p.0, p.1, opt_eq-some project_entered id (ground (arith, t))) q r
              (ground (arith, t)))
          (λ _. unchanged))
    where
      A : PreStepDecision → Type 0
      A d = Advised (ok (enter others)) (ok d)

  -- Whatever the recall answers, raises or is aborted with, the step decides and raises what the
  -- others do, or adds one message to those with which they enter. It adds it only where the recall
  -- for the user's query has a usable answer and its project is the selected one before the recall,
  -- after it and after the others have decided.
  pub recall_step-Advised :
      (aborted : Option E) (next : Result E PreStepDecision)
      → Advised next (
          recall_step create_user_message project project_recalled project_entered messages recall
            aborted next)
  unfolding recall_step
  recall_step-Advised aborted next =
      by_option (Advised next) (both project (query_of messages)) (λ _. unchanged)
        (λ p e.
          let asked = both-some project (query_of messages) p e in
          by_result_eq (Advised next) (recall p.0 p.1 >>= unless_aborted aborted)
            (λ response t.
              by_if (Advised next) (not (opt_eq project_recalled (some p.0))) (λ _. unchanged)
                (λ u.
                  Advised-remember p.0 p.1 response next
                    (asked.0, opt_eq-some project_recalled p.0 (ground (arith, u))) asked.1
                    (passed (recall p.0 p.1) aborted response t)))
            (λ _ _. unchanged))
