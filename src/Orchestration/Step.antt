-- ===== src/Orchestration/Step.antt =====
-- `RetryPolicy.should_retry` of control-plane/app/orchestration/workflow.py and `_execute_step` of
-- orchestration_engine.py. What a step's dispatch does is a function of the attempt's number; times and
-- delays are left out. The loop runs on fuel.
pub mod Attempts
use Prim.Native.Char.{code}
use agentic_agnostic_orchest.Base.{
  ℕ, zero, suc, ◌+◌, String, Bool, true, false, ◌||◌, Option, none, some, List, [], ◌∷◌, leb, eqb,
  any, if◌then◌else◌,
}

pub record RetryPolicy : Type 0 where
  pub max_attempts : ℕ
  pub retry_on : List String

-- `token in msg`
unfoldable pub is_prefix : String → String → Bool
is_prefix String.[] t = true
is_prefix (String.◌∷◌ c s) String.[] = false
is_prefix (String.◌∷◌ c s) (String.◌∷◌ d t) =
    let rest = is_prefix s t in if eqb (code c) (code d) then rest else false

unfoldable pub is_infix : String → String → Bool
unfolding is_prefix
is_infix s String.[] = is_prefix s String.[]
is_infix s (String.◌∷◌ c t) = is_prefix s (String.◌∷◌ c t) || is_infix s t

unfoldable pub should_retry : RetryPolicy → ℕ → String → Bool
unfolding is_infix
should_retry p attempt msg =
    if leb p.max_attempts attempt
    then false
    else elim p.retry_on [ [] ↦ true | token ∷ tokens ↦ any (λ t. is_infix t msg) (token ∷ tokens) ]

-- What a dispatch does: it answers, or it raises an exception with a text.
pub data Outcome : Type 0 where
  output : String → Outcome
  fails : String → Outcome

pub data StepStatus : Type 0 where
  pending running completed failed skipped retrying fallback : StepStatus

-- The texts of `StepResult.error`, the last one on a step that `execute_workflow` skips
pub data StepError : Type 0 where
  step_failed : String → StepError
  fallback_succeeded : ℕ → String → StepError
  fallback_failed : String → String → StepError
  upstream_failed : String → StepError

pub record StepResult : Type 0 where
  pub status : StepStatus
  pub attempts : ℕ
  pub used_fallback : Bool
  pub result : Option String
  pub error : Option StepError

-- `step.retry or RetryPolicy(max_attempts=1)`
unfoldable pub policy_of : Option RetryPolicy → RetryPolicy
policy_of none = record { max_attempts = 1; retry_on = [] }
policy_of (some p) = p

-- `result.mark_completed(output)`
unfoldable pub completed_with : ℕ → String → StepResult
completed_with attempts o = record {
  status = completed;
  attempts = attempts;
  used_fallback = false;
  result = some o;
  error = none;
}

unfoldable pub failed_with : ℕ → StepError → StepResult
failed_with attempts e = record {
  status = failed;
  attempts = attempts;
  used_fallback = false;
  result = none;
  error = some e;
}

-- What follows the loop, when the last attempt raised
unfoldable pub after_failure : Option Outcome → ℕ → String → StepResult
unfolding failed_with
after_failure none attempts msg = failed_with attempts (step_failed msg)
after_failure (some (output o)) attempts msg = record {
  status = fallback;
  attempts = attempts;
  used_fallback = true;
  result = some o;
  error = some (fallback_succeeded attempts msg);
}
after_failure (some (fails m)) attempts msg = failed_with attempts (fallback_failed msg m)

module _ (call : ℕ → Outcome) where
  -- `while True`: the number of the last attempt and its outcome, after `attempts` of them
  unfoldable pub attempt_from : RetryPolicy → ℕ → ℕ → Option (ℕ × Outcome)
  unfolding should_retry
  attempt_from p zero attempts = none
  attempt_from p (suc fuel) attempts =
      let again = attempt_from p fuel (attempts + 1) in
      elim (call (attempts + 1)) [
        | output o ↦ some (attempts + 1, output o)
        | fails msg ↦
            if should_retry p (attempts + 1) msg then again else some (attempts + 1, fails msg)
      ]

  unfoldable pub finish_step : Option Outcome → ℕ × Outcome → StepResult
  unfolding completed_with after_failure
  finish_step alternative (n, output o) = completed_with n o
  finish_step alternative (n, fails msg) = after_failure alternative n msg

  unfoldable pub execute_step : ℕ → Option RetryPolicy → Option Outcome → Option StepResult
  unfolding attempt_from policy_of finish_step
  execute_step fuel retry alternative = elim (attempt_from (policy_of retry) fuel 0) [
    | none ↦ none
    | some last ↦ some (finish_step alternative last)
  ]
