-- ===== src/Orchestration/Run/Results.antt =====
-- What the loop of `execute_workflow` leaves, and that it holds with one more step before.
use agentic_agnostic_orchest.Base.{
  ℕ, ◌≤◌, ◌≡◌, ◌≢◌, ◌⊎◌, ◌↔◌, inl, inr, refl, sym, ◌∙◌, ap, subst, String, false, Option, none,
  some, List, [], ◌∷◌, ◌++◌, if◌then◌else◌, Dict, get, put, get-put_self, get-put_ne, contains,
  eq_iff, arith, member, Among,
}
use agentic_agnostic_orchest.Orchestration.Step.{
  RetryPolicy, Outcome, StepResult, StepStatus, StepError, policy_of,
}
use agentic_agnostic_orchest.Orchestration.Step.Attempts.{StepEnds}
use agentic_agnostic_orchest.Orchestration.Workflow.{
  StepDefinition, step_ids, WorkflowResult, WorkflowStatus, stopped_at,
}
use agentic_agnostic_orchest.Orchestration.Downstream.Reach.{NeedsInTheEnd}
use agentic_agnostic_orchest.Orchestration.Run.{is_failed, skipped_result}

-- The step has a result with an output of its own or of its fallback.
pub record Succeeded (results : Dict StepResult) (id : String) : Type 0 where
  pub answer : StepResult
  pub found : get results id ≡ some answer
  pub good : (answer.status ≡ StepStatus.completed) ⊎ (answer.status ≡ StepStatus.fallback)

pub record Failed (results : Dict StepResult) (id : String) : Type 0 where
  pub answer : StepResult
  pub found : get results id ≡ some answer
  pub bad : answer.status ≡ StepStatus.failed

-- A step allows an attempt at least, as the model of `RetryPolicy` demands.
abbrev pub CanTry : StepDefinition → Type 0
CanTry s = 1 ≤ (policy_of s.retry).max_attempts

-- All of `todo` succeeded, and `r` has their results and those of before.
pub record AllSucceeded (todo : List StepDefinition) (results : Dict StepResult)
    (r : WorkflowResult) : Type 0 where
  pub status : r.status ≡ WorkflowStatus.completed
  pub no_error : r.error ≡ none
  pub succeeded : (s : StepDefinition) → Among s todo → Succeeded r.step_results s.id
  pub kept : (v : String) → member v (step_ids todo) ≡ false → get r.step_results v ≡ get results v

-- The steps before one succeeded and this one failed: those without a result that need it are
-- skipped, and no other step gets one.
pub record Halted (steps todo : List StepDefinition) (results : Dict StepResult)
    (r : WorkflowResult) : Type 0 where
  pub before : List StepDefinition
  pub stop : StepDefinition
  pub after : List StepDefinition
  pub split : todo ≡ before ++ (stop ∷ after)
  pub status : r.status ≡ WorkflowStatus.failed
  pub reported : (e : Option StepError) × (r.error ≡ some (stopped_at stop.id e))
  pub succeeded : (s : StepDefinition) → Among s before → Succeeded r.step_results s.id
  pub failed_at : Failed r.step_results stop.id
  pub downstream : List StepDefinition
  pub finds :
      (s : StepDefinition) → Among s downstream ↔ (Among s steps × NeedsInTheEnd steps s.id stop.id)
  pub others :
      (v : String)
      → member v (step_ids before) ≡ false
      → stop.id ≢ v
      → get r.step_results v ≡ (
          if contains results v
          then get results v
          else if member v (step_ids downstream)
          then some (skipped_result stop.id)
          else none)

abbrev pub Goes : StepResult → Type 0
Goes r = (r.status ≡ StepStatus.completed) ⊎ (r.status ≡ StepStatus.fallback)

pub how_ended :
    (call : ℕ → Outcome) (p : RetryPolicy) (alternative : Option Outcome) (r : StepResult)
    → StepEnds call p alternative r
    → Goes r ⊎ (r.status ≡ StepStatus.failed)
how_ended call p alternative r e = elim e.ended [
  | inl (x, c, st, v) ↦ inl (inl st)
  | inr (msg, c, n, inl (y, a, st, v)) ↦ inl (inr st)
  | inr (msg, c, n, inr (st, v)) ↦ inr st
]

pub Goes-is_failed : (r : StepResult) → Goes r → is_failed r.status ≡ false
unfolding is_failed
Goes-is_failed r (inl e) = rw e refl
Goes-is_failed r (inr e) = rw e refl

pub own_result :
    (s : StepDefinition) (a : StepResult) (results final : Dict StepResult)
    → get final s.id ≡ get (put results s.id a) s.id
    → Goes a
    → Succeeded final s.id
own_result s a results final e good = record {
  answer = a;
  found = e ∙ get-put_self results s.id a;
  good = good;
}

pub all_succeed :
    (s : StepDefinition) (todo : List StepDefinition) (a : StepResult) (results : Dict StepResult)
    (r : WorkflowResult)
    → member s.id (step_ids todo) ≡ false
    → Goes a
    → AllSucceeded todo (put results s.id a) r
    → AllSucceeded (s ∷ todo) results r
unfolding step_ids
all_succeed s todo a results r new good all = record {
  status = all.status;
  no_error = all.no_error;
  succeeded = λ t m. elim m [
    | inl e ↦
        subst (λ z. Succeeded r.step_results z.id) (sym e)
          (own_result s a results r.step_results (all.kept s.id new) good)
    | inr later ↦ all.succeeded t later
  ];
  kept = λ v m.
      all.kept v (ground arith) ∙ get-put_ne results s.id v a (λ e. ground (arith, eq_iff s.id v));
}

pub member-split :
    (v : String) (before : List StepDefinition) (stop : StepDefinition)
    (after : List StepDefinition)
    → member v (step_ids (before ++ (stop ∷ after))) ≡ false
    → (member v (step_ids before) ≡ false) × (stop.id ≢ v)
unfolding step_ids
member-split v [] stop after m = (refl, λ e. ground (arith, eq_iff stop.id v))
member-split v (s ∷ before) stop after m =
    let (b, ne) = member-split v before stop after (ground arith) in (ground arith, ne)

pub later_halt :
    (steps : List StepDefinition) (s : StepDefinition) (todo : List StepDefinition) (a : StepResult)
    (results : Dict StepResult) (r : WorkflowResult)
    → member s.id (step_ids todo) ≡ false
    → Goes a
    → Halted steps todo (put results s.id a) r
    → Halted steps (s ∷ todo) results r
unfolding step_ids contains
later_halt steps s todo a results r new good h =
    let (out, ne) =
      member-split s.id h.before h.stop h.after
        (subst (λ xs. member s.id (step_ids xs) ≡ false) h.split new) in
    record {
      before = s ∷ h.before;
      stop = h.stop;
      after = h.after;
      split = ap (λ xs. s ∷ xs) h.split;
      status = h.status;
      reported = h.reported;
      succeeded = λ t m. elim m [
        | inl e ↦
            subst (λ z. Succeeded r.step_results z.id) (sym e)
              (own_result s a results r.step_results
                (h.others s.id out ne ∙ ground (arith, get-put_self results s.id a)) good)
        | inr later ↦ h.succeeded t later
      ];
      failed_at = h.failed_at;
      downstream = h.downstream;
      finds = h.finds;
      others = λ v m n.
          h.others v (ground arith) n
          ∙ ground (arith, get-put_ne results s.id v a (λ e. ground (arith, eq_iff s.id v)));
    }
