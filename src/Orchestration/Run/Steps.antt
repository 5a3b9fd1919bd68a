-- ===== src/Orchestration/Run/Steps.antt =====
-- The loop of `execute_workflow` over the ordered steps.
use agentic_agnostic_orchest.Base.{
  ℕ, ◌≡◌, ◌⊎◌, inl, inr, refl, ◌∙◌, some, List, [], ◌∷◌, Dict, get, put, get-put_self, get-put_ne,
  contains, arith, All, IsDistinct,
}
use agentic_agnostic_orchest.Orchestration.Step.{Outcome, StepResult, StepStatus, policy_of}
use agentic_agnostic_orchest.Orchestration.Step.Attempts.{step_ends}
use agentic_agnostic_orchest.Orchestration.Workflow.{
  StepDefinition, Action, ChainValue, output_for_chain, set_output, resolve_output_key, step_ids,
  WorkflowResult, stopped_at,
}
use agentic_agnostic_orchest.Orchestration.Downstream.Found.{downstream_of-finds}
use agentic_agnostic_orchest.Orchestration.Run.{
  is_failed, skip_downstream, failed_result, completed_result, run_step, halt, run_steps,
}
use agentic_agnostic_orchest.Orchestration.Run.Skips.{get-skip_downstream}
use agentic_agnostic_orchest.Orchestration.Run.Results.{
  CanTry, AllSucceeded, Halted, Goes, how_ended, Goes-is_failed, all_succeed, later_halt,
}

module _ (dispatch : Action → Dict ChainValue → ℕ → Outcome) where
  -- A step ends: it succeeds or fails.
  run_step_ends :
      (s : StepDefinition) (outputs : Dict ChainValue)
      → CanTry s
      → (r : StepResult) × (run_step dispatch s outputs ≡ some r)
        × (Goes r ⊎ (r.status ≡ StepStatus.failed))
  unfolding run_step
  run_step_ends s outputs h =
      let (r, e, ends) =
        step_ends (dispatch s.action outputs) (policy_of s.retry).max_attempts s.retry _ h
          (omega arith) in
      (r, e, how_ended _ _ _ r ends)

  halt-Halted :
      (steps todo : List StepDefinition) (s : StepDefinition) (a : StepResult)
      (results : Dict StepResult)
      → a.status ≡ StepStatus.failed
      → (r : WorkflowResult) × (halt dispatch steps s a (put results s.id a) ≡ some r)
        × Halted steps (s ∷ todo) results r
  unfolding halt failed_result contains
  halt-Halted steps todo s a results bad =
      let (down, run, finds) = downstream_of-finds s.id steps in
      let after = put results s.id a in
      let own : get after s.id ≡ some a = get-put_self results s.id a in
      (
        failed_result (skip_downstream s.id down after) (stopped_at s.id a.error),
        rw (run, halt) refl,
        record {
          before = [];
          stop = s;
          after = todo;
          split = refl;
          status = refl;
          reported = (a.error, refl);
          succeeded = λ t m. absurd m;
          failed_at = record {
            answer = a;
            found = get-skip_downstream s.id down after s.id ∙ ground (arith, own);
            bad = bad;
          };
          downstream = down;
          finds = finds;
          others = λ v b ne.
              get-skip_downstream s.id down after v
              ∙ ground (arith, get-put_ne results s.id v a ne);
        },
      )

  pub run_steps-ends :
      (steps todo : List StepDefinition) (results : Dict StepResult) (outputs : Dict ChainValue)
      → IsDistinct (step_ids todo)
      → All CanTry todo
      → (r : WorkflowResult) × (run_steps dispatch steps todo results outputs ≡ some r)
        × (AllSucceeded todo results r ⊎ Halted steps todo results r)
  unfolding run_steps completed_result step_ids
  run_steps-ends steps [] results outputs u try = (
    _,
    refl,
    inl (record {
      status = refl;
      no_error = refl;
      succeeded = λ s m. absurd m;
      kept = λ v m. refl;
    }),
  )
  run_steps-ends steps (s ∷ todo) results outputs (new, u) (here, try) =
      let (a, e, how) = run_step_ends s outputs here in
      elim how [
        | inr bad ↦
            let (r, run, h) = halt-Halted steps todo s a results bad in
            (r, rw (e, run_steps, bad, is_failed) run, inr h)
        | inl good ↦
            let after = put results s.id a in
            let seen = set_output outputs (resolve_output_key s) (output_for_chain a) in
            let (r, run, ends) = run_steps-ends steps todo after seen u try in
            (
              r,
              rw (e, run_steps, Goes-is_failed a good) run,
              elim ends [
                | inl all ↦ inl (all_succeed s todo a results r new good all)
                | inr h ↦ inr (later_halt steps s todo a results r new good h)
              ],
            )
      ]
