-- ===== src/Orchestration/Run/Workflows.antt =====
-- How a run of a workflow ends.
use agentic_agnostic_orchest.Base.{
  ℕ, ◌≡◌, inl, inr, refl, true, none, some, List, [], ◌∷◌, Option-cases, Dict, Among, All,
  IsDistinct,
}
use agentic_agnostic_orchest.Orchestration.Step.{Outcome}
use agentic_agnostic_orchest.Orchestration.Workflow.{
  StepDefinition, Action, ChainValue, step_ids, WorkflowResult, unique_step_ids,
  validate_dependencies,
}
use agentic_agnostic_orchest.Orchestration.Workflow.Dependencies.{
  validate-IsDangling, validate-nothing,
}
use agentic_agnostic_orchest.Orchestration.Order.{Sorted, sorted, cycle}
use agentic_agnostic_orchest.Orchestration.Order.Specification.{
  unique_step_ids-IsDistinct, Explains,
}
use agentic_agnostic_orchest.Orchestration.Order.Schedules.{topological_sort-Explains}
use agentic_agnostic_orchest.Orchestration.Order.Ranks.{once-IsDistinct}
use agentic_agnostic_orchest.Orchestration.Run.{
  Execution, returned, raised, failed_result, run_sorted, execute_sorted, execute_workflow,
}
use agentic_agnostic_orchest.Orchestration.Run.Results.{CanTry}
use agentic_agnostic_orchest.Orchestration.Run.Steps.{run_steps-ends}
use agentic_agnostic_orchest.Orchestration.Run.Endings.{
  RunEnds, Halted-Stopped, AllSucceeded-Completed,
}

All-of :
    (steps : List StepDefinition)
    → ((s : StepDefinition) → Among s steps → CanTry s)
    → All CanTry steps
All-of [] h = tt
All-of (s ∷ steps) h = (h s (inl refl), All-of steps (λ t m. h t (inr m)))

module _ (dispatch : Action → Dict ChainValue → ℕ → Outcome) where
  sorted_ends :
      (steps : List StepDefinition) (outputs : Dict ChainValue) (q : Sorted)
      → IsDistinct (step_ids steps)
      → ((s : StepDefinition) → Among s steps → CanTry s)
      → validate_dependencies steps ≡ none
      → Explains steps q
      → (r : WorkflowResult) × (run_sorted dispatch steps outputs q ≡ some r)
        × RunEnds steps (returned r)
  unfolding run_sorted failed_result
  sorted_ends steps outputs (sorted ordered) u try v i =
      let (r, run, ends) =
        run_steps-ends dispatch steps ordered [] outputs (once-IsDistinct steps ordered u i)
          (All-of ordered (λ s m. try s (i.declared s m))) in
      (
        r,
        run,
        elim ends [
          | inl a ↦ inl (AllSucceeded-Completed steps ordered u i r a)
          | inr h ↦ inr (inl (Halted-Stopped steps ordered u i r h))
        ],
      )
  sorted_ends steps outputs (Sorted.unknown id dep) u try v x =
      absurd (cc (validate-nothing steps v x.step x.declared dep x.needs, x.missed))
  sorted_ends steps outputs (cycle ids) u try v b = (
    _,
    refl,
    inr (
        inr
          (record { status = refl; nothing_ran = refl; ids = ids; reported = refl; blocked = b })),
  )

  -- A run of steps with distinct ids, each allowed an attempt, ends. It raises for a dependency that
  -- no step is, or every step succeeds, or it stops at the first step in order that fails, when the
  -- steps that need it are skipped and the later ones that do not have no result, or nothing runs
  -- since some steps all need one another.
  pub execute_workflow-ends :
      (steps : List StepDefinition) (outputs : Dict ChainValue)
      → unique_step_ids steps ≡ true
      → ((s : StepDefinition) → Among s steps → CanTry s)
      → (x : Execution) × (execute_workflow dispatch steps outputs ≡ some x) × RunEnds steps x
  unfolding execute_workflow execute_sorted
  execute_workflow-ends steps outputs u try = elim (Option-cases (validate_dependencies steps)) [
    | inr ((id, dep), e) ↦
        (raised id dep, rw (e, execute_workflow) refl, validate-IsDangling steps id dep e)
    | inl e ↦
        let distinct = unique_step_ids-IsDistinct steps u in
        let (q, sort, i) = topological_sort-Explains steps u in
        let (r, run, ends) = sorted_ends steps outputs q distinct try e i in
        (returned r, rw (e, execute_workflow, sort, execute_sorted, run) refl, ends)
  ]
