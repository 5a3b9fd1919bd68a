-- ===== src/Orchestration/Run.antt =====
-- `execute_workflow` of control-plane/app/orchestration/orchestration_engine.py. What a handler answers to
-- a step is a function of the step's type and config, of the outputs so far and of the attempt's number;
-- a handler that writes outputs of its own (the parallel one) is left out. `none` is a loop out of fuel.
pub mod Skips
pub mod Results
pub mod Steps
pub mod Endings
pub mod Workflows
use agentic_agnostic_orchest.Base.{
  ℕ, String, Bool, true, false, Option, none, some, List, [], ◌∷◌, if◌then◌else◌, Dict, put,
  contains, filter, not,
}
use agentic_agnostic_orchest.Orchestration.Step.{
  Outcome, StepResult, StepStatus, StepError, upstream_failed, policy_of, execute_step,
}
use agentic_agnostic_orchest.Orchestration.Workflow.{
  StepDefinition, Action, ChainValue, output_for_chain, set_output, resolve_output_key,
  validate_dependencies, step_ids, WorkflowResult, WorkflowStatus, WorkflowError, unknown_step,
  cycle_detected, stopped_at,
}
use agentic_agnostic_orchest.Orchestration.Order.{topological_sort, Sorted, sorted, cycle}
use agentic_agnostic_orchest.Orchestration.Downstream.{downstream_of}

unfoldable pub is_failed : StepStatus → Bool
is_failed StepStatus.failed = true
is_failed other = false

-- `StepResult(step_id=sid, status=SKIPPED, error=...)`
unfoldable pub skipped_result : String → StepResult
skipped_result id = record {
  status = StepStatus.skipped;
  attempts = 0;
  used_fallback = false;
  result = none;
  error = some (upstream_failed id);
}

unfoldable pub put_skipped : String → List String → Dict StepResult → Dict StepResult
unfolding skipped_result
put_skipped id [] results = results
put_skipped id (sid ∷ ids) results = put_skipped id ids (put results sid (skipped_result id))

-- The downstream steps without a result, skipped
unfoldable pub skip_downstream : String → List StepDefinition → Dict StepResult → Dict StepResult
unfolding put_skipped step_ids
skip_downstream id downstream results =
    put_skipped id (step_ids (filter (λ s. not (contains results s.id)) downstream)) results

-- What `execute_workflow` does: it returns a result, or raises on an unknown dependency.
pub data Execution : Type 0 where
  returned : WorkflowResult → Execution
  raised : String → String → Execution

unfoldable pub failed_result : Dict StepResult → WorkflowError → WorkflowResult
failed_result results e = record {
  status = WorkflowStatus.failed;
  step_results = results;
  error = some e;
  final_context = none;
}

unfoldable pub completed_result : Dict StepResult → Dict ChainValue → WorkflowResult
completed_result results outputs = record {
  status = WorkflowStatus.completed;
  step_results = results;
  error = none;
  final_context = some outputs;
}

module _ (dispatch : Action → Dict ChainValue → ℕ → Outcome) where
  -- `_execute_step` with the step's handler; the fallback is dispatched once.
  unfoldable pub run_step : StepDefinition → Dict ChainValue → Option StepResult
  unfolding execute_step policy_of
  run_step step outputs =
      execute_step (dispatch step.action outputs) (policy_of step.retry).max_attempts step.retry
        (elim step.fallback_action [ none ↦ none | some a ↦ some (dispatch a outputs 1) ])

  unfoldable pub halt :
      List StepDefinition → StepDefinition → StepResult → Dict StepResult → Option WorkflowResult
  unfolding skip_downstream downstream_of failed_result
  halt steps step r results = elim (downstream_of step.id steps) [
    | none ↦ none
    | some downstream ↦
        some
          (failed_result (skip_downstream step.id downstream results) (stopped_at step.id r.error))
  ]

  -- `for step in ordered`
  unfoldable pub run_steps :
      List StepDefinition
      → List StepDefinition
      → Dict StepResult
      → Dict ChainValue
      → Option WorkflowResult
  unfolding run_step halt is_failed completed_result output_for_chain set_output resolve_output_key
  run_steps steps [] results outputs = some (completed_result results outputs)
  run_steps steps (step ∷ ordered) results outputs = elim (run_step step outputs) [
    | none ↦ none
    | some r ↦
        let after = put results step.id r in
        let seen = set_output outputs (resolve_output_key step) (output_for_chain r) in
        let rest = run_steps steps ordered after seen in
        if is_failed r.status then halt steps step r after else rest
  ]

  unfoldable pub run_sorted : List StepDefinition → Dict ChainValue → Sorted → Option WorkflowResult
  unfolding run_steps failed_result
  run_sorted steps outputs (Sorted.unknown id dep) = some (failed_result [] (unknown_step id dep))
  run_sorted steps outputs (cycle ids) = some (failed_result [] (cycle_detected ids))
  run_sorted steps outputs (sorted ordered) = run_steps steps ordered [] outputs

  unfoldable pub execute_sorted : List StepDefinition → Dict ChainValue → Option WorkflowResult
  unfolding run_sorted topological_sort
  execute_sorted steps outputs = elim (topological_sort steps) [
    | none ↦ none
    | some r ↦ run_sorted steps outputs r
  ]

  unfoldable pub execute_workflow : List StepDefinition → Dict ChainValue → Option Execution
  unfolding execute_sorted validate_dependencies
  execute_workflow steps outputs = elim (validate_dependencies steps) [
    | some (id, dep) ↦ some (raised id dep)
    | none ↦ elim (execute_sorted steps outputs) [ none ↦ none | some r ↦ some (returned r) ]
  ]
