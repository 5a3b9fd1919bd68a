-- ===== src/Orchestration/Examples.antt =====
-- A step that raises twice and then answers, with three attempts, and workflows of a few steps.
use agentic_agnostic_orchest.Base.Int.{◌+ℤ◌, ◌-ℤ◌}
use agentic_agnostic_orchest.Base.{
  contains, put, sort_by, ℕ, suc, ◌≡◌, refl, ◌↔◌, String, List, none, some, Option, [], ◌∷◌, map,
  arith, Among, Dict, get, All-Among, if◌then◌else◌, ◌==◌,
}
use agentic_agnostic_orchest.Orchestration.Workflow.{
  StepDefinition, Action, StepType, ChainValue, unique_step_ids, step_ids,
}
use agentic_agnostic_orchest.Orchestration.Order.{topological_sort, Sorted, sorted, cycle}
use agentic_agnostic_orchest.Orchestration.Order.Specification.{Explains}
use agentic_agnostic_orchest.Orchestration.Order.Schedules.{topological_sort-Explains}
use agentic_agnostic_orchest.Orchestration.Order.Ranks.{Ranked, topological_sort-sorts-Ranked}
use agentic_agnostic_orchest.Orchestration.Downstream.{downstream_of}
use agentic_agnostic_orchest.Orchestration.Downstream.Reach.{NeedsInTheEnd}
use agentic_agnostic_orchest.Orchestration.Downstream.Found.{downstream_of-finds}
use agentic_agnostic_orchest.Orchestration.Run.{Execution, returned, execute_workflow}
use agentic_agnostic_orchest.Orchestration.Run.Results.{CanTry}
use agentic_agnostic_orchest.Orchestration.Run.Endings.{RunEnds}
use agentic_agnostic_orchest.Orchestration.Run.Workflows.{execute_workflow-ends}
use agentic_agnostic_orchest.Orchestration.Step.{
  RetryPolicy, Outcome, output, fails, StepResult, StepStatus, failed, skipped, policy_of,
  execute_step,
}
use agentic_agnostic_orchest.Orchestration.Step.Attempts.{StepEnds, step_ends}

abbrev flaky : ℕ → Outcome
flaky (suc (suc (suc n))) = output "ok"
flaky n = fails "busy"

abbrev three : RetryPolicy
three = record { max_attempts = 3; retry_on = [] }

step_ends_example :
    (r : StepResult) × (execute_step flaky 3 (some three) none ≡ some r)
    × StepEnds flaky three none r
unfolding policy_of
step_ends_example = step_ends flaky 3 (some three) none (omega arith) (omega arith)

abbrev step : String → List String → StepDefinition
step id deps = record {
  id = id;
  action = record { type = StepType.transform; config = ("expression", id) ∷ [] };
  depends_on = deps;
  retry = none;
  fallback_action = none;
  output_key = none;
}

-- `late` needs `first`, `free` needs nothing, `last` needs both branches.
abbrev release : List StepDefinition
release =
    step "first" []
    ∷ step "late" ("first" ∷ [])
    ∷ step "free" []
    ∷ step "last" ("late" ∷ "free" ∷ [])
    ∷ []

abbrev ring : List StepDefinition
ring = step "a" ("c" ∷ []) ∷ step "b" ("a" ∷ []) ∷ step "c" ("b" ∷ []) ∷ []

abbrev order_of : Option Sorted → List String
order_of (some (sorted ordered)) = map (λ s. s.id) ordered
order_of (some (cycle ids)) = ids
order_of other = []

-- A step that waited comes after one declared later that did not.
release_order : order_of (topological_sort release) ≡ "first" ∷ "free" ∷ "late" ∷ "last" ∷ []
unfolding topological_sort contains put sort_by ◌+ℤ◌ ◌-ℤ◌
release_order = refl

ring_blocks : order_of (topological_sort ring) ≡ "a" ∷ "b" ∷ "c" ∷ []
unfolding topological_sort contains put sort_by ◌+ℤ◌ ◌-ℤ◌
ring_blocks = refl

topological_sort-Explains_example :
    (r : Sorted) × (topological_sort release ≡ some r) × Explains release r
unfolding unique_step_ids
topological_sort-Explains_example = topological_sort-Explains release refl

topological_sort-sorts-Ranked_example :
    ((ordered : List StepDefinition) × (topological_sort ring ≡ some (sorted ordered)))
    ↔ Ranked ring
unfolding unique_step_ids
topological_sort-sorts-Ranked_example = topological_sort-sorts-Ranked ring refl

downstream_of-finds_example :
    (found : List StepDefinition) × (downstream_of "first" release ≡ some found)
    × ((s : StepDefinition)
        → Among s found ↔ (Among s release × NeedsInTheEnd release s.id "first"))
downstream_of-finds_example = downstream_of-finds "first" release

abbrev first_breaks : Action → Dict ChainValue → ℕ → Outcome
first_breaks a outputs n = elim (get a.config "expression") [
  | none ↦ output ""
  | some e ↦ if e == "first" then fails "broken" else output e
]

release-CanTry : (s : StepDefinition) → Among s release → CanTry s
unfolding policy_of
release-CanTry s m =
    All-Among CanTry s release (omega arith, (omega arith, (omega arith, (omega arith, tt)))) m

execute_workflow-ends_example :
    (x : Execution) × (execute_workflow first_breaks release [] ≡ some x) × RunEnds release x
unfolding unique_step_ids
execute_workflow-ends_example = execute_workflow-ends first_breaks release [] refl release-CanTry

abbrev statuses : List String → Option Execution → List (Option StepStatus)
statuses ids (some (returned r)) =
    map (λ id. elim (get r.step_results id) [ none ↦ none | some a ↦ some a.status ]) ids
statuses ids other = []

-- `free` stands after the failed step and needs nothing of it: it has no result.
release_broken :
    statuses (step_ids release) (execute_workflow first_breaks release [])
    ≡ some failed ∷ some skipped ∷ none ∷ some skipped ∷ []
unfolding execute_workflow step_ids get contains put sort_by ◌+ℤ◌ ◌-ℤ◌
release_broken = refl
