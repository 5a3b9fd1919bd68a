-- ===== src/Orchestration/Downstream.antt =====
-- `_downstream_of` of control-plane/app/orchestration/orchestration_engine.py. The end of the list
-- `frontier`, where it grows and is popped, is the head of the list here, and the set of ids is a list.
-- The loop runs on fuel.
pub mod Reach
mod Visits
pub mod Found
use agentic_agnostic_orchest.Base.{
  ℕ, zero, suc, String, Option, none, some, List, [], ◌∷◌, ◌++◌, length, filter, if◌then◌else◌,
  Dict, get, put, get_or, member,
}
use agentic_agnostic_orchest.Orchestration.Workflow.{StepDefinition}

-- `by_dep.get(current, [])`
unfoldable pub children : Dict (List String) → String → List String
children by_dep d = get_or (get by_dep d) []

-- `by_dep.setdefault(dep, []).append(step.id)` for the dependencies of a step
unfoldable pub list_under : String → List String → Dict (List String) → Dict (List String)
unfolding children
list_under id [] by_dep = by_dep
list_under id (dep ∷ deps) by_dep =
    list_under id deps (put by_dep dep (children by_dep dep ++ (id ∷ [])))

unfoldable pub by_dependency : List StepDefinition → Dict (List String) → Dict (List String)
unfolding list_under
by_dependency [] by_dep = by_dep
by_dependency (step ∷ steps) by_dep =
    by_dependency steps (list_under step.id step.depends_on by_dep)

pub record Search : Type 0 where
  pub downstream_ids : List String
  pub frontier : List String

-- The loop over the children of an id
unfoldable pub visit : List String → Search → Search
visit [] s = s
visit (child ∷ rest) s = visit rest (
    if member child s.downstream_ids
    then s
    else record { downstream_ids = child ∷ s.downstream_ids; frontier = child ∷ s.frontier })

-- `while frontier`
unfoldable pub explore : Dict (List String) → ℕ → List String → List String → Option (List String)
unfolding visit children
explore by_dep fuel down [] = some down
explore by_dep zero down (current ∷ frontier) = none
explore by_dep (suc fuel) down (current ∷ frontier) =
    let s =
      visit (children by_dep current) (record { downstream_ids = down; frontier = frontier }) in
    explore by_dep fuel s.downstream_ids s.frontier

unfoldable pub downstream_of : String → List StepDefinition → Option (List StepDefinition)
unfolding explore by_dependency
downstream_of step_id steps =
    elim (explore (by_dependency steps []) (suc (length steps)) [] (step_id ∷ [])) [
      | none ↦ none
      | some down ↦ some (filter (λ s. member s.id down) steps)
    ]
