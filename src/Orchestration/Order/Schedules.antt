-- ===== src/Orchestration/Order/Schedules.antt =====
-- What `_topological_sort` returns or raises.
use agentic_agnostic_orchest.Base.{◌≡◌, refl, true, inl, inr, some, List}
use agentic_agnostic_orchest.Orchestration.Workflow.{StepDefinition, step_map, unique_step_ids}
use agentic_agnostic_orchest.Orchestration.Order.{
  unknown, link_steps, no_links, sort_result, sort_linked, topological_sort, Sorted,
}
use agentic_agnostic_orchest.Orchestration.Order.Linking.{linked_cases}
use agentic_agnostic_orchest.Orchestration.Order.Start.{link_steps-Ready}
use agentic_agnostic_orchest.Orchestration.Order.Specification.{
  unique_step_ids-IsDistinct, Explains,
}
use agentic_agnostic_orchest.Orchestration.Order.Dangling.{unknown-IsDangling}
use agentic_agnostic_orchest.Orchestration.Order.Drains.{drained, sort_result-Explains}

-- For steps with distinct ids the sort ends: it returns every step once, each after all its
-- dependencies, or it reports a step with a dependency that is no step, or it reports at least one
-- id, and every reported id is a step that needs another reported one.
pub topological_sort-Explains :
    (steps : List StepDefinition)
    → unique_step_ids steps ≡ true
    → (r : Sorted) × (topological_sort steps ≡ some r) × Explains steps r
unfolding topological_sort sort_linked
topological_sort-Explains steps u =
    let distinct = unique_step_ids-IsDistinct steps u in
    elim (linked_cases (link_steps (step_map steps) steps (no_links steps))) [
      | inl (l, e) ↦
          let ready = link_steps-Ready steps l distinct e in
          let (d, run, ends) = drained steps distinct l ready in
          (
            sort_result steps d,
            rw (e, sort_linked, run) refl,
            sort_result-Explains steps distinct l ready d ends,
          )
      | inr (id, dep, e) ↦ (
        unknown id dep,
        rw (e, sort_linked) refl,
        unknown-IsDangling steps (no_links steps) id dep e,
      )
    ]
