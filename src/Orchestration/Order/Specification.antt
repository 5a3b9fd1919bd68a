-- ===== src/Orchestration/Order/Specification.antt =====
-- What `_topological_sort` may return or raise, without its dictionaries.
use agentic_agnostic_orchest.Base.{
  ◌≡◌, ◌<◌, refl, String, true, false, List, [], ◌∷◌, length, eq_iff, eq_refl, arith, Among, count,
  member, IsDistinct, IsWithin,
}
use agentic_agnostic_orchest.Orchestration.Workflow.{
  StepDefinition, step_ids, unique_step_ids, unique_from,
}
use agentic_agnostic_orchest.Orchestration.Order.{unknown, Sorted, sorted, cycle}

unique_from-absent :
    (seen : List String) (steps : List StepDefinition) (v : String)
    → unique_from seen steps ≡ true
    → member v seen ≡ true
    → member v (step_ids steps) ≡ false
unfolding unique_from step_ids
unique_from-absent seen [] v u m = refl
unique_from-absent seen (s ∷ steps) v u m =
    ground (arith, unique_from-absent (s.id ∷ seen) steps v, eq_iff s.id v)

unique_from-IsDistinct :
    (seen : List String) (steps : List StepDefinition)
    → unique_from seen steps ≡ true
    → IsDistinct (step_ids steps)
unfolding unique_from step_ids
unique_from-IsDistinct seen [] u = tt
unique_from-IsDistinct seen (s ∷ steps) u = (
  unique_from-absent (s.id ∷ seen) steps s.id (ground arith) (ground (arith, eq_refl s.id)),
  unique_from-IsDistinct (s.id ∷ seen) steps (ground arith),
)

-- The validator leaves no id a second time.
pub unique_step_ids-IsDistinct :
    (steps : List StepDefinition) → unique_step_ids steps ≡ true → IsDistinct (step_ids steps)
unfolding unique_step_ids
unique_step_ids-IsDistinct steps u = unique_from-IsDistinct [] steps u

-- Each step of the list needs only steps whose ids stand before it or in `seen`.
abbrev pub FollowsDeps : List String → List StepDefinition → Type 0
FollowsDeps seen [] = Unit
FollowsDeps seen (s ∷ steps) = IsWithin s.depends_on seen × FollowsDeps (s.id ∷ seen) steps

-- The steps in an order that their dependencies allow
pub record IsSchedule (steps ordered : List StepDefinition) : Type 0 where
  pub each_once : (v : String) → count v (step_ids ordered) ≡ count v (step_ids steps)
  pub declared : (s : StepDefinition) → Among s ordered → Among s steps
  pub follows : FollowsDeps [] ordered

-- Every id of `ids` is a step that needs another of them, and there is one.
pub record IsBlocked (steps : List StepDefinition) (ids : List String) : Type 0 where
  pub some_id : 0 < length ids
  pub blocked :
      (v : String)
      → member v ids ≡ true
      → (s : StepDefinition) × Among s steps
        × (s.id ≡ v)
        × ((d : String) × (member d s.depends_on ≡ true) × (member d ids ≡ true))

-- The step `id` needs `dep`, which no step is.
pub record IsDangling (steps : List StepDefinition) (id dep : String) : Type 0 where
  pub step : StepDefinition
  pub declared : Among step steps
  pub named : step.id ≡ id
  pub needs : member dep step.depends_on ≡ true
  pub missed : member dep (step_ids steps) ≡ false

abbrev pub Explains : List StepDefinition → Sorted → Type 0
Explains steps (sorted ordered) = IsSchedule steps ordered
Explains steps (unknown id dep) = IsDangling steps id dep
Explains steps (cycle ids) = IsBlocked steps ids
