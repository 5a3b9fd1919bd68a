-- ===== src/Planner/Order.antt =====
-- `_topological_order` of herdmaster/src/herdmaster/project/planner.py on normalized tasks, whose key is the
-- id here. A call puts its key into `visiting` and takes it out again, so that the set is an argument. The
-- recursion runs on fuel.
pub mod Built
use agentic_agnostic_orchest.Base.{
  ℕ, zero, suc, String, Bool, true, false, Option, none, some, List, [], ◌∷◌, ◌++◌, length,
  if◌then◌else◌, Dict, get, member,
}
use agentic_agnostic_orchest.Planner.Eta.{PlannedTask, put_by}

-- `by_key.get(dependency) or by_title.get(dependency)`
unfoldable pub known_parent : List PlannedTask → String → Option PlannedTask
unfolding put_by
known_parent tasks dependency = elim (get (put_by (λ t. t.id) [] tasks) dependency) [
  | some t ↦ some t
  | none ↦ get (put_by (λ t. t.title) [] tasks) dependency
]

pub record Visit : Type 0 where
  pub visited : List String
  pub ordered : List PlannedTask

unfoldable pub visit_parents :
    (PlannedTask → Visit → Option Visit)
    → (String → Option PlannedTask)
    → List String
    → Visit
    → Option Visit
visit_parents call parent [] v = some v
visit_parents call parent (dependency ∷ rest) v = elim (parent dependency) [
  | none ↦ visit_parents call parent rest v
  | some p ↦ elim (call p v) [ none ↦ none | some next ↦ visit_parents call parent rest next ]
]

-- `visited.add(key)` and `ordered.append(task)`
unfoldable pub leave : PlannedTask → Option Visit → Option Visit
leave t none = none
leave t (some v) = some (record { visited = t.id ∷ v.visited; ordered = v.ordered ++ (t ∷ []) })

unfoldable pub visit_task :
    (String → Option PlannedTask) → ℕ → List String → PlannedTask → Visit → Option Visit
unfolding visit_parents leave
visit_task parent zero visiting t v = none
visit_task parent (suc fuel) visiting t v =
    let parents = visit_parents (visit_task parent fuel (t.id ∷ visiting)) parent t.depends_on v in
    if member t.id v.visited
    then some v
    else if member t.id visiting
    then some v
    else leave t parents

unfoldable pub visit_all :
    (PlannedTask → Visit → Option Visit) → List PlannedTask → Visit → Option Visit
visit_all call [] v = some v
visit_all call (t ∷ tasks) v = elim (call t v) [
  | none ↦ none
  | some next ↦ visit_all call tasks next
]

unfoldable pub topological_order : List PlannedTask → Option (List PlannedTask)
unfolding visit_all visit_task known_parent
topological_order tasks =
    elim (visit_all (visit_task (known_parent tasks) (suc (length tasks)) []) tasks
      (record { visited = []; ordered = [] })) [ none ↦ none | some v ↦ some v.ordered ]
