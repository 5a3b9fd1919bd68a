-- ===== src/Planner/Eta.antt =====
-- `critical_path_depth` and `max_independent_tasks` of herdmaster/src/herdmaster/project/eta.py on normalized
-- tasks. The two inner functions differ only in their answer on a cycle, `cut` here. A call puts its id into
-- `visiting` and takes it out again, so that the set is an argument here. They recurse on fuel.
pub mod Chains
pub mod Parents
pub mod Above
pub mod Depth
use agentic_agnostic_orchest.Base.{
  ℕ, zero, suc, String, Bool, true, false, Option, none, some, List, [], ◌∷◌, map, length, max,
  if◌then◌else◌, Dict, get, put, get_or, or_else, member, eqb,
}

pub record PlannedTask : Type 0 where
  pub id : String
  pub title : String
  pub depends_on : List String

unfoldable pub put_by :
    (PlannedTask → String) → Dict PlannedTask → List PlannedTask → Dict PlannedTask
put_by key d [] = d
put_by key d (t ∷ tasks) = put_by key (put d (key t) t) tasks

-- `by_id.get(dependency) or by_title.get(dependency)`
unfoldable pub parent_of : List PlannedTask → String → Option PlannedTask
unfolding put_by
parent_of tasks dependency = elim (get (put_by (λ t. t.id) [] tasks) dependency) [
  | some t ↦ some t
  | none ↦ get (put_by (λ t. or_else t.title t.id) [] tasks) dependency
]

-- An answer with the memo after it
pub record Answer : Type 0 where
  pub depth : ℕ
  pub memo : Dict ℕ

-- `max(...)` over the known dependencies, from `deepest` on
unfoldable pub over_parents :
    (PlannedTask → Dict ℕ → Option Answer)
    → (String → Option PlannedTask)
    → List String
    → ℕ
    → Dict ℕ
    → Option Answer
over_parents visit parent [] deepest memo = some (record { depth = deepest; memo = memo })
over_parents visit parent (dependency ∷ rest) deepest memo = elim (parent dependency) [
  | none ↦ over_parents visit parent rest deepest memo
  | some p ↦ elim (visit p memo) [
    | none ↦ none
    | some a ↦ over_parents visit parent rest (max deepest a.depth) a.memo
  ]
]

-- `memo[task_id] = 1 + max(...)`
unfoldable pub remember : String → Option Answer → Option Answer
remember task_id none = none
remember task_id (some a) =
    some (record { depth = suc a.depth; memo = put a.memo task_id (suc a.depth) })

unfoldable pub depth_from :
    ℕ → (String → Option PlannedTask) → ℕ → List String → PlannedTask → Dict ℕ → Option Answer
unfolding over_parents remember
depth_from cut parent zero visiting task memo = none
depth_from cut parent (suc fuel) visiting task memo = elim (get memo task.id) [
  | some d ↦ some (record { depth = d; memo = memo })
  | none ↦
      if member task.id visiting
      then some (record { depth = cut; memo = memo })
      else remember task.id (
          over_parents (depth_from cut parent fuel (task.id ∷ visiting)) parent task.depends_on 0
            memo)
]

-- The answers for the tasks, one after the other with one memo
unfoldable pub depths :
    (PlannedTask → Dict ℕ → Option Answer) → List PlannedTask → Dict ℕ → Option (List ℕ)
depths visit [] memo = some []
depths visit (t ∷ tasks) memo = elim (visit t memo) [
  | none ↦ none
  | some a ↦ elim (depths visit tasks a.memo) [ none ↦ none | some ds ↦ some (a.depth ∷ ds) ]
]

-- `max(..., default=0)`
unfoldable pub greatest : List ℕ → ℕ
greatest [] = 0
greatest (d ∷ ds) = max d (greatest ds)

unfoldable pub depths_of : ℕ → List PlannedTask → Option (List ℕ)
unfolding depths depth_from parent_of
depths_of cut tasks = depths (depth_from cut (parent_of tasks) (suc (length tasks)) []) tasks []

unfoldable pub critical_path_depth : List PlannedTask → Option ℕ
unfolding depths_of greatest
critical_path_depth tasks = elim (depths_of 1 tasks) [ none ↦ none | some ds ↦ some (greatest ds) ]

-- How many of the levels are `level`
unfoldable pub count_level : ℕ → List ℕ → ℕ
count_level level [] = 0
count_level level (l ∷ levels) =
    if eqb l level then suc (count_level level levels) else count_level level levels

unfoldable pub max_independent_tasks : List PlannedTask → Option ℕ
unfolding depths_of greatest count_level
max_independent_tasks tasks = elim (depths_of 0 tasks) [
  | none ↦ none
  | some levels ↦ some (greatest (map (λ l. count_level l levels) levels))
]
