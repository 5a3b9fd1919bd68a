-- ===== src/Orchestration/Order.antt =====
-- `_topological_sort` of control-plane/app/orchestration/orchestration_engine.py. Both dictionaries start
-- with every step's id, and a dependency is looked up before it is used, so that no key is missing: a
-- read of one gives 0 or the empty list here. The loop of the queue runs on fuel.
mod Linking
mod Start
pub mod Schedules
pub mod Specification
mod Dangling
mod Drains
pub mod Ranks
mod Loop
mod Queue
use Prim.Native.Char.{Char}
use agentic_agnostic_orchest.Base.Int.{ℤ, pos, negsuc, ◌+ℤ◌, ◌-ℤ◌}
use agentic_agnostic_orchest.Base.{
  ℕ, zero, suc, String, Bool, true, false, Option, none, some, List, [], ◌∷◌, ◌++◌, length, eqb,
  leb, if◌then◌else◌, Dict, get, put, contains, get_or, sort_by, ◌==◌,
}
use agentic_agnostic_orchest.Orchestration.Workflow.{StepDefinition, step_map}

-- `in_degree[v]` and `graph[d]`
unfoldable pub degree : Dict ℤ → String → ℤ
degree in_degree v = get_or (get in_degree v) (pos 0)

unfoldable pub edges : Dict (List String) → String → List String
edges graph d = get_or (get graph d) []

unfoldable pub is_zero : ℤ → Bool
is_zero (pos n) = eqb n 0
is_zero (negsuc n) = false

unfoldable pub is_positive : ℤ → Bool
is_positive (pos n) = if eqb n 0 then false else true
is_positive (negsuc n) = false

-- `{s.id: v for s in steps}`
unfoldable pub for_steps : {V : Type 0} → V → Dict V → List StepDefinition → Dict V
for_steps v d [] = d
for_steps v d (s ∷ steps) = for_steps v (put d s.id v) steps

pub record Links : Type 0 where
  pub in_degree : Dict ℤ
  pub graph : Dict (List String)

-- The links, or the `ValueError` with the step's id and the unknown one
pub data Linked : Type 0 where
  linked : Links → Linked
  unknown : String → String → Linked

unfoldable pub add_link : String → String → Links → Links
unfolding degree edges
add_link id dep l = record {
  in_degree = put l.in_degree id (degree l.in_degree id +ℤ pos 1);
  graph = put l.graph dep (edges l.graph dep ++ (id ∷ []));
}

unfoldable pub link_step : Dict StepDefinition → String → List String → Links → Linked
unfolding add_link
link_step by_id id [] l = linked l
link_step by_id id (dep ∷ deps) l =
    let rest = link_step by_id id deps (add_link id dep l) in
    if contains by_id dep then rest else unknown id dep

unfoldable pub link_steps : Dict StepDefinition → List StepDefinition → Links → Linked
unfolding link_step
link_steps by_id [] l = linked l
link_steps by_id (step ∷ steps) l = elim (link_step by_id step.id step.depends_on l) [
  | linked next ↦ link_steps by_id steps next
  | unknown id dep ↦ unknown id dep
]

-- `[sid for sid, d in in_degree.items() if p(d)]`
unfoldable pub ids_where : (ℤ → Bool) → Dict ℤ → List String
ids_where p [] = []
ids_where p ((sid, d) ∷ rest) = if p d then sid ∷ ids_where p rest else ids_where p rest

-- `next(i for i, s in enumerate(steps) if s.id == sid)`
unfoldable pub declared_at : List StepDefinition → String → ℕ
declared_at [] sid = 0
declared_at (s ∷ steps) sid = if s.id == sid then 0 else suc (declared_at steps sid)

-- `queue.insert(insert_at, nxt)`, before the first equal element or at the end
unfoldable pub insert_before : String → List String → List String
insert_before nxt [] = nxt ∷ []
insert_before nxt (s ∷ queue) = if s == nxt then nxt ∷ s ∷ queue else s ∷ insert_before nxt queue

pub record Frontier : Type 0 where
  pub queue : List String
  pub in_degree : Dict ℤ

-- One successor: its degree falls, and at 0 it joins the queue.
unfoldable pub relax_one : String → Frontier → Frontier
unfolding degree is_zero insert_before
relax_one nxt f =
    let d = degree f.in_degree nxt -ℤ pos 1 in
    record {
      queue = if is_zero d then insert_before nxt f.queue else f.queue;
      in_degree = put f.in_degree nxt d;
    }

unfoldable pub relax : List String → Frontier → Frontier
unfolding relax_one
relax [] f = f
relax (nxt ∷ rest) f = relax rest (relax_one nxt f)

-- What the loop appends to `ordered`, as ids, and the degrees it leaves
pub record Drained : Type 0 where
  pub ordered : List String
  pub in_degree : Dict ℤ

unfoldable pub appended : String → Option Drained → Option Drained
appended sid none = none
appended sid (some d) = some (record { ordered = sid ∷ d.ordered; in_degree = d.in_degree })

-- `while queue`
unfoldable pub drain : Dict (List String) → ℕ → List String → Dict ℤ → Option Drained
unfolding relax edges appended
drain graph fuel [] in_degree = some (record { ordered = []; in_degree = in_degree })
drain graph zero (sid ∷ queue) in_degree = none
drain graph (suc fuel) (sid ∷ queue) in_degree =
    let f = relax (edges graph sid) (record { queue = queue; in_degree = in_degree }) in
    appended sid (drain graph fuel f.queue f.in_degree)

-- The ordered steps, or the text of a `ValueError`
pub data Sorted : Type 0 where
  sorted : List StepDefinition → Sorted
  unknown : String → String → Sorted
  cycle : List String → Sorted

-- `by_id[sid]` for each id
unfoldable pub steps_of : Dict StepDefinition → List String → List StepDefinition
steps_of by_id [] = []
steps_of by_id (sid ∷ ids) = elim (get by_id sid) [
  | none ↦ steps_of by_id ids
  | some step ↦ step ∷ steps_of by_id ids
]

unfoldable pub sort_result : List StepDefinition → Drained → Sorted
unfolding steps_of ids_where is_positive step_map
sort_result steps d =
    if eqb (length d.ordered) (length steps)
    then sorted (steps_of (step_map steps) d.ordered)
    else cycle (ids_where is_positive d.in_degree)

unfoldable pub no_links : List StepDefinition → Links
unfolding for_steps
no_links steps = record { in_degree = for_steps (pos 0) [] steps; graph = for_steps [] [] steps }

unfoldable pub first_queue : List StepDefinition → Dict ℤ → List String
unfolding ids_where is_zero declared_at
first_queue steps in_degree =
    sort_by (λ a b. leb (declared_at steps a) (declared_at steps b)) (ids_where is_zero in_degree)

unfoldable pub sort_linked : List StepDefinition → Linked → Option Sorted
unfolding drain first_queue sort_result
sort_linked steps (unknown id dep) = some (unknown id dep)
sort_linked steps (linked l) =
    elim (drain l.graph (length steps) (first_queue steps l.in_degree) l.in_degree) [
      | none ↦ none
      | some d ↦ some (sort_result steps d)
    ]

unfoldable pub topological_sort : List StepDefinition → Option Sorted
unfolding link_steps no_links step_map sort_linked
topological_sort steps = sort_linked steps (link_steps (step_map steps) steps (no_links steps))
