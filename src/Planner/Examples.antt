-- ===== src/Planner/Examples.antt =====
-- A project of two tasks, of which the second needs the first by its title.
use agentic_agnostic_orchest.Base.{
  ◌∙◌, Among, inr, String, Option, ℕ, ◌≡◌, ◌<◌, refl, sym, subst, true, some, List, [], ◌∷◌, length,
  member, inl, arith, eq_iff, get, put,
}
use agentic_agnostic_orchest.Planner.Eta.{
  PlannedTask, parent_of, critical_path_depth, max_independent_tasks,
}
use agentic_agnostic_orchest.Planner.Order.{known_parent, topological_order}
use agentic_agnostic_orchest.Planner.Order.Built.{Built, topological_order-Built}
use agentic_agnostic_orchest.Planner.Eta.Chains.{HasRanks, IsGreatest}
use agentic_agnostic_orchest.Planner.Eta.Depth.{critical_path_depth-IsGreatest}

abbrev build : PlannedTask
build = record { id = "t1"; title = "build"; depends_on = [] }

abbrev ship : PlannedTask
ship = record { id = "t2"; title = "ship"; depends_on = "build" ∷ [] }

abbrev project : List PlannedTask
project = build ∷ ship ∷ []

some_task : (a b : PlannedTask) → some a ≡ some b → a ≡ b
some_task a b h = cc h

project-HasRanks :
    (parent : String → Option PlannedTask) → parent "build" ≡ some build → HasRanks project parent
project-HasRanks parent by_name = record {
  rank = λ t. length t.depends_on;
  lower = λ t p d m n e. elim m [
    | inl here ↦ absurd (cc (subst (λ z. member d z.depends_on ≡ true) here n))
    | inr (inr nowhere) ↦ absurd nowhere
    | inr (inl here) ↦
        let by_title : "build" ≡ d =
          (eq_iff "build" d).0 (ground (arith, subst (λ z. member d z.depends_on ≡ true) here n)) in
        let found : build ≡ p =
          some_task build p (sym by_name ∙ subst (λ z. parent z ≡ some p) (sym by_title) e) in
        (
          inl (sym found),
          subst (λ z. length z.depends_on < length t.depends_on) found
              (subst (λ z. 0 < length z.depends_on) (sym here) (omega arith)),
        )
  ];
}

critical_path_depth-IsGreatest_example :
    (d : ℕ) × (critical_path_depth project ≡ some d) × IsGreatest (parent_of project) project d
unfolding parent_of get put
critical_path_depth-IsGreatest_example =
    critical_path_depth-IsGreatest project (refl, (refl, tt))
      (project-HasRanks (parent_of project) refl)

project_depth : critical_path_depth project ≡ some 2
unfolding critical_path_depth get put
project_depth = refl

project_width : max_independent_tasks project ≡ some 1
unfolding max_independent_tasks get put
project_width = refl

topological_order-Built_example :
    (ordered : List PlannedTask) × (ids : List String) × (topological_order project ≡ some ordered)
    × Built project (known_parent project) ids ordered
    × ((t : PlannedTask) → Among t project → member t.id ids ≡ true)
unfolding known_parent get put
topological_order-Built_example =
    topological_order-Built project (refl, (refl, tt))
      (project-HasRanks (known_parent project) refl)

-- Declared the other way round, the first task still comes first.
project_order : topological_order (ship ∷ build ∷ []) ≡ some (build ∷ ship ∷ [])
unfolding topological_order get put
project_order = refl
