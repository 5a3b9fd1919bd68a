-- ===== src/Orchestration/Downstream/Reach.antt =====
-- `_downstream_of` finds the steps that need a step, directly or through others.
use agentic_agnostic_orchest.Base.{
  ◌≡◌, ◌⊎◌, inl, inr, refl, String, true, List, [], ◌∷◌, ◌++◌, if◌then◌else◌, Dict, put, get-put,
  Among, ◌==◌, eq_iff, eq_refl, arith, Bool-cases, member, member-append,
}
use agentic_agnostic_orchest.Orchestration.Workflow.{StepDefinition}
use agentic_agnostic_orchest.Orchestration.Downstream.{children, list_under, by_dependency}

-- The step `id` has `dep` among its dependencies.
pub record Needs (steps : List StepDefinition) (id dep : String) : Type 0 where
  pub step : StepDefinition
  pub declared : Among step steps
  pub named : step.id ≡ id
  pub listed : member dep step.depends_on ≡ true

-- Directly or through other steps
pub data NeedsInTheEnd (steps : List StepDefinition) : String → String → Type 0 where
  directly : (id dep : String) → Needs steps id dep → NeedsInTheEnd steps id dep
  through :
      (id mid dep : String)
      → Needs steps id mid
      → NeedsInTheEnd steps mid dep
      → NeedsInTheEnd steps id dep

children-put :
    (g : Dict (List String)) (k v : String) (xs : List String)
    → children (put g k xs) v ≡ (if k == v then xs else children g v)
unfolding children
children-put g k v xs = ground (arith, get-put g k v xs)

member-list_under :
    (id : String) (deps : List String) (g : Dict (List String)) (d c : String)
    → member c (children (list_under id deps g) d) ≡ (
        if member d deps
        then if id == c then true else member c (children g d)
        else member c (children g d))
unfolding list_under
member-list_under id [] g d c = refl
member-list_under id (dep ∷ deps) g d c = ground (
  arith,
  member-list_under id deps (put g dep (children g dep ++ (id ∷ []))) d c,
  children-put g dep d (children g dep ++ (id ∷ [])),
  member-append c (children g dep) (id ∷ []),
  eq_iff dep d,
)

Needs-later :
    (s : StepDefinition) (steps : List StepDefinition) (c d : String)
    → Needs steps c d
    → Needs (s ∷ steps) c d
Needs-later s steps c d n = record {
  step = n.step;
  declared = inr n.declared;
  named = n.named;
  listed = n.listed;
}

pub child-Needs :
    (steps : List StepDefinition) (g : Dict (List String)) (c d : String)
    → member c (children (by_dependency steps g) d) ≡ true
    → (member c (children g d) ≡ true) ⊎ Needs steps c d
unfolding by_dependency
child-Needs [] g c d m = inl m
child-Needs (s ∷ steps) g c d m = elim (child-Needs steps (list_under s.id s.depends_on g) c d m) [
  | inr n ↦ inr (Needs-later s steps c d n)
  | inl k ↦ elim (Bool-cases (member d s.depends_on)) [
    | inr other ↦ inl (ground (arith, member-list_under s.id s.depends_on g d c))
    | inl here ↦ elim (Bool-cases (s.id == c)) [
      | inr other ↦ inl (ground (arith, member-list_under s.id s.depends_on g d c))
      | inl same ↦
          inr (record {
            step = s;
            declared = inl refl;
            named = (eq_iff s.id c).0 same;
            listed = here;
          })
    ]
  ]
]

child_kept :
    (steps : List StepDefinition) (g : Dict (List String)) (c d : String)
    → member c (children g d) ≡ true
    → member c (children (by_dependency steps g) d) ≡ true
unfolding by_dependency
child_kept [] g c d m = m
child_kept (s ∷ steps) g c d m =
    child_kept steps (list_under s.id s.depends_on g) c d
      (ground (arith, member-list_under s.id s.depends_on g d c))

pub Needs-child :
    (steps : List StepDefinition) (g : Dict (List String)) (c d : String)
    → Needs steps c d
    → member c (children (by_dependency steps g) d) ≡ true
unfolding by_dependency
Needs-child steps g c d n = by_place steps g n.declared
  where
    by_place :
        (rest : List StepDefinition) (g : Dict (List String))
        → Among n.step rest
        → member c (children (by_dependency rest g) d) ≡ true
    by_place [] g m = absurd m
    by_place (s ∷ rest) g (inl e) =
        child_kept rest (list_under s.id s.depends_on g) c d (
          ground
            (arith, member-list_under s.id s.depends_on g d c, e, n.named, n.listed, eq_refl c))
    by_place (s ∷ rest) g (inr m) = by_place rest (list_under s.id s.depends_on g) m
