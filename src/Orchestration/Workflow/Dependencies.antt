-- ===== src/Orchestration/Workflow/Dependencies.antt =====
-- What `validate_dependencies` rejects.
use agentic_agnostic_orchest.Base.{
  ◌≡◌, inl, inr, refl, sym, subst, String, true, false, Option, none, some, List, [], ◌∷◌,
  Option-cases, ◌==◌, eq_iff, arith, Bool-cases, member, Among, IsWithin,
}
use agentic_agnostic_orchest.Orchestration.Workflow.{
  StepDefinition, step_ids, validate_dependencies, unknown_from, unknown_dependency,
}
use agentic_agnostic_orchest.Orchestration.Order.Specification.{IsDangling}

some_injective : (a b : String) → some a ≡ some b → a ≡ b
some_injective a b h = cc h

pair_injective :
    (a b c d : String)
    → ◌≡◌ {A = Option (String × String)} (some (a, b)) (some (c, d))
    → (a ≡ c) × (b ≡ d)
pair_injective a b c d h = (cc h, cc h)

unknown_dependency-found :
    (known deps : List String) (dep : String)
    → unknown_dependency known deps ≡ some dep
    → (member dep deps ≡ true) × (member dep known ≡ false)
unfolding unknown_dependency
unknown_dependency-found known [] dep h = absurd (cc h)
unknown_dependency-found known (d ∷ deps) dep h = elim (Bool-cases (member d known)) [
  | inl met ↦
      let (m, a) = unknown_dependency-found known deps dep (rw met at h) in (ground arith, a)
  | inr missed ↦
      let same : d ≡ dep = some_injective d dep (rw missed at h) in
      (ground (arith, eq_iff d dep), subst (λ z. member z known ≡ false) same missed)
]

unknown_dependency-nothing :
    (known deps : List String) → unknown_dependency known deps ≡ none → IsWithin deps known
unfolding unknown_dependency
unknown_dependency-nothing known [] h x m = absurd (cc m)
unknown_dependency-nothing known (d ∷ deps) h x m = elim (Bool-cases (member d known)) [
  | inl met ↦ elim (Bool-cases (d == x)) [
    | inl same ↦ subst (λ z. member z known ≡ true) ((eq_iff d x).0 same) met
    | inr other ↦ unknown_dependency-nothing known deps (rw met at h) x (ground arith)
  ]
  | inr missed ↦ absurd (cc (rw missed at h))
]

unknown_from-found :
    (known : List String) (steps : List StepDefinition) (id dep : String)
    → unknown_from known steps ≡ some (id, dep)
    → (s : StepDefinition) × Among s steps
      × (s.id ≡ id)
      × (member dep s.depends_on ≡ true)
      × (member dep known ≡ false)
unfolding unknown_from
unknown_from-found known [] id dep h = absurd (cc h)
unknown_from-found known (s ∷ steps) id dep h =
    elim (Option-cases (unknown_dependency known s.depends_on)) [
      | inl e ↦
          let (t, a, n, m, c) = unknown_from-found known steps id dep (rw (e, unknown_from) at h) in
          (t, inr a, n, m, c)
      | inr (d, e) ↦
          let same : (s.id ≡ id) × (d ≡ dep) =
            pair_injective s.id d id dep (rw (e, unknown_from) at h) in
          let (m, a) = unknown_dependency-found known s.depends_on d e in
          (s, inl refl, same.0, rw (← same.1) m, rw (← same.1) a)
    ]

unknown_from-nothing :
    (known : List String) (steps : List StepDefinition)
    → unknown_from known steps ≡ none
    → (s : StepDefinition) → Among s steps
    → IsWithin s.depends_on known
unfolding unknown_from
unknown_from-nothing known [] h s m = absurd m
unknown_from-nothing known (t ∷ steps) h s m =
    elim (Option-cases (unknown_dependency known t.depends_on)) [
      | inl e ↦ elim m [
        | inl same ↦
            subst (λ z. IsWithin z.depends_on known) (sym same)
              (unknown_dependency-nothing known t.depends_on e)
        | inr later ↦ unknown_from-nothing known steps (rw (e, unknown_from) at h) s later
      ]
      | inr (d, e) ↦ absurd (cc (rw (e, unknown_from) at h))
    ]

-- `validate_dependencies` raises for a dependency that no step is.
pub validate-IsDangling :
    (steps : List StepDefinition) (id dep : String)
    → validate_dependencies steps ≡ some (id, dep)
    → IsDangling steps id dep
unfolding validate_dependencies
validate-IsDangling steps id dep h =
    let (s, a, n, m, c) = unknown_from-found (step_ids steps) steps id dep h in
    record { step = s; declared = a; named = n; needs = m; missed = c }

pub validate-nothing :
    (steps : List StepDefinition)
    → validate_dependencies steps ≡ none
    → (s : StepDefinition) → Among s steps
    → IsWithin s.depends_on (step_ids steps)
unfolding validate_dependencies
validate-nothing steps h = unknown_from-nothing (step_ids steps) steps h
