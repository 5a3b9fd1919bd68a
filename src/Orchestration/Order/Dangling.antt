-- ===== src/Orchestration/Order/Dangling.antt =====
-- The `ValueError` of `_topological_sort` on an unknown dependency.
use agentic_agnostic_orchest.Base.{
  ◌≡◌, refl, sym, ◌∙◌, String, true, false, inl, inr, List, [], ◌∷◌, Dict, contains, eq_iff, arith,
  Bool-cases, Among, member,
}
use agentic_agnostic_orchest.Orchestration.Workflow.{StepDefinition, step_map}
use agentic_agnostic_orchest.Orchestration.Order.{Links, Linked, unknown, link_step, link_steps}
use agentic_agnostic_orchest.Orchestration.Order.Linking.{linked_cases}
use agentic_agnostic_orchest.Orchestration.Order.Start.{contains-step_map}
use agentic_agnostic_orchest.Orchestration.Order.Specification.{IsDangling}

unknown_injective : (a b c d : String) → Linked.unknown a b ≡ unknown c d → (a ≡ c) × (b ≡ d)
unknown_injective a b c d h = (cc h, cc h)

link_step-unknown :
    (by_id : Dict StepDefinition) (id : String) (deps : List String) (l : Links) (i d : String)
    → link_step by_id id deps l ≡ unknown i d
    → (id ≡ i) × (member d deps ≡ true) × (contains by_id d ≡ false)
unfolding link_step
link_step-unknown by_id id [] l i d h = absurd (cc h)
link_step-unknown by_id id (dep ∷ deps) l i d h = elim (Bool-cases (contains by_id dep)) [
  | inl met ↦
      let (e, m, a) = link_step-unknown by_id id deps _ i d (rw met at h) in (e, ground arith, a)
  | inr missed ↦
      let same : (id ≡ i) × (dep ≡ d) = unknown_injective id dep i d (rw missed at h) in
      (same.0, ground (arith, eq_iff dep d), rw (← same.1) missed)
]

link_steps-unknown :
    (by_id : Dict StepDefinition) (steps : List StepDefinition) (l : Links) (i d : String)
    → link_steps by_id steps l ≡ unknown i d
    → (s : StepDefinition) × Among s steps
      × (s.id ≡ i)
      × (member d s.depends_on ≡ true)
      × (contains by_id d ≡ false)
unfolding link_steps
link_steps-unknown by_id [] l i d h = absurd (cc h)
link_steps-unknown by_id (s ∷ steps) l i d h =
    elim (linked_cases (link_step by_id s.id s.depends_on l)) [
      | inl (next, e) ↦
          let (t, a, n, m, c) = link_steps-unknown by_id steps next i d (rw (e, link_steps) at h) in
          (t, inr a, n, m, c)
      | inr (id, dep, e) ↦
          let same = unknown_injective id dep i d (rw (e, link_steps) at h) in
          let (named, needs, missed) = link_step-unknown by_id s.id s.depends_on l id dep e in
          (s, inl refl, named ∙ same.0, rw (← same.1) needs, rw (← same.1) missed)
    ]

pub unknown-IsDangling :
    (steps : List StepDefinition) (l : Links) (id dep : String)
    → link_steps (step_map steps) steps l ≡ unknown id dep
    → IsDangling steps id dep
unknown-IsDangling steps l id dep h =
    let (s, a, named, needs, missed) = link_steps-unknown (step_map steps) steps l id dep h in
    record {
      step = s;
      declared = a;
      named = named;
      needs = needs;
      missed = sym (contains-step_map steps dep) ∙ missed;
    }
