-- ===== src/Orchestration/Workflow/Ids.antt =====
-- Steps by their ids.
use agentic_agnostic_orchest.Base.{
  ◌≡◌, inl, inr, refl, sym, ◌∙◌, subst, String, true, List, [], length, suc, ap, ◌∷◌, ◌==◌, eq_iff,
  eq_refl, arith, Bool-cases, Among, member, IsDistinct,
}
use agentic_agnostic_orchest.Orchestration.Workflow.{StepDefinition, step_ids}

pub member-Among :
    (s : StepDefinition) (steps : List StepDefinition)
    → Among s steps
    → member s.id (step_ids steps) ≡ true
unfolding step_ids
member-Among s [] m = absurd m
member-Among s (t ∷ steps) (inl e) = ground (arith, eq_refl t.id, e)
member-Among s (t ∷ steps) (inr m) = ground (arith, member-Among s steps m)

pub Among-member :
    (v : String) (steps : List StepDefinition)
    → member v (step_ids steps) ≡ true
    → (s : StepDefinition) × Among s steps × (s.id ≡ v)
unfolding step_ids
Among-member v [] m = absurd (cc m)
Among-member v (t ∷ steps) m = elim (Bool-cases (t.id == v)) [
  | inl same ↦ (t, inl refl, (eq_iff t.id v).0 same)
  | inr other ↦ let (s, a, e) = Among-member v steps (ground arith) in (s, inr a, e)
]

pub same_step :
    (s t : StepDefinition) (steps : List StepDefinition)
    → IsDistinct (step_ids steps)
    → Among s steps
    → Among t steps
    → s.id ≡ t.id
    → s ≡ t
unfolding step_ids
same_step s t [] u m n e = absurd m
same_step s t (x ∷ steps) u (inl m) (inl n) e = m ∙ sym n
same_step s t (x ∷ steps) u (inl m) (inr n) e = absurd (
    cc (
      subst (λ z. member z (step_ids steps) ≡ true) (sym e ∙ ap (λ y. y.id) m)
          (member-Among t steps n),
      u.0,
    ))
same_step s t (x ∷ steps) u (inr m) (inl n) e = absurd (
    cc (
      subst (λ z. member z (step_ids steps) ≡ true) (e ∙ ap (λ y. y.id) n) (member-Among s steps m),
      u.0,
    ))
same_step s t (x ∷ steps) u (inr m) (inr n) e = same_step s t steps u.1 m n e

pub length-step_ids : (steps : List StepDefinition) → length (step_ids steps) ≡ length steps
unfolding step_ids
length-step_ids [] = refl
length-step_ids (s ∷ steps) = ap suc (length-step_ids steps)
