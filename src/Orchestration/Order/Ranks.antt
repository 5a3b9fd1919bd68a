-- ===== src/Orchestration/Order/Ranks.antt =====
-- Which workflows `_topological_sort` puts in order: those whose dependencies have a rank.
use agentic_agnostic_orchest.Base.{
  count, member_of_count, counts-IsDistinct, count_once, count_positive, ◌↔◌, ap, ◌∙◌, suc, refl,
  sym, some, ℕ, zero, ◌≡◌, ◌<◌, ◌⊎◌, inl, inr, subst, String, true, false, List, [], ◌∷◌, ◌==◌,
  eq_iff, eq_refl, arith, Bool-cases, Among, member, IsDistinct,
}
use agentic_agnostic_orchest.Orchestration.Workflow.Ids.{member-Among, Among-member, same_step}
use agentic_agnostic_orchest.Orchestration.Workflow.{StepDefinition, step_ids, unique_step_ids}
use agentic_agnostic_orchest.Orchestration.Order.{
  declared_at, topological_sort, Sorted, sorted, unknown, cycle,
}
use agentic_agnostic_orchest.Orchestration.Order.Specification.{
  unique_step_ids-IsDistinct, FollowsDeps, IsSchedule, IsBlocked, Explains,
}
use agentic_agnostic_orchest.Orchestration.Order.Schedules.{topological_sort-Explains}

-- Every dependency is a step, of a lower rank than the step that has it.
pub record Ranked (steps : List StepDefinition) : Type 0 where
  pub rank : String → ℕ
  pub lower :
      (s : StepDefinition)
      → Among s steps
      → (d : String) → member d s.depends_on ≡ true
      → (member d (step_ids steps) ≡ true) × (rank d < rank s.id)

-- In an order that the dependencies allow, the place is a rank.
place-lower :
    (seen : List String) (ordered : List StepDefinition)
    → IsDistinct (step_ids ordered)
    → FollowsDeps seen ordered
    → (s : StepDefinition) → Among s ordered
    → (d : String) → member d s.depends_on ≡ true
    → (member d seen ≡ true)
      ⊎ ((member d (step_ids ordered) ≡ true) × (declared_at ordered d < declared_at ordered s.id))
unfolding declared_at step_ids
place-lower seen [] u f s m d h = absurd m
place-lower seen (x ∷ ordered) u f s (inl e) d h = inl (f.0 d (rw (← e) h))
place-lower seen (x ∷ ordered) u f s (inr m) d h =
    let apart : (x.id == s.id) ≡ false =
      ground (arith, eq_iff x.id s.id, u.0, member-Among s ordered m) in
    elim (place-lower (x.id ∷ seen) ordered u.1 f.1 s m d h) [
      | inl before ↦ elim (Bool-cases (x.id == d)) [
        | inl same ↦ inr (ground (arith, apart))
        | inr other ↦ inl (ground arith)
      ]
      | inr (n, lt) ↦ inr (ground arith)
    ]

descends :
    (steps : List StepDefinition) (ids : List String) (r : Ranked steps)
    → IsBlocked steps ids
    → (n : ℕ) (v : String) → r.rank v < n
    → member v ids ≡ true
    → ⊥
descends steps ids r b zero v h m = omega arith
descends steps ids r b (suc n) v h m =
    let (s, a, e, (d, needs, again)) = b.blocked v m in
    let (known, lt) = r.lower s a d needs in
    descends steps ids r b n d (omega (arith, lt, subst (λ z. r.rank z < suc n) (sym e) h)) again

pub transfer :
    (xs ys : List StepDefinition)
    → ((v : String) → count v (step_ids ys) ≡ count v (step_ids xs))
    → (v : String) → member v (step_ids xs) ≡ true
    → member v (step_ids ys) ≡ true
transfer xs ys h v m =
    member_of_count v (step_ids ys) (omega (arith, h v, count_positive v (step_ids xs) m))

pub once-IsDistinct :
    (steps ordered : List StepDefinition)
    → IsDistinct (step_ids steps)
    → IsSchedule steps ordered
    → IsDistinct (step_ids ordered)
once-IsDistinct steps ordered u i =
    counts-IsDistinct (step_ids ordered)
      (λ v. omega (arith, i.each_once v, count_once v (step_ids steps) u))

same_some : (r q : Sorted) → some r ≡ some q → r ≡ q
same_some r q h = cc h

blocked_has_some :
    (steps : List StepDefinition) (ids : List String)
    → IsBlocked steps ids
    → (v : String) × (member v ids ≡ true)
blocked_has_some steps [] b = absurd (omega (arith, b.some_id))
blocked_has_some steps (v ∷ ids) b = (v, ground (arith, eq_refl v))

Ranked-sorts :
    (steps : List StepDefinition) (r : Sorted)
    → Ranked steps
    → Explains steps r
    → (ordered : List StepDefinition) × (r ≡ sorted ordered)
Ranked-sorts steps (sorted ordered) k e = (ordered, refl)
Ranked-sorts steps (unknown id dep) k e =
    absurd (cc ((k.lower e.step e.declared dep e.needs).0, e.missed))
Ranked-sorts steps (cycle ids) k e =
    let (v, m) = blocked_has_some steps ids e in
    absurd (descends steps ids k e (suc (k.rank v)) v (omega arith) m)

schedule_ranks :
    (steps ordered : List StepDefinition)
    → IsDistinct (step_ids steps)
    → IsSchedule steps ordered
    → Ranked steps
schedule_ranks steps ordered u i = record {
  rank = declared_at ordered;
  lower = λ s m d h.
      let (t, n, e) =
        Among-member s.id ordered
          (transfer steps ordered (λ v. i.each_once v) s.id (member-Among s steps m)) in
      let same = same_step s t steps u m (i.declared t n) (sym e) in
      elim (place-lower [] ordered (once-IsDistinct steps ordered u i) i.follows s
        (subst (λ z. Among z ordered) (sym same) n) d h) [
          | inl none ↦ absurd (cc none)
          | inr (k, lt) ↦ (transfer ordered steps (λ v. sym (i.each_once v)) d k, lt)
        ];
}

-- For steps with distinct ids the sort returns an order exactly if the dependencies have a rank:
-- each is the id of a step, of a lower rank than the step that has it.
pub topological_sort-sorts-Ranked :
    (steps : List StepDefinition)
    → unique_step_ids steps ≡ true
    → ((ordered : List StepDefinition) × (topological_sort steps ≡ some (sorted ordered)))
      ↔ Ranked steps
topological_sort-sorts-Ranked steps u = (to, from)
  where
    result : (r : Sorted) × (topological_sort steps ≡ some r) × Explains steps r
    result = topological_sort-Explains steps u

    to :
        ((ordered : List StepDefinition) × (topological_sort steps ≡ some (sorted ordered)))
        → Ranked steps
    to (ordered, e) =
        let (r, run, x) = result in
        schedule_ranks steps ordered (unique_step_ids-IsDistinct steps u)
          (subst (Explains steps) (same_some r (sorted ordered) (sym run ∙ e)) x)

    from :
        Ranked steps
        → (ordered : List StepDefinition) × (topological_sort steps ≡ some (sorted ordered))
    from k =
        let (r, run, x) = result in
        let (ordered, e) = Ranked-sorts steps r k x in (ordered, run ∙ ap some e)
