-- ===== src/Orchestration/Order/Drains.antt =====
-- What `_topological_sort` makes of the loop that has ended.
use agentic_agnostic_orchest.Base.Int.{pos}
use agentic_agnostic_orchest.Base.{
  ◌≡◌, ◌≤◌, ◌<◌, refl, sym, ap, ◌∙◌, String, true, inl, inr, some, List, [], ◌∷◌, length,
  if◌then◌else◌, contains, eq_refl, arith, Bool-cases, eqb, Among, count, member, missing,
  missing_some, missing_all, IsDistinct, IsWithin, count_same, one_left_out, distinct_fill,
  counts-IsDistinct, member_of_count, count_positive, count_absent,
}
use agentic_agnostic_orchest.Orchestration.Workflow.Ids.{length-step_ids}
use agentic_agnostic_orchest.Orchestration.Workflow.{StepDefinition, step_ids, step_map}
use agentic_agnostic_orchest.Orchestration.Order.{
  degree, Links, Drained, drain, steps_of, sort_result, first_queue, ids_where, is_zero,
  is_positive,
}
use agentic_agnostic_orchest.Orchestration.Order.Linking.{deps_of, deps_of-absent}
use agentic_agnostic_orchest.Orchestration.Order.Start.{Ready, get-step_map}
use agentic_agnostic_orchest.Orchestration.Order.Queue.{count-first_queue, count-ids_where}
use agentic_agnostic_orchest.Orchestration.Order.Loop.{
  Loop, Ends, drain-Ends, IsOrdered, onto, length-onto, count-onto, queue_fits,
}
use agentic_agnostic_orchest.Orchestration.Order.Specification.{
  FollowsDeps, IsSchedule, IsBlocked, Explains,
}

nonempty : (v : String) (xs : List String) → member v xs ≡ true → 0 < length xs
nonempty v [] m = absurd (cc m)
nonempty v (x ∷ xs) m = omega arith

module _ (steps : List StepDefinition) (distinct : IsDistinct (step_ids steps)) (l : Links)
    (ready : Ready steps l) where
  declared : (v d : String) → 0 < count d (deps_of steps v) → member v (step_ids steps) ≡ true
  declared v d h = elim (Bool-cases (member v (step_ids steps))) [
    | inl m ↦ m
    | inr a ↦ absurd (ground (arith, deps_of-absent steps v a))
  ]

  -- A step without dependencies is in the first queue, and no other id.
  queued :
      (v : String)
      → count v (first_queue steps l.in_degree) ≡ (
          if member v (step_ids steps)
          then if eqb (length (deps_of steps v)) 0 then 1 else 0
          else 0)
  unfolding is_zero
  queued v =
      ground
        (arith, count-first_queue steps l.in_degree v ready.unique, ready.keys v, ready.degrees v)

  first-Loop :
      Loop (step_ids steps) (deps_of steps) l.graph [] (first_queue steps l.in_degree) l.in_degree
  first-Loop = record {
    once = λ v. ground (arith, queued v);
    degrees = λ v. ready.degrees v ∙ ap pos (sym (missing_all (deps_of steps v)));
    free = λ v h. ground (arith, queued v, missing_all (deps_of steps v));
    waiting = λ v m h. ground (arith, queued v, missing_all (deps_of steps v));
    keys = λ v m. ready.keys v ∙ m;
    unique = ready.unique;
  }

  pub drained :
      (d : Drained) × (drain l.graph (length steps) (first_queue steps l.in_degree) l.in_degree
        ≡ some d)
      × Ends (step_ids steps) (deps_of steps) l.graph [] d
  drained =
      drain-Ends (step_ids steps) (deps_of steps) l.graph ready.targets declared (length steps) []
        (first_queue steps l.in_degree) l.in_degree first-Loop
        (omega (arith, length-step_ids steps))

  step_ids-steps_of :
      (ids : List String)
      → IsWithin ids (step_ids steps)
      → step_ids (steps_of (step_map steps) ids) ≡ ids
  unfolding steps_of step_ids
  step_ids-steps_of [] w = refl
  step_ids-steps_of (v ∷ ids) w =
      let (s, g, i, a, q) = get-step_map steps v distinct (w v (ground (arith, eq_refl v))) in
      rw (g, steps_of, i) (ap (λ xs. v ∷ xs) (step_ids-steps_of ids (λ x m. w x (ground arith))))

  Among-steps_of :
      (ids : List String)
      → IsWithin ids (step_ids steps)
      → (s : StepDefinition) → Among s (steps_of (step_map steps) ids)
      → Among s steps
  unfolding steps_of
  Among-steps_of [] w s m = absurd m
  Among-steps_of (v ∷ ids) w s m =
      let (t, g, i, a, q) = get-step_map steps v distinct (w v (ground (arith, eq_refl v))) in
      elim (rw (g, steps_of) at m) [
        | inl e ↦ rw e a
        | inr later ↦ Among-steps_of ids (λ x n. w x (ground arith)) s later
      ]

  steps_of-FollowsDeps :
      (seen ids : List String)
      → IsWithin ids (step_ids steps)
      → IsOrdered (deps_of steps) seen ids
      → FollowsDeps seen (steps_of (step_map steps) ids)
  unfolding steps_of
  steps_of-FollowsDeps seen [] w o = tt
  steps_of-FollowsDeps seen (v ∷ ids) w (here, later) =
      let (s, g, i, a, q) = get-step_map steps v distinct (w v (ground (arith, eq_refl v))) in
      rw (g, steps_of, i, q)
        (here, steps_of-FollowsDeps (v ∷ seen) ids (λ x n. w x (ground arith)) later)

  module _ (d : Drained) (ends : Ends (step_ids steps) (deps_of steps) l.graph [] d) where
    ordered_once : (v : String) → count v d.ordered ≤ 1
    ordered_once v = omega (arith, ends.last.once v, count-onto v [] d.ordered)

    ordered-IsDistinct : IsDistinct d.ordered
    ordered-IsDistinct = counts-IsDistinct d.ordered ordered_once

    ordered-IsWithin : IsWithin d.ordered (step_ids steps)
    ordered-IsWithin v m =
        (ends.last.free v
          (ground (arith, count-onto v [] d.ordered, count_positive v d.ordered m))).1

    sorted-IsSchedule :
        length d.ordered ≡ length steps → IsSchedule steps (steps_of (step_map steps) d.ordered)
    sorted-IsSchedule same = record {
      each_once = λ v. rw (step_ids-steps_of d.ordered ordered-IsWithin) (
          count_same d.ordered (step_ids steps) ordered-IsDistinct distinct ordered-IsWithin
            (distinct_fill d.ordered (step_ids steps) ordered-IsDistinct ordered-IsWithin
              (omega (arith, same, length-step_ids steps)))
            v);
      declared = Among-steps_of d.ordered ordered-IsWithin;
      follows = steps_of-FollowsDeps [] d.ordered ordered-IsWithin ends.order;
    }

    done : List String
    done = onto [] d.ordered

    -- The degrees above 0 are of the steps with a dependency that is not in order.
    held :
        (v : String)
        → count v (ids_where is_positive d.in_degree) ≡ (
            if contains d.in_degree v
            then if eqb (missing done (deps_of steps v)) 0 then 0 else 1
            else 0)
    unfolding is_positive degree contains done
    held v =
        ground
          (arith, count-ids_where is_positive d.in_degree v ends.last.unique, ends.last.degrees v)

    held_of :
        (v : String)
        → member v (step_ids steps) ≡ true
        → count v done ≡ 0
        → member v (ids_where is_positive d.in_degree) ≡ true
    unfolding done
    held_of v m absent =
        member_of_count v (ids_where is_positive d.in_degree)
          (ground (arith, held v, ends.last.keys v m, ends.last.waiting v m))

    needs_another :
        (v : String)
        → 0 < missing done (deps_of steps v)
        → (s : StepDefinition) × Among s steps
          × (s.id ≡ v)
          × ((x : String) × (member x s.depends_on ≡ true)
              × (member x (ids_where is_positive d.in_degree) ≡ true))
    needs_another v h =
        let (x, m, a) = missing_some done (deps_of steps v) h in
        let (s, g, i, among, q) =
          get-step_map steps v distinct (declared v x (count_positive x (deps_of steps v) m)) in
        (s, among, i, (x, rw q m, held_of x (ready.known v x m) (count_absent x done a)))

    cycle-IsBlocked :
        length d.ordered < length steps → IsBlocked steps (ids_where is_positive d.in_degree)
    unfolding done
    cycle-IsBlocked short =
        let (v, m, a) =
          one_left_out d.ordered (step_ids steps) distinct (omega (arith, length-step_ids steps)) in
        record {
          some_id =
              nonempty v (ids_where is_positive d.in_degree) (
                held_of v m (omega (arith, count-onto v [] d.ordered, count_absent v d.ordered a)));
          blocked = λ w n.
              needs_another w
                (ground (arith, held w, count_positive w (ids_where is_positive d.in_degree) n));
        }

    pub sort_result-Explains : Explains steps (sort_result steps d)
    unfolding sort_result
    sort_result-Explains = elim (Bool-cases (eqb (length d.ordered) (length steps))) [
      | inl same ↦ rw same (sorted-IsSchedule (ground arith))
      | inr other ↦ rw other (cycle-IsBlocked (ground (arith, fits)))
    ]
      where
        fits : length d.ordered ≤ length steps
        fits = omega (
          arith,
          length-onto [] d.ordered,
          length-step_ids steps,
          queue_fits (step_ids steps) (deps_of steps) l.graph ready.targets declared
              (onto [] d.ordered) [] d.in_degree ends.last,
        )
