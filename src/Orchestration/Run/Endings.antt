-- ===== src/Orchestration/Run/Endings.antt =====
-- How a run of a workflow may end, by its steps.
use agentic_agnostic_orchest.Base.{
  ◌≡◌, ◌≢◌, ◌⊎◌, inl, inr, refl, ◌∙◌, subst, String, true, false, Option, none, some, List, [], ◌∷◌,
  ◌++◌, get, contains, ◌==◌, eq_iff, arith, Bool-cases, member, Among, IsDistinct,
}
use agentic_agnostic_orchest.Orchestration.Step.{StepError}
use agentic_agnostic_orchest.Orchestration.Workflow.{
  StepDefinition, step_ids, WorkflowResult, WorkflowStatus, cycle_detected, stopped_at,
}
use agentic_agnostic_orchest.Orchestration.Workflow.Ids.{member-Among, Among-member}
use agentic_agnostic_orchest.Orchestration.Order.Specification.{
  FollowsDeps, IsSchedule, IsBlocked, IsDangling,
}
use agentic_agnostic_orchest.Orchestration.Order.Ranks.{once-IsDistinct, transfer}
use agentic_agnostic_orchest.Orchestration.Downstream.Reach.{NeedsInTheEnd}
use agentic_agnostic_orchest.Orchestration.Run.{Execution, returned, raised, skipped_result}
use agentic_agnostic_orchest.Orchestration.Run.Results.{Succeeded, Failed, AllSucceeded, Halted}

-- Every step succeeded.
pub record Completed (steps : List StepDefinition) (r : WorkflowResult) : Type 0 where
  pub status : r.status ≡ WorkflowStatus.completed
  pub no_error : r.error ≡ none
  pub succeeded : (s : StepDefinition) → Among s steps → Succeeded r.step_results s.id

-- In an order that the dependencies allow, the steps before `stop` succeeded and `stop` failed; all
-- that these need had succeeded. Of the steps after it those that need it, directly or through
-- others, are skipped, and the others have no result.
pub record Stopped (steps : List StepDefinition) (r : WorkflowResult) : Type 0 where
  pub before : List StepDefinition
  pub stop : StepDefinition
  pub after : List StepDefinition
  pub schedule : IsSchedule steps (before ++ (stop ∷ after))
  pub status : r.status ≡ WorkflowStatus.failed
  pub reported : (e : Option StepError) × (r.error ≡ some (stopped_at stop.id e))
  pub succeeded : (s : StepDefinition) → Among s before → Succeeded r.step_results s.id
  pub failed_at : Failed r.step_results stop.id
  pub ready :
      (s : StepDefinition)
      → Among s before ⊎ (s ≡ stop)
      → (d : String) → member d s.depends_on ≡ true
      → Succeeded r.step_results d
  pub skipped :
      (s : StepDefinition)
      → Among s after
      → NeedsInTheEnd steps s.id stop.id
      → get r.step_results s.id ≡ some (skipped_result stop.id)
  pub untouched :
      (s : StepDefinition)
      → Among s after
      → (NeedsInTheEnd steps s.id stop.id → ⊥)
      → get r.step_results s.id ≡ none

-- Nothing ran: each of some steps needs another of them.
pub record Cyclic (steps : List StepDefinition) (r : WorkflowResult) : Type 0 where
  pub status : r.status ≡ WorkflowStatus.failed
  pub nothing_ran : r.step_results ≡ []
  pub ids : List String
  pub reported : r.error ≡ some (cycle_detected ids)
  pub blocked : IsBlocked steps ids

abbrev pub RunEnds : List StepDefinition → Execution → Type 0
RunEnds steps (raised id dep) = IsDangling steps id dep
RunEnds steps (returned r) = Completed steps r ⊎ Stopped steps r ⊎ Cyclic steps r

widen :
    (d id : String) (seen ids : List String)
    → (member d (id ∷ seen) ≡ true) ⊎ (member d ids ≡ true)
    → (member d seen ≡ true) ⊎ (member d (id ∷ ids) ≡ true)
widen d id seen ids (inl h) = elim (Bool-cases (id == d)) [
  | inl same ↦ inr (ground arith)
  | inr other ↦ inl (ground arith)
]
widen d id seen ids (inr h) = inr (ground arith)

-- What a step of an order needs stands before it.
needs_before :
    (seen : List String) (before : List StepDefinition) (stop : StepDefinition)
    (after : List StepDefinition)
    → FollowsDeps seen (before ++ (stop ∷ after))
    → (s : StepDefinition) → Among s before ⊎ (s ≡ stop)
    → (d : String) → member d s.depends_on ≡ true
    → (member d seen ≡ true) ⊎ (member d (step_ids before) ≡ true)
unfolding step_ids
needs_before seen [] stop after f s (inl m) d h = absurd m
needs_before seen [] stop after f s (inr e) d h = inl (f.0 d (rw (← e) h))
needs_before seen (t ∷ before) stop after f s (inl (inl e)) d h = inl (f.0 d (rw (← e) h))
needs_before seen (t ∷ before) stop after f s (inl (inr m)) d h =
    widen d t.id seen (step_ids before)
      (needs_before (t.id ∷ seen) before stop after f.1 s (inl m) d h)
needs_before seen (t ∷ before) stop after f s (inr e) d h =
    widen d t.id seen (step_ids before)
      (needs_before (t.id ∷ seen) before stop after f.1 s (inr e) d h)

Among-append :
    (s : StepDefinition) (before : List StepDefinition) (stop : StepDefinition)
    (after : List StepDefinition)
    → Among s (before ++ (stop ∷ after))
    → Among s before ⊎ (s ≡ stop) ⊎ Among s after
Among-append s [] stop after (inl e) = inr (inl e)
Among-append s [] stop after (inr m) = inr (inr m)
Among-append s (t ∷ before) stop after (inl e) = inl (inl e)
Among-append s (t ∷ before) stop after (inr m) = elim (Among-append s before stop after m) [
  | inl b ↦ inl (inr b)
  | inr rest ↦ inr rest
]

-- A step after the failed one has another id than it and than those before.
after_apart :
    (before : List StepDefinition) (stop : StepDefinition) (after : List StepDefinition)
    → IsDistinct (step_ids (before ++ (stop ∷ after)))
    → (s : StepDefinition) → Among s after
    → (member s.id (step_ids before) ≡ false)
      × (stop.id ≢ s.id)
      × Among s (before ++ (stop ∷ after))
unfolding step_ids
after_apart [] stop after u s m = (
  refl,
  λ e. cc (subst (λ z. member z (step_ids after) ≡ false) e u.0, member-Among s after m),
  inr m,
)
after_apart (t ∷ before) stop after u s m =
    let (out, ne, among) = after_apart before stop after u.1 s m in
    (
      ground (arith, out, eq_iff t.id s.id, u.0, member-Among s (before ++ (stop ∷ after)) among),
      ne,
      inr among,
    )

module _ (steps ordered : List StepDefinition) (u : IsDistinct (step_ids steps))
    (i : IsSchedule steps ordered) (r : WorkflowResult) where
  pub Halted-Stopped : Halted steps ordered [] r → Stopped steps r
  unfolding contains get
  Halted-Stopped h = record {
    before = h.before;
    stop = h.stop;
    after = h.after;
    schedule = schedule;
    status = h.status;
    reported = h.reported;
    succeeded = h.succeeded;
    failed_at = h.failed_at;
    ready = λ s m d n. elim (needs_before [] h.before h.stop h.after schedule.follows s m d n) [
      | inl nothing ↦ absurd (cc nothing)
      | inr b ↦
          let (t, among, e) = Among-member d h.before b in
          subst (Succeeded r.step_results) e (h.succeeded t among)
    ];
    skipped = λ s m n.
        let (out, ne, among) = after_apart h.before h.stop h.after distinct s m in
        h.others s.id out ne
        ∙ ground
            (arith, member-Among s h.downstream ((h.finds s).1 (schedule.declared s among, n)));
    untouched = λ s m n.
        let (out, ne, among) = after_apart h.before h.stop h.after distinct s m in
        h.others s.id out ne ∙ ground (arith, not_found s m n);
  }
    where
      schedule : IsSchedule steps (h.before ++ (h.stop ∷ h.after))
      schedule = subst (IsSchedule steps) h.split i

      distinct : IsDistinct (step_ids (h.before ++ (h.stop ∷ h.after)))
      distinct = once-IsDistinct steps (h.before ++ (h.stop ∷ h.after)) u schedule

      not_found :
          (s : StepDefinition)
          → Among s h.after
          → (NeedsInTheEnd steps s.id h.stop.id → ⊥)
          → member s.id (step_ids h.downstream) ≡ false
      not_found s m n = elim (Bool-cases (member s.id (step_ids h.downstream))) [
        | inr a ↦ a
        | inl found ↦
            let (t, d, e) = Among-member s.id h.downstream found in
            absurd (n (subst (λ z. NeedsInTheEnd steps z h.stop.id) e ((h.finds t).0 d).1))
      ]

  pub AllSucceeded-Completed : AllSucceeded ordered [] r → Completed steps r
  AllSucceeded-Completed a = record {
    status = a.status;
    no_error = a.no_error;
    succeeded = λ s m.
        let (t, n, e) =
          Among-member s.id ordered
            (transfer steps ordered (λ v. i.each_once v) s.id (member-Among s steps m)) in
        subst (Succeeded r.step_results) e (a.succeeded t n);
  }
