-- ===== src/Orchestration/Run/Skips.antt =====
-- The results after the steps downstream of a failed one are skipped.
use agentic_agnostic_orchest.Base.{
  ◌≡◌, inl, inr, refl, ap, String, false, none, some, List, [], ◌∷◌, if◌then◌else◌, Dict, get, put,
  get-put, contains, filter, not, ◌==◌, eq_iff, arith, Bool-cases, member,
}
use agentic_agnostic_orchest.Orchestration.Step.{StepResult}
use agentic_agnostic_orchest.Orchestration.Workflow.{StepDefinition, step_ids}
use agentic_agnostic_orchest.Orchestration.Run.{skipped_result, put_skipped, skip_downstream}

get-put_skipped :
    (id : String) (ids : List String) (results : Dict StepResult) (v : String)
    → get (put_skipped id ids results) v
      ≡ (if member v ids then some (skipped_result id) else get results v)
unfolding put_skipped
get-put_skipped id [] results v = refl
get-put_skipped id (sid ∷ ids) results v = ground (
  arith,
  get-put_skipped id ids (put results sid (skipped_result id)) v,
  get-put results sid v (skipped_result id),
)

kept_ids :
    (results : Dict StepResult) (downstream : List StepDefinition) (v : String)
    → member v (step_ids (filter (λ s. not (contains results s.id)) downstream))
      ≡ (if contains results v then false else member v (step_ids downstream))
unfolding step_ids
kept_ids results [] v = ground arith
kept_ids results (s ∷ downstream) v = elim (Bool-cases (s.id == v)) [
  | inl same ↦
      let e = (eq_iff s.id v).0 same in
      ground (arith, kept_ids results downstream v, ap (contains results) e)
  | inr other ↦ ground (arith, kept_ids results downstream v, other)
]

-- A result stands; a downstream step without one is skipped; another step has none.
pub get-skip_downstream :
    (id : String) (downstream : List StepDefinition) (results : Dict StepResult) (v : String)
    → get (skip_downstream id downstream results) v ≡ (
        if contains results v
        then get results v
        else if member v (step_ids downstream)
        then some (skipped_result id)
        else none)
unfolding skip_downstream contains
get-skip_downstream id downstream results v = ground (
  arith,
  get-put_skipped id (step_ids (filter (λ s. not (contains results s.id)) downstream)) results v,
  kept_ids results downstream v,
)
