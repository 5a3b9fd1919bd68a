-- ===== src/Planner/Eta/Above.antt =====
-- The ids whose parents are being visited, above the rank of a task.
use agentic_agnostic_orchest.Base.{
  ◌<◌, ◌≡◌, subst, String, true, false, Option, List, [], ◌∷◌, Among, arith, Bool-cases, inl, inr,
  member, IsDistinct, IsWithin, ◌==◌, eq_iff,
}
use agentic_agnostic_orchest.Planner.Eta.{PlannedTask}
use agentic_agnostic_orchest.Planner.Eta.Chains.{HasRanks}
use agentic_agnostic_orchest.Planner.Eta.Parents.{ids_of, member-ids}

module _ (tasks : List PlannedTask) (parent : String → Option PlannedTask)
    (same : (s t : PlannedTask) → Among s tasks → Among t tasks → s.id ≡ t.id → s ≡ t)
    (ranks : HasRanks tasks parent) where
  -- The tasks whose parents are being visited are of a higher rank than `t`.
  pub record IsAbove (t : PlannedTask) (visiting : List String) : Type 0 where
    pub distinct : IsDistinct visiting
    pub within : IsWithin visiting (ids_of tasks)
    pub higher :
        (s : PlannedTask)
        → Among s tasks
        → member s.id visiting ≡ true
        → ranks.rank t < ranks.rank s

  pub below :
      (t p : PlannedTask) (visiting : List String)
      → Among t tasks
      → IsAbove t visiting
      → member t.id visiting ≡ false
      → ranks.rank p < ranks.rank t
      → IsAbove p (t.id ∷ visiting)
  below t p visiting among above new lt = record {
    distinct = (new, above.distinct);
    within = λ x m. elim (Bool-cases (t.id == x)) [
      | inl own ↦
          subst (λ z. member z (ids_of tasks) ≡ true) ((eq_iff t.id x).0 own)
            (member-ids t tasks among)
      | inr other ↦ above.within x (ground (arith, m, other))
    ];
    higher = λ s m k. elim (Bool-cases (t.id == s.id)) [
      | inl own ↦
          subst (λ z. ranks.rank p < ranks.rank z) (same t s among m ((eq_iff t.id s.id).0 own)) lt
      | inr other ↦ omega (arith, lt, above.higher s m (ground (arith, k, other)))
    ];
  }

  pub top : (t : PlannedTask) → IsAbove t []
  top t = record { distinct = tt; within = λ x m. absurd (cc m); higher = λ s m k. absurd (cc k) }
