-- ===== src/Scheduler/Admission/Decisions.antt =====
-- What `admit` books and queues.
use agentic_agnostic_orchest.Base.{
  ℕ, ◌≡◌, String, true, Option, List, [], ◌∷◌, eq_iff, ◌==◌, if◌then◌else◌, Bool-cases, inl, inr,
  ◌&&◌, subst,
}
use agentic_agnostic_orchest.Base.Int.{
  ℤ, pos, ◌+ℤ◌, ◌≤ℤ◌, leb_ℤ, max_ℤ, int_laws, +ℤ_chain, le_of_sum,
}
use agentic_agnostic_orchest.Core.{TaskEnvelope}
use agentic_agnostic_orchest.Scheduler.Reals.{Reals}
use agentic_agnostic_orchest.Scheduler.Quota.{
  RedisHash, QuotaLedger, effective_remaining_seconds, snapshot, has_headroom, reserve,
}
use agentic_agnostic_orchest.Scheduler.Quota.Reserve.{
  reserve_takes, effective_nonneg, snapshot-reserve_ne,
}
use agentic_agnostic_orchest.Scheduler.Admission.{
  AdmissionDecision, Scheduler, admit, admitted, vendor_of, or_zero, seat_seconds_or_zero,
}

module _ (R : Reals) (H : RedisHash) where
  -- The seconds of vendor `v` that a scheduler may still dispatch.
  abbrev pub remaining : Scheduler R H → String → ℤ
  remaining s v = effective_remaining_seconds (snapshot H s.quota v)

  -- What a decision books against vendor `v`.
  pub charge : String → AdmissionDecision → ℤ
  charge v d =
      if admitted d && (d.vendor == v) then max_ℤ (pos 0) d.estimated_burn_seconds else pos 0

  reserve_conserves :
      (l : QuotaLedger H) (v w : String) (e : ℤ) (now : ℕ)
      → has_headroom H l v e ≡ true
      → effective_remaining_seconds (snapshot H (reserve H l v e now) w)
          +ℤ (if v == w then max_ℤ (pos 0) e else pos 0)
        ≡ effective_remaining_seconds (snapshot H l w)
  reserve_conserves l v w e now h = elim (Bool-cases (v == w)) [
    | inl same ↦ rw same (
        subst
          (λ u.
            effective_remaining_seconds (snapshot H (reserve H l v e now) u) +ℤ max_ℤ (pos 0) e
            ≡ effective_remaining_seconds (snapshot H l u))
          ((eq_iff v w).0 same) (reserve_takes H l v e now h).0)
    | inr other ↦
        rw (other, snapshot-reserve_ne H l v w e now (λ p. cc (other, (eq_iff v w).1 p)))
          (omega int_laws)
  ]

  -- For every vendor, the seconds left after admit and what its decision charges add up to the
  -- seconds left before.
  pub admit_conserves :
      (s : Scheduler R H) (task : TaskEnvelope) (vendor : Option String) (e : Option ℤ) (now : ℕ)
      (v : String)
      → let (d, s') = admit R H s task vendor e now in remaining s' v +ℤ charge v d ≡ remaining s v
  unfolding admit charge admitted
  admit_conserves s task vendor e now v =
      let w = vendor_of vendor task in
      let est = or_zero e (seat_seconds_or_zero task) in
      elim (Bool-cases (leb_ℤ s.max_concurrent s.running_count)) [
        | inl full ↦ rw full (omega int_laws)
        | inr free ↦ elim (Bool-cases (has_headroom H s.quota w est)) [
          | inl room ↦ rw (free, room) (reserve_conserves s.quota w v est now room)
          | inr empty ↦ rw (free, empty) (omega int_laws)
        ]
      ]

  -- A request to `admit`: the task, the vendor, the estimate and the time.
  abbrev Request : Type 0
  Request = TaskEnvelope × Option String × Option ℤ × ℕ

  -- A series of admissions, with the seconds booked against vendor `v`.
  pub admit_all : String → List Request → Scheduler R H → ℤ × Scheduler R H
  admit_all v [] s = (pos 0, s)
  admit_all v ((task, vendor, e, now) ∷ reqs) s =
      let (d, s₁) = admit R H s task vendor e now in
      let (booked, s₂) = admit_all v reqs s₁ in (charge v d +ℤ booked, s₂)

  remaining_nonneg : (s : Scheduler R H) (v : String) → pos 0 ≤ℤ remaining s v
  remaining_nonneg s v = effective_nonneg (snapshot H s.quota v)

  admit_all_conserves :
      (v : String) (reqs : List Request) (s : Scheduler R H)
      → let (booked, s') = admit_all v reqs s in remaining s' v +ℤ booked ≡ remaining s v
  unfolding admit_all
  admit_all_conserves v [] s = omega int_laws
  admit_all_conserves v ((task, vendor, e, now) ∷ reqs) s =
      let (d, s₁) = admit R H s task vendor e now in
      +ℤ_chain _ (remaining s₁ v) _ _ _ (admit_all_conserves v reqs s₁)
        (admit_conserves s task vendor e now v)

  -- No series of admissions books more seconds against a vendor than its caps left at the start;
  -- what is booked and what is left add up to what there was.
  pub never_overbooks :
      (v : String) (reqs : List Request) (s : Scheduler R H)
      → let (booked, s') = admit_all v reqs s in
        (booked ≤ℤ remaining s v) × (remaining s' v +ℤ booked ≡ remaining s v)
  never_overbooks v reqs s =
      let (booked, s') = admit_all v reqs s in
      (
        le_of_sum _ _ _ (remaining_nonneg s' v) (admit_all_conserves v reqs s),
        admit_all_conserves v reqs s,
      )
