-- ===== src/Scheduler/Admission/Retries.antt =====
-- `dispatch_with_backoff`: how often it calls the vendor, what it waits and what it leaves behind.
use native.Mathlib.Nat.{add-zero}
use agentic_agnostic_orchest.Base.{
  ℕ, zero, suc, ◌+◌, ◌-◌, ◌^◌, ◌≤◌, ◌<◌, ◌≡◌, refl, true, some, List, ◌++◌, arith, inl, inr, length,
  All, ap, ◌∙◌,
}
use agentic_agnostic_orchest.Base.Int.{pos, +ℤ-ℤ_cancel}
use agentic_agnostic_orchest.Core.{TaskEnvelope}
use agentic_agnostic_orchest.Scheduler.Reals.{Reals}
use agentic_agnostic_orchest.Scheduler.Backoff.{BackoffPolicy, delay, delay-leq-max, seconds}
use agentic_agnostic_orchest.Scheduler.Quota.{RedisHash}
use agentic_agnostic_orchest.Scheduler.Admission.{
  Scheduler, Outcome, returned, rate_limited, value, log_delay, enter, dispatch_with_backoff,
}
use agentic_agnostic_orchest.Scheduler.Admission.Rounds.{
  retryable, not_below_one, IsLimited, AllLimited, Fate, round, round_answers, round_again,
  try_from-Leaves,
}

module _ (R : Reals) (H : RedisHash) {A : Type 0} (task : TaskEnvelope) (call : ℕ → Outcome A)
    (random : ℕ → R.Real) where
  -- The powers of two that belong to the attempts from `attempt` on, `n` of them, have floats.
  abbrev pub HaveFloats : ℕ → ℕ → Type 0
  HaveFloats zero attempt = Unit
  HaveFloats (suc n) attempt =
      ((x : R.Real) × (R.of_nat (2 ^ (attempt - 1)) ≡ some x)) × HaveFloats n (attempt + 1)

  float_delay :
      (p : BackoffPolicy R) (attempt : ℕ) (random : R.Real)
      → 1 ≤ attempt
      → (x : R.Real) × (R.of_nat (2 ^ (attempt - 1)) ≡ some x)
      → (d : R.Real) × (delay R p attempt random ≡ seconds d)
  float_delay p attempt random h (x, e) = elim (delay-leq-max R p attempt random h) [
    | inl (absent, _) ↦ absurd (cc (e, absent))
    | inr (d, de, _) ↦ (d, de)
  ]

  limited_code :
      (attempt : ℕ)
      → IsLimited R H task call random attempt
      → (c : ℕ) × (call attempt ≡ rate_limited c) × (retryable c ≡ true)
  limited_code attempt (inl e) = (429, e, refl)
  limited_code attempt (inr e) = (503, e, refl)

  -- After `n` rate limits the loop answers what the next call returns, if it comes to that call.
  reply_value :
      (n left attempt attempts : ℕ) (s : Scheduler R H) (a : A)
      → 1 ≤ attempt
      → attempt + left ≡ attempts
      → n ≤ left
      → AllLimited R H task call random n attempt
      → HaveFloats n attempt
      → call (attempt + n) ≡ returned a
      → (round R H task call random left attempt attempts s).0 ≡ value a
  reply_value zero left attempt attempts s a h e le all floats back =
      ap (λ r. r.0)
        (round_answers R H task call random left attempt attempts s a (rw add-zero at back))
  reply_value (suc n) zero attempt attempts s a h e le all floats back = absurd (omega arith)
  reply_value (suc n) (suc left) attempt attempts s a h e le all floats back =
      let (c, ce, ct) = limited_code attempt all.0 in
      let (d, de) = float_delay s.backoff attempt (random attempt) h floats.0 in
      let next : attempt + suc n ≡ attempt + 1 + n = omega arith in
      ap (λ r. r.0)
        (round_again R H task call random (suc left) attempt attempts s c d ce ct (ground arith) de)
      ∙ reply_value n left (attempt + 1) attempts (log_delay R H task call random s d) a
          (omega arith) (omega arith) (omega arith) all.1 floats.1 (rw next at back)

  -- With at least one attempt, however the vendor answers, a dispatch gives its slot back, leaves
  -- quota and limit alone, and waits fewer times than it has attempts and never longer than the
  -- maximum; either every attempt was rate limited by a 429 or a 503 and the task is parked at the
  -- end of the queue, or an attempt was not, or a delay raised OverflowError, and the queue is as
  -- it was.
  pub dispatch_leaves :
      (s : Scheduler R H) (attempts : ℕ)
      → 1 ≤ attempts
      → let (reply, s') = dispatch_with_backoff R H task call random s attempts in
        (s'.running_count ≡ s.running_count)
        × (s'.quota ≡ s.quota)
        × (s'.max_concurrent ≡ s.max_concurrent)
        × Fate R H task call random
            (AllLimited R H task call random attempts 1)
            attempts
            s.queue
            reply
            s'.queue
        × ((waits : List R.Real) × (s'.backoff_log ≡ s.backoff_log ++ waits)
            × (length waits < attempts)
            × All (λ d. R.leq d s.backoff.max_seconds ≡ true) waits)
  unfolding dispatch_with_backoff
  dispatch_leaves s zero h = absurd (omega arith)
  dispatch_leaves s (suc left) h =
      let p =
        try_from-Leaves R H task call random left 1 (suc left) (enter R H s) (omega arith)
          (omega arith) in
      rw (not_below_one left) (
        rw p.running (+ℤ-ℤ_cancel s.running_count (pos 1)),
        p.quota,
        p.limit,
        p.fate,
        (p.waits, p.logged, p.few, p.bounded),
      )

  -- A vendor that limits the rate n times and then answers, within the attempts, is answered for,
  -- where the powers of two that belong to the first n attempts have floats.
  pub dispatch_recovers :
      (s : Scheduler R H) (attempts n : ℕ) (a : A)
      → n < attempts
      → AllLimited R H task call random n 1
      → HaveFloats n 1
      → call (1 + n) ≡ returned a
      → (dispatch_with_backoff R H task call random s attempts).0 ≡ value a
  unfolding dispatch_with_backoff
  dispatch_recovers s zero n a h all floats back = absurd (omega arith)
  dispatch_recovers s (suc left) n a h all floats back = rw (not_below_one left) (
      reply_value n left 1 (suc left) (enter R H s) a (omega arith) (omega arith) (omega arith) all
        floats back)
