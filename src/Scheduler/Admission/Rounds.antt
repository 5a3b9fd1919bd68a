-- ===== src/Scheduler/Admission/Rounds.antt =====
-- The rounds of `dispatch_with_backoff`: what each does, and what those from one attempt on leave
-- behind.
use mathlib.Core.List.{append-nil, append_assoc}
use agentic_agnostic_orchest.Base.{
  ℕ, zero, suc, ◌+◌, ◌≤◌, ◌<◌, ◌≡◌, refl, Bool, true, false, List, [], ◌∷◌, ◌++◌, arith, String,
  ltb, eqb, Bool-cases, inl, inr, ◌⊎◌, length, All, ap, sym, ◌∙◌, ◌||◌,
}
use agentic_agnostic_orchest.Core.{TaskEnvelope}
use agentic_agnostic_orchest.Scheduler.Reals.{Reals}
use agentic_agnostic_orchest.Scheduler.Backoff.{delay, delay-leq-max, seconds, overflow}
use agentic_agnostic_orchest.Scheduler.Quota.{RedisHash}
use agentic_agnostic_orchest.Scheduler.Admission.{
  rate_limited_after, ScheduledTask, Scheduler, Outcome, returned, rate_limited, raised, Reply,
  value, gave_up, raises_rate_limit, raises, overflow_error, give_up, log_delay, try_from,
  seat_seconds_or_zero,
}

abbrev pub retryable : ℕ → Bool
retryable code = eqb code 429 || eqb code 503

-- The task as `dispatch_with_backoff` parks it.
abbrev pub parked : TaskEnvelope → ℕ → ScheduledTask
parked task attempts = record {
  task = task;
  vendor = task.assignee_runtime;
  estimated_burn_seconds = seat_seconds_or_zero task;
  reason = rate_limited_after attempts;
}

retryable_codes : (c : ℕ) → retryable c ≡ true → (c ≡ 429) ⊎ (c ≡ 503)
retryable_codes c h = ground arith

pub not_below_one : (n : ℕ) → ltb (suc n) 1 ≡ false
not_below_one n = ground arith

module _ (R : Reals) (H : RedisHash) {A : Type 0} (task : TaskEnvelope) (call : ℕ → Outcome A)
    (random : ℕ → R.Real) where
  abbrev pub IsLimited : ℕ → Type 0
  IsLimited attempt = (call attempt ≡ rate_limited 429) ⊎ (call attempt ≡ rate_limited 503)

  -- The calls from `attempt` on, `n` of them, all meet a retryable rate limit.
  abbrev pub AllLimited : ℕ → ℕ → Type 0
  AllLimited zero attempt = Unit
  AllLimited (suc n) attempt = IsLimited attempt × AllLimited n (attempt + 1)

  -- What becomes of the task: every call was rate limited and the task is parked, or a call was not,
  -- or a delay has no float, and the queue is as it was.
  abbrev pub Fate : Type 0 → ℕ → List ScheduledTask → Reply A → List ScheduledTask → Type 0
  Fate limited attempts before reply after =
      limited × (reply ≡ gave_up) × (after ≡ before ++ parked task attempts ∷ [])
      ⊎ ((¬ limited) ⊎ (reply ≡ overflow_error)) × (after ≡ before)

  -- What the calls from `attempt` on leave behind, `left` of them at most: delays below the maximum,
  -- one fewer than calls, and the task's fate.
  pub record Leaves (attempts left attempt : ℕ) (s : Scheduler R H) (r : Reply A × Scheduler R H)
      : Type 0 where
    pub quota : r.1.quota ≡ s.quota
    pub limit : r.1.max_concurrent ≡ s.max_concurrent
    pub policy : r.1.backoff ≡ s.backoff
    pub running : r.1.running_count ≡ s.running_count
    pub waits : List R.Real
    pub logged : r.1.backoff_log ≡ s.backoff_log ++ waits
    pub bounded : All (λ d. R.leq d s.backoff.max_seconds ≡ true) waits
    pub few : length waits < left
    pub fate : Fate (AllLimited left attempt) attempts s.queue r.0 r.1.queue

  stop :
      (attempts left attempt : ℕ) (s : Scheduler R H) (r : Reply A)
      → (¬ IsLimited attempt) ⊎ (r ≡ overflow_error)
      → Leaves attempts (suc left) attempt s (r, s)
  stop attempts left attempt s r e = record {
    quota = refl;
    limit = refl;
    policy = refl;
    running = refl;
    waits = [];
    logged = sym (append-nil s.backoff_log);
    bounded = tt;
    few = omega arith;
    fate = inr (elim e [ inl free ↦ inl (λ all. free all.0) | inr late ↦ inr late ], refl);
  }

  give_up-Leaves :
      (attempts attempt : ℕ) (s : Scheduler R H)
      → IsLimited attempt
      → Leaves attempts 1 attempt s (give_up R H task call random attempts s)
  unfolding give_up
  give_up-Leaves attempts attempt s limited = record {
    quota = refl;
    limit = refl;
    policy = refl;
    running = refl;
    waits = [];
    logged = sym (append-nil s.backoff_log);
    bounded = tt;
    few = omega arith;
    fate = inl ((limited, tt), refl, refl);
  }

  later-Fate :
      (limited : Type 0) (attempts attempt : ℕ) (before after : List ScheduledTask) (r : Reply A)
      → IsLimited attempt
      → Fate limited attempts before r after
      → Fate (IsLimited attempt × limited) attempts before r after
  later-Fate limited attempts attempt before after r l (inl (all, f, q)) = inl ((l, all), f, q)
  later-Fate limited attempts attempt before after r l (inr (inl free, f)) =
      inr (inl (λ all. free all.1), f)
  later-Fate limited attempts attempt before after r l (inr (inr late, f)) = inr (inr late, f)

  wait-Leaves :
      (attempts left attempt : ℕ) (s : Scheduler R H) (d : R.Real) (r : Reply A × Scheduler R H)
      → IsLimited attempt
      → R.leq d s.backoff.max_seconds ≡ true
      → Leaves attempts left (attempt + 1) (log_delay R H task call random s d) r
      → Leaves attempts (suc left) attempt s r
  unfolding log_delay
  wait-Leaves attempts left attempt s d r l le h = record {
    quota = h.quota;
    limit = h.limit;
    policy = h.policy;
    running = h.running;
    waits = d ∷ h.waits;
    logged = h.logged ∙ append_assoc s.backoff_log (d ∷ []) h.waits;
    bounded = (le, h.bounded);
    few = omega (arith, h.few);
    fate =
        later-Fate (AllLimited left (attempt + 1)) attempts attempt s.queue r.1.queue r.0 l h.fate;
  }

  -- One round of the loop, by what the vendor does.
  module _ (left attempt attempts : ℕ) (s : Scheduler R H) where
    abbrev pub round : Reply A × Scheduler R H
    round = try_from R H task call random (suc left) attempt attempts s

    pub round_answers : (a : A) → call attempt ≡ returned a → round ≡ (value a, s)
    unfolding try_from
    round_answers a e = rw (e, try_from)

    round_raised : (x : String) → call attempt ≡ raised x → round ≡ (raises x, s)
    unfolding try_from
    round_raised x e = rw (e, try_from)

    round_other :
        (c : ℕ)
        → call attempt ≡ rate_limited c
        → retryable c ≡ false
        → round ≡ (raises_rate_limit c, s)
    unfolding try_from
    round_other c e h = rw (e, try_from) (rw h refl)

    pub round_last :
        (c : ℕ)
        → call attempt ≡ rate_limited c
        → retryable c ≡ true
        → attempt ≡ attempts
        → round ≡ give_up R H task call random attempts s
    unfolding try_from
    round_last c e h last = rw (e, try_from) (rw h (ground arith))

    pub round_again :
        (c : ℕ) (d : R.Real)
        → call attempt ≡ rate_limited c
        → retryable c ≡ true
        → eqb attempt attempts ≡ false
        → delay R s.backoff attempt (random attempt) ≡ seconds d
        → round
          ≡ try_from R H task call random left
              (attempt + 1)
              attempts
              (log_delay R H task call random s d)
    unfolding try_from
    round_again c d e h more de = rw (e, try_from) (rw (h, more, de) refl)

    round_overflow :
        (c : ℕ)
        → call attempt ≡ rate_limited c
        → retryable c ≡ true
        → eqb attempt attempts ≡ false
        → delay R s.backoff attempt (random attempt) ≡ overflow
        → round ≡ (overflow_error, s)
    unfolding try_from
    round_overflow c e h more de = rw (e, try_from) (rw (h, more, de) refl)

    other_code : (c : ℕ) → call attempt ≡ rate_limited c → retryable c ≡ false → ¬ IsLimited attempt
    other_code c e h (inl f) = let same : c ≡ 429 = cc (e, f) in cc (rw same at h)
    other_code c e h (inr f) = let same : c ≡ 503 = cc (e, f) in cc (rw same at h)

    code-IsLimited :
        (c : ℕ) → call attempt ≡ rate_limited c → retryable c ≡ true → IsLimited attempt
    code-IsLimited c e h = elim (retryable_codes c h) [
      | inl same ↦ inl (e ∙ ap rate_limited same)
      | inr same ↦ inr (e ∙ ap rate_limited same)
    ]

    -- What holds after a stop, after the last attempt and after a wait holds after the round.
    round_cases :
        (P : Reply A × Scheduler R H → Type 0)
        → 1 ≤ attempt
        → ((r : Reply A) → (¬ IsLimited attempt) ⊎ (r ≡ overflow_error) → P (r, s))
        → (IsLimited attempt → attempt ≡ attempts → P (give_up R H task call random attempts s))
        → (IsLimited attempt
            → (d : R.Real) → R.leq d s.backoff.max_seconds ≡ true
            → eqb attempt attempts ≡ false
            → P (
                try_from R H task call random left
                  (attempt + 1)
                  attempts
                  (log_delay R H task call random s d)))
        → P round
    round_cases P h stops last waits = go (call attempt) refl
      where
        go_on :
            (c : ℕ)
            → call attempt ≡ rate_limited c
            → retryable c ≡ true
            → eqb attempt attempts ≡ false
            → P round
        go_on c e retry more = elim (delay-leq-max R s.backoff attempt (random attempt) h) [
          | inl (_, late) ↦
              rw (round_overflow c e retry more late) (stops overflow_error (inr refl))
          | inr (d, de, dle) ↦
              rw (round_again c d e retry more de) (waits (code-IsLimited c e retry) d dle more)
        ]

        limited : (c : ℕ) → call attempt ≡ rate_limited c → P round
        limited c e = elim (Bool-cases (retryable c)) [
          | inr other ↦
              rw (round_other c e other) (stops (raises_rate_limit c) (inl (other_code c e other)))
          | inl retry ↦ elim (Bool-cases (eqb attempt attempts)) [
            | inl done ↦
                let same : attempt ≡ attempts = ground arith in
                rw (round_last c e retry same) (last (code-IsLimited c e retry) same)
            | inr more ↦ go_on c e retry more
          ]
        ]

        go : (o : Outcome A) → call attempt ≡ o → P round
        go (returned a) e =
            rw (round_answers a e)
              (stops (value a) (inl (λ l. elim l [ inl f ↦ cc (e, f) | inr f ↦ cc (e, f) ])))
        go (raised x) e =
            rw (round_raised x e)
              (stops (raises x) (inl (λ l. elim l [ inl f ↦ cc (e, f) | inr f ↦ cc (e, f) ])))
        go (rate_limited c) e = limited c e

  pub try_from-Leaves :
      (left attempt attempts : ℕ) (s : Scheduler R H)
      → 1 ≤ attempt
      → attempt + left ≡ attempts
      → Leaves attempts (suc left) attempt s (round left attempt attempts s)
  try_from-Leaves zero attempt attempts s h e =
      round_cases zero attempt attempts s (Leaves attempts 1 attempt s) h
        (stop attempts 0 attempt s) (λ l _. give_up-Leaves attempts attempt s l)
        (λ l d le more. absurd (ground arith))
  try_from-Leaves (suc left) attempt attempts s h e =
      round_cases (suc left) attempt attempts s (Leaves attempts (suc (suc left)) attempt s) h
        (stop attempts (suc left) attempt s) (λ l same. absurd (omega (arith, e, same)))
        (λ l d le more. wait-Leaves attempts (suc left) attempt s d _ l le (
          try_from-Leaves left (attempt + 1) attempts (log_delay R H task call random s d)
            (omega arith) (omega arith)))
