-- ===== src/Orchestration/Step/Attempts.antt =====
-- The loop of a step and its attempts.
use agentic_agnostic_orchest.Base.{
  subst, ℕ, zero, suc, ◌+◌, ◌≤◌, ◌<◌, ◌≡◌, refl, String, true, false, Option, none, some, leb,
  arith, Bool-cases, inl, inr, ◌⊎◌,
}
use agentic_agnostic_orchest.Orchestration.Step.{
  RetryPolicy, should_retry, Outcome, output, fails, StepResult, completed, failed, fallback,
  policy_of, attempt_from, finish_step, execute_step, after_failure, completed_with, failed_with,
}

outcome_cases : (o : Outcome) → ((x : String) × (o ≡ output x)) ⊎ ((m : String) × (o ≡ fails m))
outcome_cases (output x) = inl (x, refl)
outcome_cases (fails m) = inr (m, refl)

retry_is_early :
    (p : RetryPolicy) (n : ℕ) (msg : String) → should_retry p n msg ≡ true → n < p.max_attempts
unfolding should_retry
retry_is_early p n msg h = elim (Bool-cases (leb p.max_attempts n)) [
  | inl late ↦ absurd (cc (rw late at h))
  | inr early ↦ ground arith
]

fails_injective : (a b : String) → fails a ≡ fails b → a ≡ b
fails_injective a b q = cc q

module _ (call : ℕ → Outcome) where
  -- Every attempt after `n` and before `m` raised and was to be retried.
  abbrev pub AllRetried : RetryPolicy → ℕ → ℕ → Type 0
  AllRetried p n m =
      (k : ℕ)
      → n < k
      → k < m
      → (msg : String) × (call k ≡ fails msg) × (should_retry p k msg ≡ true)

  -- The last attempt `m` with its outcome, for a loop that had made `n`.
  pub record Last (p : RetryPolicy) (n m : ℕ) (o : Outcome) : Type 0 where
    pub later : n < m
    pub bounded : m ≤ p.max_attempts
    pub outcome : call m ≡ o
    pub retried : AllRetried p n m
    pub given_up : (msg : String) → o ≡ fails msg → should_retry p m msg ≡ false

  ends_at_once :
      (p : RetryPolicy) (n : ℕ) (o : Outcome)
      → n < p.max_attempts
      → call (n + 1) ≡ o
      → ((msg : String) → o ≡ fails msg → should_retry p (n + 1) msg ≡ false)
      → Last p n (n + 1) o
  ends_at_once p n o h e g = record {
    later = omega arith;
    bounded = omega arith;
    outcome = e;
    retried = λ k a b. absurd (omega arith);
    given_up = g;
  }

  goes_on :
      (p : RetryPolicy) (n m : ℕ) (o : Outcome) (msg : String)
      → Last p (n + 1) m o
      → call (n + 1) ≡ fails msg
      → should_retry p (n + 1) msg ≡ true
      → Last p n m o
  goes_on p n m o msg l e again = record {
    later = omega (arith, l.later);
    bounded = l.bounded;
    outcome = l.outcome;
    retried = λ k a b. elim (Bool-cases (leb k (n + 1))) [
      | inl old ↦
          let same : n + 1 ≡ k = ground arith in
          (
            msg,
            subst (λ j. call j ≡ fails msg) same e,
            subst (λ j. should_retry p j msg ≡ true) same again,
          )
      | inr new ↦ l.retried k (ground arith) b
    ];
    given_up = l.given_up;
  }

  attempt_from-Last :
      (p : RetryPolicy) (fuel n : ℕ)
      → n < p.max_attempts
      → p.max_attempts ≤ n + fuel
      → (m : ℕ) × (o : Outcome) × (attempt_from call p fuel n ≡ some (m, o)) × Last p n m o
  unfolding attempt_from
  attempt_from-Last p zero n h enough = absurd (omega arith)
  attempt_from-Last p (suc fuel) n h enough = elim (outcome_cases (call (n + 1))) [
    | inl (x, e) ↦
        (n + 1, output x, rw (e, attempt_from) refl, ends_at_once p n _ h e (λ msg q. cc q))
    | inr (msg, e) ↦ elim (Bool-cases (should_retry p (n + 1) msg)) [
      | inl again ↦
          let (m, o, r, l) =
            attempt_from-Last p fuel (n + 1) (retry_is_early p (n + 1) msg again) (omega arith) in
          (m, o, rw (e, attempt_from, again) r, goes_on p n m o msg l e again)
      | inr enough_now ↦ (
        n + 1,
        fails msg,
        rw (e, attempt_from, enough_now) refl,
        ends_at_once p n _ h e (λ m q.
            subst (λ z. should_retry p (n + 1) z ≡ false) (fails_injective msg m q) enough_now),
      )
    ]
  ]

  -- How a step ended, by its result.
  pub record StepEnds (p : RetryPolicy) (alternative : Option Outcome) (r : StepResult)
      : Type 0 where
    pub tried : 1 ≤ r.attempts
    pub bounded : r.attempts ≤ p.max_attempts
    pub retried : AllRetried p 0 r.attempts
    pub ended :
        ((x : String) × (call r.attempts ≡ output x) × (r.status ≡ completed) × (r.result ≡ some x))
        ⊎ ((msg : String) × (call r.attempts ≡ fails msg)
            × (should_retry p r.attempts msg ≡ false)
            × (((y : String) × (alternative ≡ some (output y))
                  × (r.status ≡ fallback)
                  × (r.result ≡ some y))
                ⊎ (r.status ≡ failed) × (r.result ≡ none)))

  finish-StepEnds :
      (p : RetryPolicy) (alternative : Option Outcome) (m : ℕ) (o : Outcome)
      → Last p 0 m o
      → StepEnds p alternative (finish_step call alternative (m, o))
  unfolding finish_step after_failure completed_with failed_with
  finish-StepEnds p alternative m (output x) l = record {
    tried = omega (arith, l.later);
    bounded = l.bounded;
    retried = l.retried;
    ended = inl (x, l.outcome, refl, refl);
  }
  finish-StepEnds p none m (fails msg) l = record {
    tried = omega (arith, l.later);
    bounded = l.bounded;
    retried = l.retried;
    ended = inr (msg, l.outcome, l.given_up msg refl, inr (refl, refl));
  }
  finish-StepEnds p (some (output y)) m (fails msg) l = record {
    tried = omega (arith, l.later);
    bounded = l.bounded;
    retried = l.retried;
    ended = inr (msg, l.outcome, l.given_up msg refl, inl (y, refl, refl, refl));
  }
  finish-StepEnds p (some (fails e)) m (fails msg) l = record {
    tried = omega (arith, l.later);
    bounded = l.bounded;
    retried = l.retried;
    ended = inr (msg, l.outcome, l.given_up msg refl, inr (refl, refl));
  }

  -- With at least one attempt and as much fuel as attempts, a step ends after at most the
  -- attempts of its policy, each but the last raised and was to be retried, and its status says
  -- how the last one or the fallback ended: completed with the output, fallback with the
  -- fallback's output, or failed.
  pub step_ends :
      (fuel : ℕ) (retry : Option RetryPolicy) (alternative : Option Outcome)
      → 1 ≤ (policy_of retry).max_attempts
      → (policy_of retry).max_attempts ≤ fuel
      → (r : StepResult) × (execute_step call fuel retry alternative ≡ some r)
        × StepEnds (policy_of retry) alternative r
  unfolding execute_step
  step_ends fuel retry alternative some_try enough =
      let (m, o, r, l) = attempt_from-Last (policy_of retry) fuel 0 (omega arith) (omega arith) in
      (
        finish_step call alternative (m, o),
        rw (r, execute_step) refl,
        finish-StepEnds (policy_of retry) alternative m o l,
      )
