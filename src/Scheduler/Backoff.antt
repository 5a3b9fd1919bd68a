-- ===== src/Scheduler/Backoff.antt =====
-- control-plane/scheduler/backoff.py: exponential delay with bounded jitter. `random` is what the
-- generator's `random()` answers.
use agentic_agnostic_orchest.Base.{
  ℕ, ◌-◌, ◌^◌, ◌≡◌, ◌≤◌, true, false, Option, none, some, arith, ltb, if◌then◌else◌, Bool-cases,
  Option-cases, ◌⊎◌, refl, inl, inr,
}
use agentic_agnostic_orchest.Scheduler.Reals.{Reals, min_r, min_r-leq_left, min_r_greatest}

pub record BackoffPolicy (R : Reals) : Type 0 where
  pub base_seconds : R.Real
  pub max_seconds : R.Real
  pub jitter_ratio : R.Real

-- What `delay` does: it answers a delay, or it raises the ValueError of an attempt below 1 or the
-- OverflowError of a conversion.
pub data Delay (R : Reals) : Type 0 where
  seconds : R.Real → Delay R
  below_one : Delay R
  overflow : Delay R

lt_one_false : (n : ℕ) → 1 ≤ n → ltb n 1 ≡ false
lt_one_false n h = ground arith

module _ (R : Reals) where
  open R use {
    Real, zero_r, of_nat, add, mul, leq, leq_refl, leq_trans, leq_total, add_grows, mul_nonneg,
    of_nat_nonneg,
  }

  -- `min(self.max_seconds, self.base_seconds * (2 ** (attempt - 1)))`; `none` is the OverflowError of
  -- a power that has no float.
  unfoldable pub base_delay : BackoffPolicy R → ℕ → Option Real
  base_delay p attempt = elim (of_nat (2 ^ (attempt - 1))) [
    | none ↦ none
    | some power ↦ some (min_r R p.max_seconds (mul p.base_seconds power))
  ]

  unfoldable pub jittered : BackoffPolicy R → Real → Real → Real
  jittered p base random =
      if leq p.jitter_ratio zero_r
      then base
      else min_r R p.max_seconds (add base (mul (mul base p.jitter_ratio) random))

  unfoldable pub delay : BackoffPolicy R → ℕ → Real → Delay R
  unfolding base_delay jittered
  delay p attempt random = if ltb attempt 1 then below_one else (elim (base_delay p attempt) [
    | none ↦ overflow
    | some base ↦ seconds (jittered p base random)
  ])

  base_delay-cases :
      (p : BackoffPolicy R) (attempt : ℕ)
      → (of_nat (2 ^ (attempt - 1)) ≡ none) × (base_delay p attempt ≡ none)
        ⊎ ((x : Real) × (of_nat (2 ^ (attempt - 1)) ≡ some x)
            × (base_delay p attempt ≡ some (min_r R p.max_seconds (mul p.base_seconds x))))
  unfolding base_delay
  base_delay-cases p attempt = elim (Option-cases (of_nat (2 ^ (attempt - 1)))) [
    | inl e ↦ inl (e, rw (e, base_delay) refl)
    | inr (x, e) ↦ inr (x, e, rw (e, base_delay) refl)
  ]

  delay_overflow :
      (p : BackoffPolicy R) (attempt : ℕ) (random : Real)
      → 1 ≤ attempt
      → base_delay p attempt ≡ none
      → delay p attempt random ≡ overflow
  unfolding delay
  delay_overflow p attempt random h e = rw (lt_one_false attempt h, e, delay) refl

  delay_seconds :
      (p : BackoffPolicy R) (attempt : ℕ) (random b : Real)
      → 1 ≤ attempt
      → base_delay p attempt ≡ some b
      → delay p attempt random ≡ seconds (jittered p b random)
  unfolding delay
  delay_seconds p attempt random b h e = rw (lt_one_false attempt h, e, delay) refl

  jittered-leq-max :
      (p : BackoffPolicy R) (b random : Real)
      → leq b p.max_seconds ≡ true
      → leq (jittered p b random) p.max_seconds ≡ true
  unfolding jittered
  jittered-leq-max p b random h = elim (Bool-cases (leq p.jitter_ratio zero_r)) [
    | inl plain ↦ rw plain h
    | inr shaken ↦ rw shaken (min_r-leq_left R p.max_seconds _)
  ]

  leq-jittered :
      (p : BackoffPolicy R) (b random : Real)
      → leq b p.max_seconds ≡ true
      → leq zero_r b ≡ true
      → leq zero_r random ≡ true
      → leq b (jittered p b random) ≡ true
  unfolding jittered
  leq-jittered p b random h z r = elim (Bool-cases (leq p.jitter_ratio zero_r)) [
    | inl plain ↦ rw plain (leq_refl b)
    | inr shaken ↦ rw shaken (
        min_r_greatest R b p.max_seconds _ h
          (add_grows _ _ (mul_nonneg _ _ (mul_nonneg _ _ z (positive shaken)) r)))
  ]
    where
      positive : leq p.jitter_ratio zero_r ≡ false → leq zero_r p.jitter_ratio ≡ true
      positive e = ground (arith, leq_total p.jitter_ratio zero_r)

  -- For an attempt from 1 on, and a maximum, a base and a draw that are not negative: if the power
  -- of two that belongs to the attempt has no float, delay raises OverflowError; otherwise the
  -- delay without jitter exists, and delay answers a delay that is at least that one and at most
  -- the maximum.
  pub delay_bounds :
      (p : BackoffPolicy R) (attempt : ℕ) (random : Real)
      → 1 ≤ attempt
      → leq zero_r p.base_seconds ≡ true
      → leq zero_r p.max_seconds ≡ true
      → leq zero_r random ≡ true
      → (of_nat (2 ^ (attempt - 1)) ≡ none) × (delay p attempt random ≡ overflow)
        ⊎ ((b : Real) × (d : Real) × (base_delay p attempt ≡ some b)
            × (delay p attempt random ≡ seconds d)
            × (leq b d ≡ true)
            × (leq d p.max_seconds ≡ true))
  delay_bounds p attempt random h b m r = elim (base_delay-cases p attempt) [
    | inl (e, f) ↦ inl (e, delay_overflow p attempt random h f)
    | inr (x, e, f) ↦
        let base : Real = min_r R p.max_seconds (mul p.base_seconds x) in
        let top : leq base p.max_seconds ≡ true = min_r-leq_left R p.max_seconds _ in
        let sign : leq zero_r base ≡ true =
          min_r_greatest R zero_r p.max_seconds _ m (mul_nonneg _ _ b (of_nat_nonneg _ x e)) in
        inr (
          base,
          jittered p base random,
          f,
          delay_seconds p attempt random base h f,
          leq-jittered p base random top sign r,
          jittered-leq-max p base random top,
        )
  ]

  -- With no assumption on the signs, a delay that exists stays below the maximum.
  pub delay-leq-max :
      (p : BackoffPolicy R) (attempt : ℕ) (random : Real)
      → 1 ≤ attempt
      → (of_nat (2 ^ (attempt - 1)) ≡ none) × (delay p attempt random ≡ overflow)
        ⊎ ((d : Real) × (delay p attempt random ≡ seconds d) × (leq d p.max_seconds ≡ true))
  delay-leq-max p attempt random h = elim (base_delay-cases p attempt) [
    | inl (e, f) ↦ inl (e, delay_overflow p attempt random h f)
    | inr (x, e, f) ↦
        let base : Real = min_r R p.max_seconds (mul p.base_seconds x) in
        inr (
          jittered p base random,
          delay_seconds p attempt random base h f,
          jittered-leq-max p base random (min_r-leq_left R p.max_seconds _),
        )
  ]
