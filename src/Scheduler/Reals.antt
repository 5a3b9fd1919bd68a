-- ===== src/Scheduler/Reals.antt =====
-- The numbers that control-plane/scheduler/backoff.py computes with: Python's floats, without NaN,
-- as a parameter with the laws of rounding that the code relies on. The conversion of an int may fail.
use agentic_agnostic_orchest.Base.{
  ℕ, ◌+◌, ◌*◌, ◌≡◌, ◌⊎◌, Bool, true, Option, some, arith, leb, if◌then◌else◌, Bool-cases, inl, inr,
}

pub record Reals : Type 1 where
  pub Real : Type 0
  pub zero_r : Real
  -- `float(n)`; `none` is its OverflowError.
  pub of_nat : ℕ → Option Real
  pub add : Real → Real → Real
  pub mul : Real → Real → Real
  pub leq : Real → Real → Bool
  pub leq_refl : (x : Real) → leq x x ≡ true
  pub leq_trans : (x y z : Real) → leq x y ≡ true → leq y z ≡ true → leq x z ≡ true
  pub leq_total : (x y : Real) → (leq x y ≡ true) ⊎ (leq y x ≡ true)
  pub add_grows : (x y : Real) → leq zero_r y ≡ true → leq x (add x y) ≡ true
  pub mul_nonneg :
      (x y : Real) → leq zero_r x ≡ true → leq zero_r y ≡ true → leq zero_r (mul x y) ≡ true
  pub of_nat_nonneg : (n : ℕ) (x : Real) → of_nat n ≡ some x → leq zero_r x ≡ true

module _ (R : Reals) where
  open R use {Real, leq, leq_refl, leq_total}

  -- Python's `min(a, b)`, which answers `a` unless `b < a`.
  unfoldable pub min_r : Real → Real → Real
  min_r a b = if leq a b then a else b

  pub min_r-leq_left : (a b : Real) → leq (min_r a b) a ≡ true
  unfolding min_r
  min_r-leq_left a b = elim (Bool-cases (leq a b)) [
    | inl h ↦ rw h (leq_refl a)
    | inr h ↦ rw h (ground (arith, leq_total a b))
  ]

  pub min_r_greatest : (c a b : Real) → leq c a ≡ true → leq c b ≡ true → leq c (min_r a b) ≡ true
  unfolding min_r
  min_r_greatest c a b p q = elim (Bool-cases (leq a b)) [ inl h ↦ rw h p | inr h ↦ rw h q ]

-- The natural numbers, which have every law, for the examples.
pub leb_refl : (x : ℕ) → leb x x ≡ true
leb_refl x = ground arith

pub leb_trans : (x y z : ℕ) → leb x y ≡ true → leb y z ≡ true → leb x z ≡ true
leb_trans x y z p q = ground arith

pub leb_total : (x y : ℕ) → (leb x y ≡ true) ⊎ (leb y x ≡ true)
leb_total x y = ground arith

pub leb_add : (x y : ℕ) → leb 0 y ≡ true → leb x (x + y) ≡ true
leb_add x y p = ground arith

pub leb_mul : (x y : ℕ) → leb 0 x ≡ true → leb 0 y ≡ true → leb 0 (x * y) ≡ true
leb_mul x y p q = ground arith

pub leb_zero : (n x : ℕ) → some n ≡ some x → leb 0 x ≡ true
leb_zero n x e = ground arith

abbrev pub nat_reals : Reals
nat_reals = record {
  Real = ℕ;
  zero_r = 0;
  of_nat = λ n. some n;
  add = λ a b. a + b;
  mul = λ a b. a * b;
  leq = leb;
  leq_refl = leb_refl;
  leq_trans = leb_trans;
  leq_total = leb_total;
  add_grows = leb_add;
  mul_nonneg = leb_mul;
  of_nat_nonneg = leb_zero;
}
