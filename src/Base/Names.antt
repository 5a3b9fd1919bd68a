-- ===== src/Base/Names.antt =====
-- Lists of names: membership, counting, repetition and what a list misses of another.
use Prim.Native.Nat.{ℕ, zero, suc, ◌+◌, ◌≤◌, ◌<◌}
use Prim.Native.String.{String}
use mathlib.Core.Path.{◌≡◌, refl, ap, subst}
use mathlib.Core.Logic.{inl, inr, ◌≢◌}
use mathlib.Core.Bool.{Bool, true, false, ◌||◌}
use mathlib.Core.List.{List, [], ◌∷◌, ◌++◌}
use native.Mathlib.Omega.{arith}
use agentic_agnostic_orchest.Base.Tests.{if◌then◌else◌, Bool-cases}
use agentic_agnostic_orchest.Base.Lists.{length, any}
use agentic_agnostic_orchest.Base.Text.{◌==◌, eq_iff, eq_refl}

-- `x in xs`
abbrev pub member : String → List String → Bool
member x xs = any (λ y. y == x) xs

abbrev pub count : String → List String → ℕ
count x [] = 0
count x (y ∷ ys) = if y == x then suc (count x ys) else count x ys

abbrev pub IsDistinct : List String → Type 0
IsDistinct [] = Unit
IsDistinct (x ∷ xs) = (member x xs ≡ false) × IsDistinct xs

-- Every name of `xs` is in `ys`.
abbrev pub IsWithin : List String → List String → Type 0
IsWithin xs ys = (x : String) → member x xs ≡ true → member x ys ≡ true

-- How many names of `xs` are not in `seen`
abbrev pub missing : List String → List String → ℕ
missing seen [] = 0
missing seen (x ∷ xs) = if member x seen then missing seen xs else suc (missing seen xs)

-- The first occurrence taken out
abbrev pub without : String → List String → List String
without x [] = []
without x (y ∷ ys) = if y == x then ys else y ∷ without x ys

pub member-append :
    (x : String) (xs ys : List String) → member x (xs ++ ys) ≡ (member x xs || member x ys)
member-append x [] ys = refl
member-append x (y ∷ xs) ys = ground (arith, member-append x xs ys)

pub count_positive : (x : String) (xs : List String) → member x xs ≡ true → 0 < count x xs
count_positive x [] h = absurd (cc h)
count_positive x (y ∷ ys) h = ground (arith, count_positive x ys)

pub count_absent : (x : String) (xs : List String) → member x xs ≡ false → count x xs ≡ 0
count_absent x [] h = refl
count_absent x (y ∷ ys) h = ground (arith, count_absent x ys)

pub missing_nothing :
    (seen xs : List String) (x : String)
    → missing seen xs ≡ 0
    → member x xs ≡ true
    → member x seen ≡ true
missing_nothing seen [] x e h = absurd (cc h)
missing_nothing seen (y ∷ ys) x e h = elim (Bool-cases (member y seen)) [
  | inl seen_y ↦ elim (Bool-cases (y == x)) [
    | inl same ↦ subst (λ z. member z seen ≡ true) ((eq_iff y x).0 same) seen_y
    | inr other ↦ missing_nothing seen ys x (ground arith) (ground arith)
  ]
  | inr new ↦ absurd (ground arith)
]

-- Something is missing: the name that is.
pub missing_some :
    (seen xs : List String)
    → 0 < missing seen xs
    → (x : String) × (member x xs ≡ true) × (member x seen ≡ false)
missing_some seen [] h = absurd (omega arith)
missing_some seen (y ∷ ys) h = elim (Bool-cases (member y seen)) [
  | inl old ↦ let (x, m, a) = missing_some seen ys (ground arith) in (x, ground arith, a)
  | inr new ↦ (y, ground (arith, eq_refl y), new)
]

pub missing_all : (xs : List String) → missing [] xs ≡ length xs
missing_all [] = refl
missing_all (x ∷ xs) = ap suc (missing_all xs)

-- A name that is seen now leaves its occurrences out of what is missing.
pub missing_seen :
    (d : String) (seen xs : List String)
    → member d seen ≡ false
    → missing (d ∷ seen) xs + count d xs ≡ missing seen xs
missing_seen d seen [] h = refl
missing_seen d seen (x ∷ xs) h = elim (Bool-cases (d == x)) [
  | inl same ↦ ground (arith, missing_seen d seen xs h, eq_iff d x, eq_iff x d, eq_refl x, h)
  | inr other ↦ ground (arith, missing_seen d seen xs h, eq_iff d x, eq_iff x d)
]

without-member :
    (x y : String) (ys : List String) → y ≢ x → member y ys ≡ true → member y (without x ys) ≡ true
without-member x y [] ne m = absurd (cc m)
without-member x y (z ∷ zs) ne m = ground (arith, without-member x y zs ne, eq_iff z x, eq_iff z y)

length-without :
    (x : String) (ys : List String) → member x ys ≡ true → suc (length (without x ys)) ≡ length ys
length-without x [] m = absurd (cc m)
length-without x (y ∷ ys) m = ground (arith, length-without x ys)

-- Distinct names within a list are no more than the list has.
pub distinct_fit : (xs ys : List String) → IsDistinct xs → IsWithin xs ys → length xs ≤ length ys
distinct_fit [] ys d w = omega arith
distinct_fit (x ∷ xs) ys (absent, d) w =
    let here : member x ys ≡ true = w x (ground (arith, eq_refl x)) in
    let fit = distinct_fit xs (without x ys) d (λ y m.
      without-member x y ys (λ e. cc (subst (λ z. member z xs ≡ true) e m, absent))
        (w y (ground arith))) in
    omega (arith, length-without x ys here, fit)

pub count-append : (x : String) (xs ys : List String) → count x (xs ++ ys) ≡ count x xs + count x ys
count-append x [] ys = omega arith
count-append x (y ∷ xs) ys = ground (arith, count-append x xs ys)

pub member_of_count : (x : String) (xs : List String) → 0 < count x xs → member x xs ≡ true
member_of_count x xs h = elim (Bool-cases (member x xs)) [
  | inl m ↦ m
  | inr a ↦ absurd (omega (arith, count_absent x xs a))
]

pub counts-IsDistinct : (xs : List String) → ((x : String) → count x xs ≤ 1) → IsDistinct xs
counts-IsDistinct [] h = tt
counts-IsDistinct (x ∷ xs) h = (
  elim (Bool-cases (member x xs)) [
    | inl m ↦ absurd (ground (arith, h x, eq_refl x, count_positive x xs m))
    | inr a ↦ a
  ],
  counts-IsDistinct xs (λ y. ground (arith, h y)),
)

pub count_once : (x : String) (xs : List String) → IsDistinct xs → count x xs ≤ 1
count_once x [] d = omega arith
count_once x (y ∷ xs) (a, d) =
    ground (arith, count_once x xs d, count_absent y xs a, count_absent x xs, eq_iff y x)

-- As many distinct names as `ys` has, all of them in it, are all of it.
pub distinct_fill :
    (xs ys : List String) → IsDistinct xs → IsWithin xs ys → length ys ≤ length xs → IsWithin ys xs
distinct_fill xs ys d w h y m = elim (Bool-cases (member y xs)) [
  | inl met ↦ met
  | inr a ↦
      let fit =
        distinct_fit (y ∷ xs) ys (a, d)
          (λ z n. elim (Bool-cases (y == z)) [
            | inl same ↦ subst (λ v. member v ys ≡ true) ((eq_iff y z).0 same) m
            | inr other ↦ w z (ground arith)
          ]) in
      absurd (omega (arith, fit))
]

-- Fewer names than the distinct ones of `ys`: one of these is not among them.
pub one_left_out :
    (xs ys : List String)
    → IsDistinct ys
    → length xs < length ys
    → (y : String) × (member y ys ≡ true) × (member y xs ≡ false)
one_left_out xs ys d h = missing_some xs ys (some_missing (missing xs ys) refl)
  where
    some_missing : (n : ℕ) → missing xs ys ≡ n → 0 < missing xs ys
    some_missing zero e =
        let fit = distinct_fit ys xs d (λ y m. missing_nothing xs ys y e m) in
        absurd (omega (arith, fit))
    some_missing (suc n) e = omega (arith, e)

pub count_same :
    (xs ys : List String)
    → IsDistinct xs
    → IsDistinct ys
    → IsWithin xs ys
    → IsWithin ys xs
    → (v : String) → count v xs ≡ count v ys
count_same xs ys d e w u v = ground (
  arith,
  count_once v xs d,
  count_once v ys e,
  count_positive v xs,
  count_positive v ys,
  count_absent v xs,
  count_absent v ys,
  w v,
  u v,
  Bool-cases (member v xs),
  Bool-cases (member v ys),
)
