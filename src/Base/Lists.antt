-- ===== src/Base/Lists.antt =====
-- Lists measured by native numbers and searched by Boolean tests, with predicates by recursion.
use Prim.Native.Nat.{ℕ, suc, ◌+◌, ◌≤◌}
use mathlib.Core.Path.{◌≡◌, refl, sym, subst}
use mathlib.Core.Bool.{Bool, true, false, ◌||◌, ◌&&◌}
use mathlib.Core.List.{List, [], ◌∷◌, ◌++◌, map}
use mathlib.Core.Option.{Option, none, some}
use native.Mathlib.Omega.{arith}
use agentic_agnostic_orchest.Base.Tests.{if◌then◌else◌, Bool-cases}
use mathlib.Core.Logic.{◌⊎◌, inl, inr}

module _ {ℓ} {A : Type ℓ} where
  abbrev pub length : List A → ℕ
  length [] = 0
  length (x ∷ xs) = suc (length xs)

  -- `[x for x in xs if p(x)]`
  abbrev pub filter : (A → Bool) → List A → List A
  filter p [] = []
  filter p (x ∷ xs) = if p x then x ∷ filter p xs else filter p xs

  abbrev pub any : (A → Bool) → List A → Bool
  any p [] = false
  any p (x ∷ xs) = p x || any p xs

  abbrev pub all : (A → Bool) → List A → Bool
  all p [] = true
  all p (x ∷ xs) = p x && all p xs

  abbrev pub find : (A → Bool) → List A → Option A
  find p [] = none
  find p (x ∷ xs) = if p x then some x else find p xs

  abbrev pub All {κ} : (A → Type κ) → List A → Type κ
  All P [] = Unit
  All P (x ∷ xs) = P x × All P xs

  pub length-append : (xs ys : List A) → length (xs ++ ys) ≡ length xs + length ys
  length-append [] ys = omega arith
  length-append (x ∷ xs) ys = omega (arith, length-append xs ys)

  pub length-filter : (p : A → Bool) (xs : List A) → length (filter p xs) ≤ length xs
  length-filter p [] = omega arith
  length-filter p (x ∷ xs) = ground (arith, length-filter p xs)

pub weaken-All {ℓ κ μ} :
    {A : Type ℓ} (P : A → Type κ) (Q : A → Type μ)
    → ((x : A) → P x → Q x)
    → (xs : List A) → All P xs
    → All Q xs
weaken-All P Q f [] h = tt
weaken-All P Q f (x ∷ xs) h = (f x h.0, weaken-All P Q f xs h.1)

pub All-map {ℓ κ μ} :
    {A : Type ℓ} {B : Type κ} (f : A → B) (P : B → Type μ) (xs : List A)
    → All (λ x. P (f x)) xs
    → All P (map f xs)
All-map f P [] h = tt
All-map f P (x ∷ xs) h = (h.0, All-map f P xs h.1)

-- Membership by recursion.
abbrev pub Among : {A : Type 0} → A → List A → Type 0
Among a [] = ⊥
Among a (x ∷ xs) = (a ≡ x) ⊎ Among a xs

module _ {A : Type 0} (p : A → Bool) where
  pub Among-filter : (a : A) (xs : List A) → Among a (filter p xs) → Among a xs × (p a ≡ true)
  Among-filter a [] m = absurd m
  Among-filter a (x ∷ xs) m = elim (Bool-cases (p x)) [
    | inl keep ↦ elim (rw keep at m) [
      | inl e ↦ (inl e, rw e keep)
      | inr r ↦ let (m', k) = Among-filter a xs r in (inr m', k)
    ]
    | inr drop ↦ let (m', k) = Among-filter a xs (rw drop at m) in (inr m', k)
  ]

  pub Among-filter_of : (a : A) (xs : List A) → Among a xs → p a ≡ true → Among a (filter p xs)
  Among-filter_of a [] m h = absurd m
  Among-filter_of a (x ∷ xs) (inl e) h = rw (← e, h) (inl refl)
  Among-filter_of a (x ∷ xs) (inr m) h = elim (Bool-cases (p x)) [
    | inl keep ↦ rw keep (inr (Among-filter_of a xs m h))
    | inr drop ↦ rw drop (Among-filter_of a xs m h)
  ]

pub All-Among {κ} :
    {A : Type 0} (P : A → Type κ) (a : A) (xs : List A) → All P xs → Among a xs → P a
All-Among P a [] h m = absurd m
All-Among P a (x ∷ xs) h (inl e) = subst P (sym e) h.0
All-Among P a (x ∷ xs) h (inr m) = All-Among P a xs h.1 m
