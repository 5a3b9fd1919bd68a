-- ===== src/Base/Sort.antt =====
-- `sorted` and `list.sort` by a key: a stable insertion sort, and the least element that it puts first.
use mathlib.Core.Path.{◌≡◌, refl}
use mathlib.Core.Bool.{Bool, true}
use mathlib.Core.List.{List, [], ◌∷◌}
use mathlib.Core.Option.{Option, none, some}
use mathlib.Core.Logic.{◌⊎◌, inl, inr}
use native.Mathlib.Omega.{arith}
use agentic_agnostic_orchest.Base.Tests.{if◌then◌else◌, Bool-cases}
use agentic_agnostic_orchest.Base.Lists.{All, weaken-All, Among}

-- `xs[0]`, if there is one
unfoldable pub first {ℓ} : {A : Type ℓ} → List A → Option A
first [] = none
first (x ∷ xs) = some x

module _ {A : Type 0} (leq : A → A → Bool) where
  unfoldable pub insert_by : A → List A → List A
  insert_by a [] = a ∷ []
  insert_by a (b ∷ bs) = if leq a b then a ∷ b ∷ bs else b ∷ insert_by a bs

  -- Equal keys keep their order.
  unfoldable pub sort_by : List A → List A
  unfolding insert_by
  sort_by [] = []
  sort_by (a ∷ rest) = insert_by a (sort_by rest)

  -- `o` is the first of the least elements of `xs`, if there is one.
  abbrev pub Best : Option A → List A → Type 0
  Best none xs = xs ≡ []
  Best (some a) xs = Among a xs × All (λ b. leq a b ≡ true) xs

  Among-insert_of : (x a : A) (xs : List A) → (x ≡ a) ⊎ Among x xs → Among x (insert_by a xs)
  unfolding insert_by
  Among-insert_of x a [] m = m
  Among-insert_of x a (b ∷ bs) m = elim (Bool-cases (leq a b)) [
    | inl before ↦ rw before m
    | inr after ↦ rw after (later m (Among-insert_of x a bs))
  ]
    where
      later :
          (x ≡ a) ⊎ ((x ≡ b) ⊎ Among x bs)
          → ((x ≡ a) ⊎ Among x bs → Among x (insert_by a bs))
          → (x ≡ b) ⊎ Among x (insert_by a bs)
      later (inl e) f = inr (f (inl e))
      later (inr (inl e)) f = inl e
      later (inr (inr n)) f = inr (f (inr n))

  Among-insert : (x a : A) (xs : List A) → Among x (insert_by a xs) → (x ≡ a) ⊎ Among x xs
  unfolding insert_by
  Among-insert x a [] m = m
  Among-insert x a (b ∷ bs) m = elim (Bool-cases (leq a b)) [
    | inl before ↦ rw before at m
    | inr after ↦ earlier (rw after at m) (Among-insert x a bs)
  ]
    where
      earlier :
          (x ≡ b) ⊎ Among x (insert_by a bs)
          → (Among x (insert_by a bs) → (x ≡ a) ⊎ Among x bs)
          → (x ≡ a) ⊎ ((x ≡ b) ⊎ Among x bs)
      earlier (inl e) f = inr (inl e)
      earlier (inr n) f = elim (f n) [ inl e ↦ inl e | inr r ↦ inr (inr r) ]

  pub Among-sort : (x : A) (xs : List A) → Among x (sort_by xs) → Among x xs
  unfolding sort_by
  Among-sort x [] m = m
  Among-sort x (a ∷ rest) m = elim (Among-insert x a (sort_by rest) m) [
    | inl e ↦ inl e
    | inr n ↦ inr (Among-sort x rest n)
  ]

  pub Among-sort_of : (x : A) (xs : List A) → Among x xs → Among x (sort_by xs)
  unfolding sort_by
  Among-sort_of x [] m = m
  Among-sort_of x (a ∷ rest) (inl e) = Among-insert_of x a (sort_by rest) (inl e)
  Among-sort_of x (a ∷ rest) (inr n) =
      Among-insert_of x a (sort_by rest) (inr (Among-sort_of x rest n))

  module _ (total : (a b : A) → (leq a b ≡ true) ⊎ (leq b a ≡ true))
      (trans : (a b c : A) → leq a b ≡ true → leq b c ≡ true → leq a c ≡ true) where
    leq_self : (a : A) → leq a a ≡ true
    leq_self a = ground (arith, total a a)

    insert-Best :
        (a : A) (sorted xs : List A)
        → Best (first sorted) xs
        → Best (first (insert_by a sorted)) (a ∷ xs)
    unfolding first insert_by
    insert-Best a [] xs e = (inl refl, (leq_self a, rw e tt))
    insert-Best a (b ∷ bs) xs (m, least) = elim (Bool-cases (leq a b)) [
      | inl before ↦ rw before (
        inl refl,
        (
          leq_self a,
          weaken-All (λ c. leq b c ≡ true) (λ c. leq a c ≡ true) (λ c h. trans a b c before h) xs
              least,
        ),
      )
      | inr after ↦ rw after (inr m, (ground (arith, total a b), least))
    ]

    pub sort-Best : (xs : List A) → Best (first (sort_by xs)) xs
    unfolding sort_by
    sort-Best [] = unfold first in refl
    sort-Best (a ∷ xs) = insert-Best a (sort_by xs) xs (sort-Best xs)
