-- ===== src/Rotation/Pool/Selection.antt =====
-- What `AccountPool.select_next` answers.
use agentic_agnostic_orchest.Base.{
  ℕ, ◌≡◌, String, Bool, true, false, Option, none, some, List, dict_values, Bool-cases, inl, inr,
  sort-Best, Best, subst, All-Among, Among, Among-filter, Among-filter_of, filter,
}
use agentic_agnostic_orchest.Rotation.Models.{Account}
use agentic_agnostic_orchest.Rotation.Pool.Order.{
  key_leq, key_leq_total, key_leq_trans, sort_accounts, Precedes, key_leq-Precedes,
}
use agentic_agnostic_orchest.Rotation.Pool.{AccountPool, is_candidate, select_next}

module _ (p : AccountPool) (vendor : Option String) (tenant : String) (now : ℕ)
    (exclude : List String) where
  -- What an answer of `select_next` means.
  abbrev pub Selects : Option Account → Type 0
  Selects none =
      (a : Account)
      → Among a (dict_values p.accounts)
      → is_candidate vendor tenant now exclude a ≡ false
  Selects (some a) =
      Among a (dict_values p.accounts)
      × (is_candidate vendor tenant now exclude a ≡ true)
      × ((b : Account)
          → Among b (dict_values p.accounts)
          → is_candidate vendor tenant now exclude b ≡ true
          → Precedes a b)

  -- select_next answers a registered candidate that comes no later than any other candidate by
  -- priority, then remaining quota, then id; it answers None only if there is no candidate.
  pub select_next-Selects : Selects (select_next p vendor tenant now exclude)
  unfolding select_next sort_accounts
  select_next-Selects =
      go _ (sort-Best key_leq key_leq_total key_leq_trans (filter candidate values))
    where
      candidate : Account → Bool
      candidate = is_candidate vendor tenant now exclude

      values : List Account
      values = dict_values p.accounts

      go : (o : Option Account) → Best key_leq o (filter candidate values) → Selects o
      go none e = λ a m. elim (Bool-cases (candidate a)) [
        | inl fits ↦ absurd (subst (Among a) e (Among-filter_of candidate a values m fits))
        | inr other ↦ other
      ]
      go (some a) (m, least) =
          let (m', c) = Among-filter candidate a values m in
          (
            m',
            c,
            λ b mb cb. key_leq-Precedes a b (
                All-Among (λ x. key_leq a x ≡ true) b (filter candidate values) least
                  (Among-filter_of candidate b values mb cb)),
          )
