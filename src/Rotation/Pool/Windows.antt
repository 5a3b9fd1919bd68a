-- ===== src/Rotation/Pool/Windows.antt =====
-- `AccountPool.refresh_windows`: what it does to each account.
use agentic_agnostic_orchest.Base.{
  ℕ, ◌≡◌, refl, String, true, none, some, [], ◌∷◌, Dict, get, IsUnique, arith, Bool-cases, inl, inr,
  ◌==◌,
}
use agentic_agnostic_orchest.Rotation.Models.{Account, available, leased, is_selectable}
use agentic_agnostic_orchest.Rotation.Pool.{refresh_account, refresh_accounts}

module _ (now : ℕ) where
  pub get-refresh_none :
      (d : Dict Account) (k : String) → get d k ≡ none → get (refresh_accounts now d) k ≡ none
  unfolding get refresh_accounts
  get-refresh_none [] k e = refl
  get-refresh_none ((j, a) ∷ d) k e = ground (arith, get-refresh_none d k)

  pub get-refresh_some :
      (d : Dict Account) (k : String) (a : Account)
      → get d k ≡ some a
      → get (refresh_accounts now d) k ≡ some (refresh_account now a)
  unfolding get refresh_accounts
  get-refresh_some [] k a e = cc
  get-refresh_some ((j, b) ∷ d) k a e = elim (Bool-cases (j == k)) [
    | inl same ↦ let same_account : some b ≡ some a = rw same at e in rw same (cc (same_account))
    | inr other ↦ rw other (get-refresh_some d k a (rw other at e))
  ]

  pub refresh-IsUnique : (d : Dict Account) → IsUnique d → IsUnique (refresh_accounts now d)
  unfolding refresh_accounts
  refresh-IsUnique [] u = tt
  refresh-IsUnique ((j, a) ∷ d) u = (get-refresh_none d j u.0, refresh-IsUnique d u.1)

  pub refresh-account_id : (a : Account) → (refresh_account now a).account_id ≡ a.account_id
  unfolding refresh_account
  refresh-account_id a = ground arith

  pub refresh_leased : (a : Account) → a.status ≡ leased → (refresh_account now a).status ≡ leased
  unfolding refresh_account
  refresh_leased a e = ground arith

  -- Refreshing an account leaves is_selectable as it was, and an account that is selectable
  -- afterwards is available.
  pub refresh-is_selectable :
      (a : Account)
      → (is_selectable (refresh_account now a) now ≡ is_selectable a now)
        × ((is_selectable (refresh_account now a) now ≡ true)
            → (refresh_account now a).status ≡ available)
  unfolding refresh_account is_selectable
  refresh-is_selectable a = (ground arith, ground arith)
