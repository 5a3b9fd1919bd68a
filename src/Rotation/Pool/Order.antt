-- ===== src/Rotation/Pool/Order.antt =====
-- The sort key of `AccountPool.select_next` and the stable sort by it: expertise priority, then most
-- remaining quota, then the account's id in the order of code points.
use agentic_agnostic_orchest.Base.{
  ◌≡◌, Bool, true, false, List, arith, if◌then◌else◌, ◌⊎◌, sort_by, str_leq, str_leq_total,
  str_leq_trans,
}
use agentic_agnostic_orchest.Base.Int.{ℤ, ◌-ℤ◌, ltb_ℤ, ◌≤ℤ◌}
use agentic_agnostic_orchest.Rotation.Models.{Account, effective_priority}

-- `a.tokens_per_window - a.tokens_used`
unfoldable pub remaining_tokens : Account → ℤ
remaining_tokens a = a.tokens_per_window -ℤ a.tokens_used

-- `<=` on the key tuples, the second component negated
unfoldable pub key_leq : Account → Account → Bool
unfolding remaining_tokens
key_leq a b =
    if ltb_ℤ (effective_priority a) (effective_priority b)
    then true
    else if ltb_ℤ (effective_priority b) (effective_priority a)
    then false
    else if ltb_ℤ (remaining_tokens b) (remaining_tokens a)
    then true
    else if ltb_ℤ (remaining_tokens a) (remaining_tokens b)
    then false
    else str_leq a.account_id b.account_id

-- `candidates.sort(key=...)`
unfoldable pub sort_accounts : List Account → List Account
sort_accounts accounts = sort_by key_leq accounts

pub key_leq_total : (a b : Account) → (key_leq a b ≡ true) ⊎ (key_leq b a ≡ true)
unfolding key_leq
key_leq_total a b = ground (arith, str_leq_total a.account_id b.account_id)

pub key_leq_trans : (a b c : Account) → key_leq a b ≡ true → key_leq b c ≡ true → key_leq a c ≡ true
unfolding key_leq
key_leq_trans a b c p q = ground (arith, str_leq_trans a.account_id b.account_id c.account_id)

-- `a` comes no later than `b` in the order of selection.
pub record Precedes (a b : Account) : Type 0 where
  pub by_priority : effective_priority a ≤ℤ effective_priority b
  pub by_quota :
      effective_priority a ≡ effective_priority b → remaining_tokens b ≤ℤ remaining_tokens a
  pub by_id :
      effective_priority a ≡ effective_priority b
      → remaining_tokens a ≡ remaining_tokens b
      → str_leq a.account_id b.account_id ≡ true

pub key_leq-Precedes : (a b : Account) → key_leq a b ≡ true → Precedes a b
unfolding key_leq
key_leq-Precedes a b h = record {
  by_priority = ground arith;
  by_quota = λ e. ground arith;
  by_id = λ e f. ground arith;
}
