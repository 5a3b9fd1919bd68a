-- ===== src/Rotation/Pool.antt =====
-- control-plane/rotation/pool.py: `AccountPool`. `none` from an operation is its KeyError.
pub mod Order
pub mod Selection
pub mod Windows
pub mod Leases
use agentic_agnostic_orchest.Base.{
  ℕ, ◌+◌, String, Bool, true, false, not, ◌&&◌, ◌||◌, Option, none, some, List, [], ◌∷◌, Dict, get,
  put, pop, dict_values, get_or, leb, lower, ◌==◌, if◌then◌else◌, filter, any, first,
}
use agentic_agnostic_orchest.Rotation.Models.{
  Account, AccountStatus, available, leased, exhausted, cooldown, degraded, is_selectable, cooled,
}
use agentic_agnostic_orchest.Base.Int.{pos}
use Order.{sort_accounts}

pub record AccountPool : Type 0 where
  pub accounts : Dict Account
  pub leases : Dict String

unfoldable pub empty_pool : AccountPool
empty_pool = record { accounts = []; leases = [] }

unfoldable pub register : AccountPool → Account → AccountPool
register p a = record p { accounts = put p.accounts a.account_id a }

unfoldable pub get_account : AccountPool → String → Option Account
get_account p id = get p.accounts id

unfoldable pub all_accounts : AccountPool → List Account
all_accounts p = dict_values p.accounts

-- `vendor is None or acc.vendor.lower() == vendor.lower()`
unfoldable pub vendor_fits : Option String → Account → Bool
vendor_fits none a = true
vendor_fits (some v) a = lower a.vendor == lower v

unfoldable pub is_candidate : Option String → String → ℕ → List String → Account → Bool
unfolding vendor_fits
is_candidate vendor tenant now exclude a =
    not (any (λ x. x == a.account_id) exclude)
    && ((a.tenant_id == tenant) && (vendor_fits vendor a && is_selectable a now))

unfoldable pub select_next : AccountPool → Option String → String → ℕ → List String → Option Account
unfolding first
select_next p vendor tenant now exclude =
    first (sort_accounts (filter (is_candidate vendor tenant now exclude) (dict_values p.accounts)))

-- `acc.status in {EXHAUSTED, COOLDOWN}`
unfoldable pub is_waiting : AccountStatus → Bool
is_waiting exhausted = true
is_waiting cooldown = true
is_waiting _ = false

unfoldable pub earlier : Option ℕ → Option ℕ → Option ℕ
earlier none b = b
earlier (some a) none = some a
earlier (some a) (some b) = some (if leb a b then a else b)

-- The cooldown that `next_wake_at` counts for an account.
unfoldable pub wake_of : String → Account → Option ℕ
wake_of tenant a = if (a.tenant_id == tenant) && is_waiting a.status then a.cooldown_until else none

unfoldable pub min_wake : String → List Account → Option ℕ
unfolding earlier wake_of
min_wake tenant [] = none
min_wake tenant (a ∷ rest) = earlier (wake_of tenant a) (min_wake tenant rest)

unfoldable pub next_wake_at : AccountPool → String → Option ℕ
unfolding min_wake
next_wake_at p tenant = min_wake tenant (dict_values p.accounts)

-- `self._require(account_id)`, then a change of that account and of the leases.
unfoldable pub change :
    AccountPool → String → (Account → Account) → (Dict String → Dict String) → Option AccountPool
change p id f g = elim (get p.accounts id) [
  | none ↦ none
  | some a ↦ some (record { accounts = put p.accounts id (f a); leases = g p.leases })
]

unfoldable pub lease : AccountPool → String → String → Option AccountPool
unfolding change
lease p id agent = change p id (λ a. record a { status = leased }) (λ l. put l id agent)

unfoldable pub released : AccountStatus → AccountStatus
released leased = available
released s = s

unfoldable pub release : AccountPool → String → Option AccountPool
unfolding change released
release p id = change p id (λ a. record a { status = released a.status }) (λ l. pop l id)

unfoldable pub mark_exhausted : AccountPool → String → Option ℕ → ℕ → Option AccountPool
unfolding change
mark_exhausted p id until now =
    change p id
      (λ a. record a {
        status = exhausted;
        cooldown_until = some (get_or until (now + a.window_seconds));
      })
      (λ l. pop l id)

unfoldable pub mark_degraded : AccountPool → String → String → Option AccountPool
unfolding change
mark_degraded p id reason =
    change p id (λ a. record a { status = degraded; last_error = some reason }) (λ l. pop l id)

unfoldable pub refresh_account : ℕ → Account → Account
unfolding is_waiting
refresh_account now a =
    if is_waiting a.status && cooled a.cooldown_until now
    then record a {
      status = available;
      window_start = some now;
      tokens_used = pos 0;
      cooldown_until = none;
    }
    else a

unfoldable pub refresh_accounts : ℕ → Dict Account → Dict Account
unfolding refresh_account
refresh_accounts now [] = []
refresh_accounts now ((id, a) ∷ d) = (id, refresh_account now a) ∷ refresh_accounts now d

unfoldable pub refresh_windows : AccountPool → ℕ → AccountPool
unfolding refresh_accounts
refresh_windows p now = record p { accounts = refresh_accounts now p.accounts }
