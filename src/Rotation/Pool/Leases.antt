-- ===== src/Rotation/Pool/Leases.antt =====
-- The leases of a pool along its history.
use agentic_agnostic_orchest.Base.{
  ℕ, ◌≡◌, ◌≢◌, refl, String, true, Option, none, some, List, Dict, get, put, pop, get_or, ◌+◌,
  get-put_self, get-put_ne, get-pop_self, get-pop_ne, str_cases, IsUnique, put-IsUnique, Among-get,
  arith, Option-cases, inl, inr, subst,
}
use agentic_agnostic_orchest.Rotation.Models.{Account, leased, exhausted, degraded, is_selectable}
use agentic_agnostic_orchest.Rotation.Pool.Selection.{Selects, select_next-Selects}
use agentic_agnostic_orchest.Rotation.Pool.Windows.{
  refresh-IsUnique, get-refresh_none, get-refresh_some, refresh-account_id, refresh_leased,
}
use agentic_agnostic_orchest.Rotation.Pool.{
  AccountPool, empty_pool, register, select_next, is_candidate, change, lease, release, released,
  mark_exhausted, mark_degraded, refresh_account, refresh_windows,
}

-- Accounts stand under their own ids, once each, and whoever holds a lease holds an account whose
-- status says so.
pub record IsConsistent (p : AccountPool) : Type 0 where
  pub unique : IsUnique p.accounts
  pub keyed : (k : String) (a : Account) → get p.accounts k ≡ some a → a.account_id ≡ k
  pub held :
      (k agent : String)
      → get p.leases k ≡ some agent
      → (a : Account) × (get p.accounts k ≡ some a) × (a.status ≡ leased)

pub empty-IsConsistent : IsConsistent empty_pool
unfolding empty_pool get
empty-IsConsistent = record {
  unique = tt;
  keyed = λ k a e. absurd (cc e);
  held = λ k agent e. absurd (cc e);
}

change_absent :
    (p : AccountPool) (id : String) (f : Account → Account) (g : Dict String → Dict String)
    → get p.accounts id ≡ none
    → change p id f g ≡ none
unfolding change
change_absent p id f g e = rw (e, change) refl

change_present :
    (p : AccountPool) (id : String) (f : Account → Account) (g : Dict String → Dict String)
    (a : Account)
    → get p.accounts id ≡ some a
    → change p id f g ≡ some (record { accounts = put p.accounts id (f a); leases = g p.leases })
unfolding change
change_present p id f g a e = rw (e, change) refl

-- A change of one account keeps the pool consistent if it keeps the id, and if what it leaves in the
-- leases under that id belongs to a leased account.
change-IsConsistent :
    (p q : AccountPool) (id : String) (f : Account → Account) (g : Dict String → Dict String)
    → ((a : Account) → (f a).account_id ≡ a.account_id)
    → ((k : String) → id ≢ k → get (g p.leases) k ≡ get p.leases k)
    → ((a : Account) (agent : String) → get (g p.leases) id ≡ some agent → (f a).status ≡ leased)
    → change p id f g ≡ some q
    → IsConsistent p
    → IsConsistent q
change-IsConsistent p q id f g same others mine e h = elim (Option-cases (get p.accounts id)) [
  | inl missing ↦ absurd (cc (change_absent p id f g missing, e))
  | inr (a, found) ↦
      let made : q ≡ record { accounts = put p.accounts id (f a); leases = g p.leases } =
        cc (change_present p id f g a found, e) in
      rw made (record {
        unique = put-IsUnique p.accounts id (f a) h.unique;
        keyed = λ k b eb. elim (str_cases id k) [
          | inl here ↦ cc (get-put_self p.accounts id (f a), same a, h.keyed id a found)
          | inr there ↦ h.keyed k b (cc (get-put_ne p.accounts id k (f a) there))
        ];
        held = λ k agent ea. elim (str_cases id k) [
          | inl here ↦ (f a, cc (get-put_self p.accounts id (f a)), mine a agent (cc))
          | inr there ↦
              let (b, eb, sb) = h.held k agent (cc (others k there)) in
              (b, cc (get-put_ne p.accounts id k (f a) there), sb)
        ];
      })
]

pub lease-IsConsistent :
    (p q : AccountPool) (id agent : String)
    → lease p id agent ≡ some q
    → IsConsistent p
    → IsConsistent q
unfolding lease
lease-IsConsistent p q id agent =
    change-IsConsistent p q id (λ a. record a { status = leased }) (λ l. put l id agent) (λ a. refl)
      (λ k ne. get-put_ne p.leases id k agent ne) (λ a g e. refl)

module _ (p q : AccountPool) (id : String) (f : Account → Account)
    (same : (a : Account) → (f a).account_id ≡ a.account_id) where
  -- A change that drops the lease.
  drop-IsConsistent : change p id f (λ l. pop l id) ≡ some q → IsConsistent p → IsConsistent q
  drop-IsConsistent =
      change-IsConsistent p q id f (λ l. pop l id) same (λ k ne. get-pop_ne p.leases id k ne)
        (λ a g e. absurd (cc (e, get-pop_self p.leases id)))

register-IsConsistent :
    (p : AccountPool) (a : Account)
    → get p.leases a.account_id ≡ none
    → IsConsistent p
    → IsConsistent (register p a)
unfolding register
register-IsConsistent p a free h = record {
  unique = put-IsUnique p.accounts a.account_id a h.unique;
  keyed = λ k b eb. elim (str_cases a.account_id k) [
    | inl here ↦ cc (get-put_self p.accounts a.account_id a)
    | inr there ↦ h.keyed k b (cc (get-put_ne p.accounts a.account_id k a there))
  ];
  held = λ k agent ea. elim (str_cases a.account_id k) [
    | inl here ↦ absurd (cc)
    | inr there ↦
        let (b, eb, sb) = h.held k agent ea in
        (b, cc (get-put_ne p.accounts a.account_id k a there), sb)
  ];
}

refresh-IsConsistent :
    (p : AccountPool) (now : ℕ) → IsConsistent p → IsConsistent (refresh_windows p now)
unfolding refresh_windows
refresh-IsConsistent p now h = record {
  unique = refresh-IsUnique now p.accounts h.unique;
  keyed = λ k b eb. elim (Option-cases (get p.accounts k)) [
    | inl missing ↦ absurd (cc (get-refresh_none now p.accounts k missing))
    | inr (a, found) ↦
        cc (get-refresh_some now p.accounts k a found, h.keyed k a found, refresh-account_id now a)
  ];
  held = λ k agent ea.
      let (a, found, busy) = h.held k agent ea in
      (refresh_account now a, get-refresh_some now p.accounts k a found, refresh_leased now a busy);
}

pub mark_degraded-IsConsistent :
    (p q : AccountPool) (id reason : String)
    → mark_degraded p id reason ≡ some q
    → IsConsistent p
    → IsConsistent q
unfolding mark_degraded
mark_degraded-IsConsistent p q id reason = drop-IsConsistent p q id _ (λ a. refl)

pub mark_exhausted-IsConsistent :
    (p q : AccountPool) (id : String) (until : Option ℕ) (now : ℕ)
    → mark_exhausted p id until now ≡ some q
    → IsConsistent p
    → IsConsistent q
unfolding mark_exhausted
mark_exhausted-IsConsistent p q id until now = drop-IsConsistent p q id _ (λ a. refl)

-- On a registered account the operations go through, with these results.
pub lease_known :
    (p : AccountPool) (id agent : String) (a : Account)
    → get p.accounts id ≡ some a
    → lease p id agent
      ≡ some (record {
        accounts = put p.accounts id (record a { status = leased });
        leases = put p.leases id agent;
      })
unfolding lease
lease_known p id agent a =
    change_present p id (λ b. record b { status = leased }) (λ l. put l id agent) a

pub mark_degraded_known :
    (p : AccountPool) (id reason : String) (a : Account)
    → get p.accounts id ≡ some a
    → mark_degraded p id reason
      ≡ some (record {
        accounts = put p.accounts id (record a { status = degraded; last_error = some reason });
        leases = pop p.leases id;
      })
unfolding mark_degraded
mark_degraded_known p id reason a = change_present p id _ (λ l. pop l id) a

pub mark_exhausted_known :
    (p : AccountPool) (id : String) (until : Option ℕ) (now : ℕ) (a : Account)
    → get p.accounts id ≡ some a
    → mark_exhausted p id until now
      ≡ some (record {
        accounts = put p.accounts id (record a {
          status = exhausted;
          cooldown_until = some (get_or until (now + a.window_seconds));
        });
        leases = pop p.leases id;
      })
unfolding mark_exhausted
mark_exhausted_known p id until now a = change_present p id _ (λ l. pop l id) a

-- The operations on a pool, as the rotation service and the operators use them: an account is
-- registered under an id that no agent holds, and an agent leases what `select_next` answered.
pub data Step (p : AccountPool) (q : AccountPool) : Type 0 where
  registers : (a : Account) → get p.leases a.account_id ≡ none → q ≡ register p a → Step p q
  leases_selected :
      (vendor : Option String) (tenant : String) (now : ℕ) (exclude : List String) (a : Account)
      (agent : String)
      → select_next p vendor tenant now exclude ≡ some a
      → lease p a.account_id agent ≡ some q
      → Step p q
  releases : (id : String) → release p id ≡ some q → Step p q
  exhausts :
      (id : String) (until : Option ℕ) (now : ℕ) → mark_exhausted p id until now ≡ some q → Step p q
  degrades : (id reason : String) → mark_degraded p id reason ≡ some q → Step p q
  refreshes : (now : ℕ) → q ≡ refresh_windows p now → Step p q

pub data Reach (p : AccountPool) : AccountPool → Type 0 where
  here : Reach p p
  next : {q r : AccountPool} → Reach p q → Step q r → Reach p r

Step-IsConsistent : {p q : AccountPool} → Step p q → IsConsistent p → IsConsistent q
unfolding release
Step-IsConsistent {p} (registers a free e) h = rw e (register-IsConsistent p a free h)
Step-IsConsistent {p} {q} (leases_selected v t now ex a agent s e) h =
    lease-IsConsistent p q a.account_id agent e h
Step-IsConsistent {p} {q} (releases id e) h =
    drop-IsConsistent p q id (λ a. record a { status = released a.status }) (λ a. refl) e h
Step-IsConsistent {p} {q} (exhausts id until now e) h =
    mark_exhausted-IsConsistent p q id until now e h
Step-IsConsistent {p} {q} (degrades id reason e) h = mark_degraded-IsConsistent p q id reason e h
Step-IsConsistent {p} (refreshes now e) h = rw e (refresh-IsConsistent p now h)

pub Reach-IsConsistent : {p q : AccountPool} → IsConsistent p → Reach p q → IsConsistent q
Reach-IsConsistent h here = h
Reach-IsConsistent h (next r st) = Step-IsConsistent st (Reach-IsConsistent h r)

leased-not_candidate :
    (vendor : Option String) (tenant : String) (now : ℕ) (exclude : List String) (a : Account)
    → is_candidate vendor tenant now exclude a ≡ true
    → a.status ≢ leased
unfolding is_candidate is_selectable
leased-not_candidate vendor tenant now exclude a c e = ground arith

-- An account that `select_next` answers is registered under its id, and no agent holds it.
pub selected_is_free :
    (p : AccountPool) (vendor : Option String) (tenant : String) (now : ℕ) (exclude : List String)
    (a : Account)
    → IsConsistent p
    → select_next p vendor tenant now exclude ≡ some a
    → (get p.accounts a.account_id ≡ some a) × (get p.leases a.account_id ≡ none)
selected_is_free p vendor tenant now exclude a h e =
    let (m, c, _) =
      subst (Selects p vendor tenant now exclude) e
        (select_next-Selects p vendor tenant now exclude) in
    let (k, found) = Among-get a p.accounts h.unique m in
    let at_id : get p.accounts a.account_id ≡ some a = cc (h.keyed k a found) in
    (
      at_id,
      elim (Option-cases (get p.leases a.account_id)) [
        | inl free ↦ free
        | inr (agent, busy) ↦
            let (b, eb, sb) = h.held a.account_id agent busy in
            absurd (leased-not_candidate vendor tenant now exclude a c (cc (at_id)))
      ],
    )

-- In a pool reached from the empty one by registrations of accounts that nobody holds, leases of
-- selected accounts, releases, exhaustions, degradations and refreshes, the account that
-- select_next answers is held by no agent.
pub no_double_lease :
    (p : AccountPool) (vendor : Option String) (tenant : String) (now : ℕ) (exclude : List String)
    (a : Account)
    → Reach empty_pool p
    → select_next p vendor tenant now exclude ≡ some a
    → get p.leases a.account_id ≡ none
no_double_lease p vendor tenant now exclude a r e =
    (selected_is_free p vendor tenant now exclude a (Reach-IsConsistent empty-IsConsistent r) e).1
