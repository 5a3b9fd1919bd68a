-- ===== src/Rotation/Service/Loop.antt =====
-- The loop of `on_exhaustion` over the accounts, and how it may end.
use agentic_agnostic_orchest.Base.{
  ℕ, zero, suc, ◌+◌, ◌≡◌, ◌≢◌, refl, sym, ◌∙◌, ap, subst, String, Bool, true, false, none, some,
  List, ◌∷◌, get, put, pop, any, arith, ◌==◌, Option-cases, inl, inr, ◌⊎◌, get-put_self, get-put_ne,
  get-pop_ne,
}
use agentic_agnostic_orchest.Rotation.Models.{Account, no_available_account, leased, degraded}
use agentic_agnostic_orchest.Rotation.Pool.{AccountPool, select_next, is_candidate}
use agentic_agnostic_orchest.Rotation.Pool.Selection.{Selects, select_next-Selects}
use agentic_agnostic_orchest.Rotation.Pool.Leases.{
  IsConsistent, selected_is_free, lease-IsConsistent, mark_degraded-IsConsistent, lease_known,
  mark_degraded_known,
}
use agentic_agnostic_orchest.Rotation.Service.{
  Runtime, Service, Reply, outcome, key_error, not_implemented_error, Exhaustion, Attempt, answers,
  fails, not_implemented, parks, rotates, rotations, count_rotation, try_login_and_resume,
  take_account, try_accounts, after_attempt,
}

-- From pool `p` to pool `q`: the leases of `p` stand, and the current account is as it was.
pub record Kept (x : Exhaustion) (p q : AccountPool) : Type 0 where
  pub consistent : IsConsistent q
  pub current : get q.accounts x.current_account_id ≡ get p.accounts x.current_account_id
  pub free : get q.leases x.current_account_id ≡ get p.leases x.current_account_id
  pub others : (k g : String) → get p.leases k ≡ some g → get q.leases k ≡ some g

-- What the reply says, for a loop from pool `p` and service `s` to the service `s'`.
abbrev pub Tells : Exhaustion → Service → Service → Reply → Type 0
Tells x s s' (outcome o) =
    ((id : String) × (o ≡ rotates x id)
      × (id ≢ x.current_account_id)
      × (get s.pool.leases id ≡ none)
      × (get s'.pool.leases id ≡ some x.agent_id)
      × (s'.rotation_counts
          ≡ put s.rotation_counts x.snapshot.task_id (rotations s x.snapshot.task_id + 1)))
    ⊎ ((o ≡ parks x s'.pool no_available_account) × (s'.rotation_counts ≡ s.rotation_counts))
Tells x s s' key_error = ⊥
Tells x s s' not_implemented_error = s'.rotation_counts ≡ s.rotation_counts

pub record Ends (x : Exhaustion) (s s' : Service) (r : Reply) : Type 0 where
  pub kept : Kept x s.pool s'.pool
  pub locks : s'.locks ≡ s.locks
  pub limit : s'.max_rotations_per_window ≡ s.max_rotations_per_window
  pub tells : Tells x s s' r

Kept-refl : (x : Exhaustion) (p : AccountPool) → IsConsistent p → Kept x p p
Kept-refl x p h = record { consistent = h; current = refl; free = refl; others = λ k g e. e }

-- An account that was selected beside the tried ones is none of them.
not_tried :
    (x : Exhaustion) (p : AccountPool) (tried : List String) (a : Account)
    → any (λ y. y == x.current_account_id) tried ≡ true
    → select_next p x.vendor x.tenant_id x.now tried ≡ some a
    → a.account_id ≢ x.current_account_id
unfolding is_candidate
not_tried x p tried a listed e same =
    let (_, c, _) =
      subst (Selects p x.vendor x.tenant_id x.now tried) e
        (select_next-Selects p x.vendor x.tenant_id x.now tried) in
    let again : any (λ y. y == a.account_id) tried ≡ true =
      subst (λ k. any (λ y. y == k) tried ≡ true) (sym same) listed in
    cc (rw again at c)

Kept-trans : (x : Exhaustion) (p q r : AccountPool) → Kept x p q → Kept x q r → Kept x p r
Kept-trans x p q r h k = record {
  consistent = k.consistent;
  current = k.current ∙ h.current;
  free = k.free ∙ h.free;
  others = λ j g e. k.others j g (h.others j g e);
}

-- The pool after a selected account was degraded, and after it was leased.
abbrev degraded_pool : AccountPool → Account → AccountPool
degraded_pool p a = record {
  accounts =
      put p.accounts a.account_id
        (record a { status = degraded; last_error = some "login/resume failed during rotation" });
  leases = pop p.leases a.account_id;
}

abbrev leased_pool : Exhaustion → AccountPool → Account → AccountPool
leased_pool x p a = record {
  accounts = put p.accounts a.account_id (record a { status = leased });
  leases = put p.leases a.account_id x.agent_id;
}

module _ (x : Exhaustion) (p : AccountPool) (tried : List String) (a : Account) (h : IsConsistent p)
    (listed : any (λ y. y == x.current_account_id) tried ≡ true)
    (e : select_next p x.vendor x.tenant_id x.now tried ≡ some a) where
  registered : get p.accounts a.account_id ≡ some a
  registered = (selected_is_free p x.vendor x.tenant_id x.now tried a h e).0

  unheld : get p.leases a.account_id ≡ none
  unheld = (selected_is_free p x.vendor x.tenant_id x.now tried a h e).1

  other : a.account_id ≢ x.current_account_id
  other = not_tried x p tried a listed e

  -- A lease that stands is under another id than the account that was selected.
  elsewhere : (k g : String) → get p.leases k ≡ some g → a.account_id ≢ k
  elsewhere k g held same = cc (unheld, ap (get p.leases) same)

  degraded_pool-Kept : Kept x p (degraded_pool p a)
  degraded_pool-Kept = record {
    consistent =
        mark_degraded-IsConsistent p _ a.account_id _
          (mark_degraded_known p a.account_id _ a registered) h;
    current = get-put_ne p.accounts _ _ _ other;
    free = get-pop_ne p.leases _ _ other;
    others = λ k g held. get-pop_ne p.leases _ k (elsewhere k g held) ∙ held;
  }

  leased_pool-Kept : Kept x p (leased_pool x p a)
  leased_pool-Kept = record {
    consistent =
        lease-IsConsistent p _ a.account_id x.agent_id
          (lease_known p a.account_id x.agent_id a registered) h;
    current = get-put_ne p.accounts _ _ _ other;
    free = get-put_ne p.leases _ _ _ other;
    others = λ k g held. get-put_ne p.leases _ k _ (elsewhere k g held) ∙ held;
  }

after_attempt_ind :
    {A : Type 0} (P : A → Type 0) (r : Attempt Bool) (taken again raised : A)
    → P taken
    → P again
    → P raised
    → P (after_attempt r taken again raised)
unfolding after_attempt
after_attempt_ind P (answers true) taken again raised t a r = t
after_attempt_ind P (answers false) taken again raised t a r = a
after_attempt_ind P fails taken again raised t a r = a
after_attempt_ind P not_implemented taken again raised t a r = r

module _ (T : Runtime) (x : Exhaustion) where
  abbrev Post : Service → Reply × Service × T.World → Type 0
  Post s r = Ends x s r.1 r.0

  parks-Ends :
      (s : Service)
      → IsConsistent s.pool
      → Ends x s s (outcome (parks x s.pool no_available_account))
  parks-Ends s h = record {
    kept = Kept-refl x s.pool h;
    locks = refl;
    limit = refl;
    tells = inr (refl, refl);
  }

  module _ (tried : List String) (s : Service) (a : Account) (w : T.World) (h : IsConsistent s.pool)
      (listed : any (λ y. y == x.current_account_id) tried ≡ true)
      (e : select_next s.pool x.vendor x.tenant_id x.now tried ≡ some a) where
    take_account-Ends : Post s (take_account T x s w a.account_id)
    unfolding take_account count_rotation
    take_account-Ends =
        rw
          (
            lease_known s.pool a.account_id x.agent_id a (registered x s.pool tried a h listed e),
            take_account,
          )
          (record {
            kept = leased_pool-Kept x s.pool tried a h listed e;
            locks = refl;
            limit = refl;
            tells = inl (
              a.account_id,
              refl,
              other x s.pool tried a h listed e,
              unheld x s.pool tried a h listed e,
              get-put_self s.pool.leases a.account_id x.agent_id,
              refl,
            );
          })

  -- A loop that goes on from a pool that is kept.
  goes_on :
      (s : Service) (q : AccountPool) (s' : Service) (r : Reply)
      → Kept x s.pool q
      → Ends x (record s { pool = q }) s' r
      → Ends x s s' r
  unfolding rotations
  goes_on s q s' r k h = record {
    kept = Kept-trans x s.pool q s'.pool k h.kept;
    locks = h.locks;
    limit = h.limit;
    tells = go r h.tells;
  }
    where
      still_free : (id : String) → get q.leases id ≡ none → get s.pool.leases id ≡ none
      still_free id e = elim (Option-cases (get s.pool.leases id)) [
        | inl free ↦ free
        | inr (g, held) ↦ absurd (cc (k.others id g held))
      ]

      go : (r : Reply) → Tells x (record s { pool = q }) s' r → Tells x s s' r
      go (outcome o) (inl (id, e, ne, free, held, counts)) =
          inl (id, e, ne, still_free id free, held, counts)
      go (outcome o) (inr parked) = inr parked
      go key_error t = t
      go not_implemented_error t = t

  pub try_accounts-Ends :
      (n : ℕ) (tried : List String) (s : Service) (w : T.World)
      → IsConsistent s.pool
      → any (λ y. y == x.current_account_id) tried ≡ true
      → Post s (try_accounts T x n tried s w)
  unfolding try_accounts
  try_accounts-Ends zero tried s w h listed = parks-Ends s h
  try_accounts-Ends (suc n) tried s w h listed =
      elim (Option-cases (select_next s.pool x.vendor x.tenant_id x.now tried)) [
        | inl e ↦ rw (e, try_accounts) (parks-Ends s h)
        | inr (a, e) ↦
            let w' = (try_login_and_resume T a x.snapshot w).1 in
            let k = degraded_pool-Kept x s.pool tried a h listed e in
            let rest =
              try_accounts-Ends n (a.account_id ∷ tried)
                (record s { pool = degraded_pool s.pool a }) w' k.consistent (ground arith) in
            rw
              (
                e,
                try_accounts,
                mark_degraded_known s.pool a.account_id "login/resume failed during rotation" a
                    (registered x s.pool tried a h listed e),
              )
              (after_attempt_ind (Post s) (try_login_and_resume T a x.snapshot w).0 _ _ _
                (take_account-Ends tried s a w' h listed e)
                (goes_on s (degraded_pool s.pool a) _ _ k rest)
                (record { kept = Kept-refl x s.pool h; locks = refl; limit = refl; tells = refl }))
      ]
