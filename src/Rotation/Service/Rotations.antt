-- ===== src/Rotation/Service/Rotations.antt =====
-- What `on_exhaustion` does on each of its paths.
use agentic_agnostic_orchest.Base.{
  ◌+◌, ◌≤◌, ◌<◌, ◌≡◌, ◌≢◌, refl, sym, ◌∙◌, ap, subst, String, true, false, not, none, some, List,
  [], ◌∷◌, get, put, pop, get_or, any, filter, leb, arith, eq_refl, ◌==◌, Bool-cases, inl, inr, ◌⊎◌,
  get-put, get-put_self, get-pop_self, get-pop_ne,
}
use agentic_agnostic_orchest.Rotation.Models.{
  Account, exhausted, RotationOutcome, RotationError, max_rotations, already_in_progress,
}
use agentic_agnostic_orchest.Rotation.Pool.{mark_exhausted}
use agentic_agnostic_orchest.Rotation.Pool.Leases.{
  IsConsistent, mark_exhausted-IsConsistent, mark_exhausted_known,
}
use agentic_agnostic_orchest.Rotation.Service.{
  Runtime, Service, Reply, outcome, key_error, not_implemented_error, Exhaustion, parks, rotates,
  refused, rotations, is_locked, unlock, rotate_locked, on_exhaustion,
}
use agentic_agnostic_orchest.Rotation.Service.Loop.{Kept, Tells, Ends, try_accounts-Ends}

-- The service when the loop begins: the agent is locked and the current account is exhausted.
abbrev begun : Exhaustion → Account → Service → Service
begun x c s = record s {
  locks = x.agent_id ∷ s.locks;
  pool = record {
    accounts = put s.pool.accounts x.current_account_id (record c {
      status = exhausted;
      cooldown_until = some (get_or x.cooldown_until (x.now + c.window_seconds));
    });
    leases = pop s.pool.leases x.current_account_id;
  };
}

filter_absent :
    (agent : String) (locks : List String)
    → any (λ y. y == agent) locks ≡ false
    → filter (λ y. not (y == agent)) locks ≡ locks
filter_absent agent [] h = refl
filter_absent agent (y ∷ locks) h = ground (arith, filter_absent agent locks)

unlock_added :
    (agent : String) (locks : List String)
    → any (λ y. y == agent) locks ≡ false
    → filter (λ y. not (y == agent)) (agent ∷ locks) ≡ locks
unlock_added agent locks h = rw eq_refl (filter_absent agent locks h)

-- No task has rotated more often than the limit of the window.
pub record IsLimited (s : Service) : Type 0 where
  pub within : (task : String) → rotations s task ≤ s.max_rotations_per_window

module _ (T : Runtime) (x : Exhaustion) (s : Service) (w : T.World) (c : Account)
    (h : IsConsistent s.pool) (known : get s.pool.accounts x.current_account_id ≡ some c) where
  exhausting :
      mark_exhausted s.pool x.current_account_id x.cooldown_until x.now ≡ some (begun x c s).pool
  exhausting = mark_exhausted_known s.pool x.current_account_id x.cooldown_until x.now c known

  rotate_locked-Ends :
      let (r, s', _) = rotate_locked T x (record s { locks = x.agent_id ∷ s.locks }) w in
      Ends x (begun x c s) s' r
  unfolding rotate_locked
  rotate_locked-Ends =
      rw (exhausting, rotate_locked)
        (try_accounts-Ends T x s.max_login_attempts (x.current_account_id ∷ []) (begun x c s) _
          (mark_exhausted-IsConsistent s.pool _ x.current_account_id _ _ exhausting h)
          (rw eq_refl refl))

  -- The three ways through `on_exhaustion`.
  exhaustion_cases :
      (P : Reply × Service × T.World → Type 0)
      → (s.max_rotations_per_window ≤ rotations s x.snapshot.task_id
          → P (outcome (parks x s.pool max_rotations), s, w))
      → (is_locked s x.agent_id ≡ true → P (outcome (refused x already_in_progress), s, w))
      → ((r : Reply) (s' : Service) (w' : T.World)
          → rotations s x.snapshot.task_id < s.max_rotations_per_window
          → is_locked s x.agent_id ≡ false
          → Ends x (begun x c s) s' r
          → P (r, unlock x.agent_id s', w'))
      → P (on_exhaustion T x s w)
  unfolding on_exhaustion
  exhaustion_cases P limited busy goes =
      elim (Bool-cases (leb s.max_rotations_per_window (rotations s x.snapshot.task_id))) [
        | inl full ↦ rw full (limited (ground arith))
        | inr room ↦ elim (Bool-cases (is_locked s x.agent_id)) [
          | inl held ↦ rw (room, held) (busy held)
          | inr open_now ↦
              rw (room, open_now) (goes _ _ _ (ground arith) open_now rotate_locked-Ends)
        ]
      ]

  -- With the current account registered in a consistent pool, on_exhaustion never raises
  -- KeyError, gives its lock back on every path, keeps the pool consistent and loses no lease but
  -- that of the current account.
  pub on_exhaustion_safe :
      let (r, s', _) = on_exhaustion T x s w in
      (r ≢ key_error)
      × (s'.locks ≡ s.locks)
      × IsConsistent s'.pool
      × ((k g : String)
          → k ≢ x.current_account_id
          → get s.pool.leases k ≡ some g
          → get s'.pool.leases k ≡ some g)
  unfolding unlock is_locked
  on_exhaustion_safe =
      exhaustion_cases P (λ _. untouched _) (λ _. untouched _)
        λ r s' w' room open_now e. (
          not_key_error r s' e.tells,
          rw e.locks (unlock_added x.agent_id s.locks open_now),
          e.kept.consistent,
          λ k g ne held. e.kept.others k g (get-pop_ne s.pool.leases _ k (λ q. ne (sym q)) ∙ held),
        )
    where
      P : Reply × Service × T.World → Type 0
      P (r, s', _) =
          (r ≢ key_error)
          × (s'.locks ≡ s.locks)
          × IsConsistent s'.pool
          × ((k g : String)
              → k ≢ x.current_account_id
              → get s.pool.leases k ≡ some g
              → get s'.pool.leases k ≡ some g)

      untouched : (o : RotationOutcome) → P (outcome o, s, w)
      untouched o = (λ e. cc, refl, h, λ k g ne held. held)

      not_key_error : (r : Reply) (s' : Service) → Tells x (begun x c s) s' r → r ≢ key_error
      not_key_error (outcome o) s' t = λ e. cc
      not_key_error key_error s' t = absurd t
      not_key_error not_implemented_error s' t = λ e. cc

  -- The service after a rotation to account `id`.
  pub record Moved (o : RotationOutcome) (s' : Service) (id : String) : Type 0 where
    pub answered : o.to_account ≡ some id
    pub other : id ≢ x.current_account_id
    pub was_free : get s.pool.leases id ≡ none
    pub held : get s'.pool.leases id ≡ some x.agent_id
    pub given_back : get s'.pool.leases x.current_account_id ≡ none
    pub worn_out :
        (a : Account) × (get s'.pool.accounts x.current_account_id ≡ some a)
        × (a.status ≡ exhausted)
    pub counted : rotations s' x.snapshot.task_id ≡ rotations s x.snapshot.task_id + 1

  stays :
      (y : RotationError) (o : RotationOutcome)
      → (outcome (parks x s.pool y) ≡ outcome o) ⊎ (outcome (refused x y) ≡ outcome o)
      → o.rotated ≡ true
      → ⊥
  unfolding parks refused
  stays y o (inl e) done = cc (e, done)
  stays y o (inr e) done = cc (e, done)

  moved :
      (s' : Service) (o : RotationOutcome)
      → Kept x (begun x c s).pool s'.pool
      → Tells x (begun x c s) s' (outcome o)
      → o.rotated ≡ true
      → (id : String) × Moved o (unlock x.agent_id s') id
  unfolding parks refused rotates unlock rotations
  moved s' o k (inl (id, e, ne, free, held, counts)) done = (
    id,
    record {
      answered = ap (λ (o : RotationOutcome). o.to_account) e;
      other = ne;
      was_free = sym (get-pop_ne s.pool.leases x.current_account_id id (λ q. ne (sym q))) ∙ free;
      held = held;
      given_back = k.free ∙ get-pop_self s.pool.leases x.current_account_id;
      worn_out = (_, k.current ∙ get-put_self s.pool.accounts x.current_account_id _, refl);
      counted = rw (counts, get-put_self s.rotation_counts x.snapshot.task_id) refl;
    },
  )
  moved s' o k (inr (e, _)) done = absurd (cc (e, done))

  -- With the current account registered in a consistent pool: when on_exhaustion answers that it
  -- rotated, the answer names an account that is not the current one and that nobody held, which
  -- the agent holds now; the current account is exhausted and leased to nobody; one rotation more
  -- is counted for the task.
  pub rotation_moves :
      let (r, s', _) = on_exhaustion T x s w in
      (o : RotationOutcome) → r ≡ outcome o → o.rotated ≡ true → (id : String) × Moved o s' id
  rotation_moves =
      exhaustion_cases P (λ _ o e done. absurd (stays max_rotations o (inl e) done))
        (λ _ o e done. absurd (stays already_in_progress o (inr e) done))
        (λ r s' _ _ _ h o e done.
          moved s' o h.kept (subst (Tells x (begun x c s) s') e h.tells) done)
    where
      P : Reply × Service × T.World → Type 0
      P (r, s', _) =
          (o : RotationOutcome) → r ≡ outcome o → o.rotated ≡ true → (id : String) × Moved o s' id

  -- With the current account registered in a consistent pool, and where every task has rotated no
  -- more often than the limit of the window, on_exhaustion leaves it so.
  pub rotations_bounded : IsLimited s → IsLimited (on_exhaustion T x s w).1
  unfolding unlock rotations
  rotations_bounded bound =
      exhaustion_cases P (λ _. bound) (λ _. bound)
        λ r s' _ room _ h. record { within = step s' r room h.limit h.tells }
    where
      P : Reply × Service × T.World → Type 0
      P (_, s', _) = IsLimited s'

      same :
          (s' : Service)
          → s'.max_rotations_per_window ≡ s.max_rotations_per_window
          → s'.rotation_counts ≡ s.rotation_counts
          → (task : String) → rotations s' task ≤ s'.max_rotations_per_window
      same s' e counts task = rw (e, counts) (bound.within task)

      step :
          (s' : Service) (r : Reply)
          → rotations s x.snapshot.task_id < s.max_rotations_per_window
          → s'.max_rotations_per_window ≡ s.max_rotations_per_window
          → Tells x (begun x c s) s' r
          → (task : String) → rotations s' task ≤ s'.max_rotations_per_window
      step s' (outcome o) room e (inl (_, _, _, _, _, counts)) task =
          rw
            (
              e,
              counts,
              get-put s.rotation_counts x.snapshot.task_id task
                  (rotations s x.snapshot.task_id + 1),
            )
            (ground (arith, bound.within task, room))
      step s' (outcome o) room e (inr (_, counts)) task = same s' e counts task
      step s' key_error room e t task = absurd t
      step s' not_implemented_error room e t task = same s' e t task
