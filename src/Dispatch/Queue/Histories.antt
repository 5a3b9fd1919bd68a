-- ===== src/Dispatch/Queue/Histories.antt =====
-- What holds after any history of calls: final states, the limit of retries, and the version that
-- guards a claim.
use agentic_agnostic_orchest.Base.{
  ℕ, ◌≤◌, ◌≡◌, refl, ◌∙◌, subst, String, Bool, true, false, some, List, [], ◌∷◌, get, put, arith,
  Bool-cases, inl, inr, get-put_self, eqb, member,
}
use agentic_agnostic_orchest.Dispatch.Tasks.{
  TaskState, queued, assigned, done, cancelled, Task, Store, AuditRow, claim, is_queued, get_task,
  update_state, update_row,
}
use agentic_agnostic_orchest.Dispatch.Queue.{
  cancel, transition, not_terminal, is_terminal, is_retryable, finish, fetch,
}
use agentic_agnostic_orchest.Dispatch.Queue.Claims.{IsTable, taken, claim_present, claim_unknown}
use agentic_agnostic_orchest.Dispatch.Queue.Lifecycle.{
  Leads, stays, take, send, start, finish_work, break, run_out, stop, again_failed, again_timed_out,
  Follows, taken-Follows, put-Preserves, only_queued, finish_store,
}
use agentic_agnostic_orchest.Dispatch.Queue.Methods.{Method, call, call-Preserves}

-- No edge leaves `done` or `cancelled`.
no_way_out : {x y : TaskState} → Leads x y → (x ≡ done → y ≡ done) × (x ≡ cancelled → y ≡ cancelled)
unfolding is_terminal is_retryable
no_way_out stays = (λ q. q, λ q. q)
no_way_out take = (λ q. cc, λ q. cc)
no_way_out send = (λ q. cc, λ q. cc)
no_way_out start = (λ q. cc, λ q. cc)
no_way_out finish_work = (λ q. refl, λ q. cc)
no_way_out break = (λ q. cc, λ q. cc)
no_way_out run_out = (λ q. cc, λ q. cc)
no_way_out (stop a b c d) = (λ q. absurd (a q), λ q. refl)
no_way_out again_failed = (λ q. cc, λ q. cc)
no_way_out again_timed_out = (λ q. cc, λ q. cc)

-- What a claim that succeeded wrote
claim_won :
    (s s' : Store) (t : Task) (agent : String) (now : ℕ)
    → get s.tasks t.id ≡ some t
    → claim s t.id agent t.version now ≡ some (true, s')
    → s' ≡ record s { tasks = put s.tasks t.id (taken t agent now) }
claim_won s s' t agent now e won = elim (Bool-cases (member agent s.agents)) [
  | inl known ↦ cc (won, claim_present s t agent now e known)
  | inr unknown ↦ absurd (cc (won, claim_unknown s t agent now e unknown))
]

module _ (accepts : AuditRow → Bool) where
  -- A history of calls, each with its time.
  pub calls : List (ℕ × Method) → Store → Store
  calls [] s = s
  calls ((now, m) ∷ rest) s = calls rest (call accepts now m s)

  -- A relation between a task before a call and after it that holds along a history.
  calls_ind :
      (R : Task → Task → Type 0)
      → ((t : Task) → R t t)
      → ((t u v : Task) → Follows t u → R u v → R t v)
      → (history : List (ℕ × Method)) (s : Store) → IsTable s
      → (k : String) (t : Task) → get s.tasks k ≡ some t
      → (t' : Task) × (get (calls history s).tasks k ≡ some t') × R t t'
  unfolding calls
  calls_ind R here more [] s h k t e = (t, e, here t)
  calls_ind R here more ((now, m) ∷ rest) s h k t e =
      let p = call-Preserves accepts s now m h in
      let (u, eu, f) = p.tasks k t e in
      let (v, ev, r) = calls_ind R here more rest (call accepts now m s) p.table k u eu in
      (v, ev, more t u v f r)

  -- After any history of calls on a well-formed table, a task that was done is done, and a task
  -- that was cancelled is cancelled.
  pub final_stays :
      (history : List (ℕ × Method)) (s : Store) (k : String) (t : Task)
      → IsTable s
      → get s.tasks k ≡ some t
      → (t' : Task) × (get (calls history s).tasks k ≡ some t')
        × (t.state ≡ done → t'.state ≡ done)
        × (t.state ≡ cancelled → t'.state ≡ cancelled)
  final_stays history s k t h e =
      let (t', e', (d, c)) = calls_ind R (λ t. (λ q. q, λ q. q)) more history s h k t e in
      (t', e', d, c)
    where
      R : Task → Task → Type 0
      R t u = (t.state ≡ done → u.state ≡ done) × (t.state ≡ cancelled → u.state ≡ cancelled)

      more : (t u v : Task) → Follows t u → R u v → R t v
      more t u v f r = let (d, c) = no_way_out f.edge in (λ q. r.0 (d q), λ q. r.1 (c q))

  -- After any history of calls on a well-formed table, a task whose retries were within its limit
  -- has them within the same limit.
  pub retries_bounded :
      (history : List (ℕ × Method)) (s : Store) (k : String) (t : Task)
      → IsTable s
      → get s.tasks k ≡ some t
      → t.retry_count ≤ t.max_retries
      → (t' : Task) × (get (calls history s).tasks k ≡ some t')
        × (t'.max_retries ≡ t.max_retries)
        × (t'.retry_count ≤ t.max_retries)
  retries_bounded history s k t h e b =
      let (t', e', (m, r)) = calls_ind R (λ t. (refl, λ q. q)) more history s h k t e in
      (t', e', m, subst (λ n. t'.retry_count ≤ n) m (r b))
    where
      R : Task → Task → Type 0
      R t u =
          (u.max_retries ≡ t.max_retries)
          × (t.retry_count ≤ t.max_retries → u.retry_count ≤ u.max_retries)

      more : (t u v : Task) → Follows t u → R u v → R t v
      more t u v f r = (r.0 ∙ f.same_limit, λ q. r.1 (f.within q))

  -- When an agent has claimed a queued task of a well-formed table at the version that it read,
  -- and any history of calls has passed, a claim at that version by any agent fails and changes
  -- nothing.
  pub version_is_spent :
      (history : List (ℕ × Method)) (s s' : Store) (t : Task) (agent other : String) (now then : ℕ)
      → IsTable s
      → get s.tasks t.id ≡ some t
      → is_queued t ≡ true
      → claim s t.id agent t.version now ≡ some (true, s')
      → claim (calls history s') t.id other t.version then ≡ some (false, calls history s')
  unfolding claim
  version_is_spent history s s' t agent other now then h e q won =
      let same : s' ≡ claimed = claim_won s s' t agent now e won in
      rw same (
        go (
          calls_ind R (λ t. omega arith) more history claimed table t.id (taken t agent now)
            (get-put_self s.tasks t.id (taken t agent now))))
    where
      claimed : Store
      claimed = record s { tasks = put s.tasks t.id (taken t agent now) }

      table : IsTable claimed
      table =
          (put-Preserves s t.id t (taken t agent now) s.audit h e
            (taken-Follows t agent now q)).table

      R : Task → Task → Type 0
      R t u = t.version ≤ u.version

      more : (t u v : Task) → Follows t u → R u v → R t v
      more t u v f r = omega (arith, f.newer)

      go :
          ((u : Task) × (get (calls history claimed).tasks t.id ≡ some u) × R (taken t agent now) u)
          → claim (calls history claimed) t.id other t.version then
            ≡ some (false, calls history claimed)
      go (u, eu, r) = elim (Bool-cases (eqb u.version t.version)) [
        | inl old ↦ absurd (ground arith)
        | inr new ↦ rw (eu, claim, new) refl
      ]

-- `cancel` on a queued task
cancel_queued :
    (s : Store) (t : Task) (now : ℕ)
    → get s.tasks t.id ≡ some t
    → t.state ≡ queued
    → (cancel s t.id now).1
      ≡ record s { tasks = put s.tasks t.id (record t { state = cancelled; updated_at = now }) }
unfolding cancel transition not_terminal is_terminal update_state update_row get_task
cancel_queued s t now e state =
    rw (e, cancel, transition, state, finish_store, update_state, update_row, e) refl

-- A task that is cancelled after it was read as queued is claimed all the same by a registered
-- agent at the version that was read, and is assigned again.
pub claim_revives :
    (s : Store) (t : Task) (agent : String) (now then : ℕ)
    → get s.tasks t.id ≡ some t
    → is_queued t ≡ true
    → member agent s.agents ≡ true
    → let s' = (cancel s t.id now).1 in
      (t' : Task) × (u : Task) × (s'' : Store) × (get s'.tasks t.id ≡ some t')
      × (t'.state ≡ cancelled)
      × (claim s' t.id agent t.version then ≡ some (true, s''))
      × (get s''.tasks t.id ≡ some u)
      × (u.state ≡ assigned)
unfolding cancel transition not_terminal is_terminal finish fetch update_state update_row is_queued
    get_task
claim_revives s t agent now then e q known =
    let state : t.state ≡ queued = only_queued t q in
    let t' : Task = record t { state = cancelled; updated_at = now } in
    let s' : Store = record s { tasks = put s.tasks t.id t' } in
    let again_there : get s'.tasks t.id ≡ some t' = get-put_self s.tasks t.id t' in
    rw (cancel_queued s t now e state) (
      t',
      taken t' agent then,
      record s' { tasks = put s'.tasks t.id (taken t' agent then) },
      again_there,
      refl,
      claim_present s' t' agent then again_there known,
      get-put_self s'.tasks t.id (taken t' agent then),
      refl,
    )
