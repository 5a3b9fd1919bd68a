-- ===== src/Dispatch/Queue/Lifecycle.antt =====
-- The lifecycle of a task: the edges that the methods of `TaskQueue` take, and what stays.
use agentic_agnostic_orchest.Base.{
  ℕ, ◌≤◌, ◌≡◌, ◌≢◌, refl, sym, ◌∙◌, subst, String, Bool, true, false, some, List, Dict, get, put,
  arith, Bool-cases, Option-cases, inl, inr, get-put_self, get-put_ne, str_cases, IsUnique,
  put-IsUnique,
}
use agentic_agnostic_orchest.Dispatch.Tasks.{
  TaskState, queued, assigned, dispatched, in_progress, blocked, done, failed, timeout, cancelled,
  Task, Store, AuditRow, update_row, get_task, is_queued, audited, write_audit,
}
use agentic_agnostic_orchest.Dispatch.Queue.{
  transition, finish, fetch, is_terminal, is_assigned, is_dispatched, is_in_progress, is_retryable,
  not_terminal,
}
use agentic_agnostic_orchest.Dispatch.Queue.Claims.{IsTable, taken}

-- The edges of the lifecycle.
pub data Leads : TaskState → TaskState → Type 0 where
  stays : {x : TaskState} → Leads x x
  take : Leads queued assigned
  send : Leads assigned dispatched
  start : Leads dispatched in_progress
  finish_work : Leads in_progress done
  break : Leads in_progress failed
  run_out : Leads in_progress timeout
  stop : {x : TaskState} → x ≢ done → x ≢ failed → x ≢ timeout → x ≢ cancelled → Leads x cancelled
  again_failed : Leads failed queued
  again_timed_out : Leads timeout queued

-- What one method does to a task.
pub record Follows (t u : Task) : Type 0 where
  pub edge : Leads t.state u.state
  pub same_id : u.id ≡ t.id
  pub same_limit : u.max_retries ≡ t.max_retries
  pub newer : t.version ≤ u.version
  pub within : t.retry_count ≤ t.max_retries → u.retry_count ≤ u.max_retries

pub Follows-refl : (t : Task) → Follows t t
Follows-refl t = record {
  edge = stays;
  same_id = refl;
  same_limit = refl;
  newer = omega arith;
  within = λ h. h;
}

-- From store `s` to store `u`: the table stays well formed, and every task follows its lifecycle.
pub record Preserves (s u : Store) : Type 0 where
  pub table : IsTable u
  pub tasks :
      (k : String) (t : Task)
      → get s.tasks k ≡ some t
      → (t' : Task) × (get u.tasks k ≡ some t') × Follows t t'

pub Preserves-refl : (s : Store) → IsTable s → Preserves s s
Preserves-refl s h = record { table = h; tasks = λ k t e. (t, e, Follows-refl t) }

-- One row changed into one that follows it.
pub change-Preserves :
    (s : Store) (id : String) (t u : Task)
    → IsTable s
    → get s.tasks id ≡ some t
    → Follows t u
    → (d : Dict Task) (audit : List AuditRow) → IsUnique d
    → get d id ≡ some u
    → ((k : String) → id ≢ k → get d k ≡ get s.tasks k)
    → Preserves s (record s { tasks = d; audit = audit })
change-Preserves s id t u h e f d audit unique self other_rows = record {
  table = record {
    unique = unique;
    keyed = λ k v g. elim (str_cases id k) [
      | inl same ↦
          let g' : get d id ≡ some v = subst (λ j. get d j ≡ some v) (sym same) g in
          cc (self, g', f.same_id, h.keyed id t e, same)
      | inr other ↦ h.keyed k v (sym (other_rows k other) ∙ g)
    ];
  };
  tasks = λ k v g. elim (str_cases id k) [
    | inl same ↦
        let e' : get s.tasks k ≡ some t = subst (λ j. get s.tasks j ≡ some t) same e in
        let t_is_v : t ≡ v = cc (e', g) in
        (u, subst (λ j. get d j ≡ some u) same self, subst (λ x. Follows x u) t_is_v f)
    | inr other ↦ (v, other_rows k other ∙ g, Follows-refl v)
  ];
}

pub put-Preserves :
    (s : Store) (id : String) (t u : Task) (audit : List AuditRow)
    → IsTable s
    → get s.tasks id ≡ some t
    → Follows t u
    → Preserves s (record s { tasks = put s.tasks id u; audit = audit })
put-Preserves s id t u audit h e f =
    change-Preserves s id t u h e f (put s.tasks id u) audit (put-IsUnique s.tasks id u h.unique)
      (get-put_self s.tasks id u) (λ k. get-put_ne s.tasks id k u)

-- `finish` reads the store and leaves it.
pub finish_store : (id : String) (r : Bool × Store) → (finish id r).1 ≡ r.1
unfolding finish fetch get_task
finish_store id (false, s) = refl
finish_store id (true, s) = elim (Option-cases (get s.tasks id)) [
  | inl e ↦ rw (e, fetch) refl
  | inr (t, e) ↦ rw (e, fetch) refl
]

module _ (s : Store) (id : String) (h : IsTable s) where
  -- The store after the test of the state and the statement behind it.
  pub transition-Preserves :
      (allowed : TaskState → Bool) (statement : Store → Bool × Store)
      → ((t : Task)
          → get s.tasks id ≡ some t
          → allowed t.state ≡ true
          → Preserves s (statement s).1)
      → Preserves s (transition s id allowed statement).1
  unfolding transition get_task
  transition-Preserves allowed statement after = elim (Option-cases (get s.tasks id)) [
    | inl e ↦ rw (e, transition) (Preserves-refl s h)
    | inr (t, e) ↦ elim (Bool-cases (allowed t.state)) [
      | inl fits ↦
          rw (e, transition, fits)
            (subst (Preserves s) (sym (finish_store id (statement s))) (after t e fits))
      | inr other ↦ rw (e, transition, other) (Preserves-refl s h)
    ]
  ]

  pub update_row-Preserves :
      (f : Task → Task) (t : Task)
      → get s.tasks id ≡ some t
      → Follows t (f t)
      → Preserves s (update_row s id f).1
  unfolding update_row
  update_row-Preserves f t e k = rw (e, update_row) (put-Preserves s id t (f t) s.audit h e k)

  pub audited-Preserves :
      (accepts : AuditRow → Bool) (f : Task → Task) (row : AuditRow) (t : Task)
      → get s.tasks id ≡ some t
      → Follows t (f t)
      → Preserves s (audited accepts (update_row s id f) row).1
  unfolding update_row audited write_audit
  audited-Preserves accepts f row t e k = elim (Bool-cases (accepts row)) [
    | inl yes_row ↦ rw (e, update_row, yes_row) (put-Preserves s id t (f t) _ h e k)
    | inr no_row ↦ rw (e, update_row, no_row) (put-Preserves s id t (f t) _ h e k)
  ]

  -- A change of the state and of columns that the lifecycle does not read.
  pub moved :
      (t u : Task)
      → Leads t.state u.state
      → u.id ≡ t.id
      → u.max_retries ≡ t.max_retries
      → u.version ≡ t.version
      → u.retry_count ≡ t.retry_count
      → Follows t u
  moved t u edge i m v r = record {
    edge = edge;
    same_id = i;
    same_limit = m;
    newer = rw v (omega arith);
    within = λ b. rw (m, r) b;
  }

pub only_assigned : (x : TaskState) → is_assigned x ≡ true → x ≡ assigned
unfolding is_assigned
only_assigned x e = ground arith

pub only_dispatched : (x : TaskState) → is_dispatched x ≡ true → x ≡ dispatched
unfolding is_dispatched
only_dispatched x e = ground arith

pub only_in_progress : (x : TaskState) → is_in_progress x ≡ true → x ≡ in_progress
unfolding is_in_progress
only_in_progress x e = ground arith

pub only_queued : (t : Task) → is_queued t ≡ true → t.state ≡ queued
unfolding is_queued
only_queued t e = ground arith

pub from_state : {x y z : TaskState} → x ≡ y → Leads y z → Leads x z
from_state {x} {y} {z} e l = subst (λ v. Leads v z) (sym e) l

pub taken-Follows :
    (t : Task) (agent : String) (now : ℕ) → is_queued t ≡ true → Follows t (taken t agent now)
taken-Follows t agent now q = record {
  edge = from_state (only_queued t q) take;
  same_id = refl;
  same_limit = refl;
  newer = omega arith;
  within = λ b. b;
}

-- The edges behind the tests of `reassign` and `cancel`
pub again_edge : (x : TaskState) → is_retryable x ≡ true → Leads x queued
unfolding is_retryable
again_edge failed e = again_failed
again_edge timeout e = again_timed_out
again_edge queued e = absurd (cc e)
again_edge assigned e = absurd (cc e)
again_edge dispatched e = absurd (cc e)
again_edge in_progress e = absurd (cc e)
again_edge blocked e = absurd (cc e)
again_edge done e = absurd (cc e)
again_edge cancelled e = absurd (cc e)

pub cancel_edge : (x : TaskState) → not_terminal x ≡ true → Leads x cancelled
unfolding not_terminal is_terminal
cancel_edge x e =
    stop (λ q. ground arith) (λ q. ground arith) (λ q. ground arith) (λ q. ground arith)
