-- ===== src/Dispatch/Queue/Methods.antt =====
-- What the methods of `TaskQueue` do to the tasks of the table.
use agentic_agnostic_orchest.Base.{
  ◌/◌, ◌*◌, ℕ, ◌+◌, ◌≡◌, refl, sym, ◌∙◌, subst, String, Bool, true, false, Option, none, some, List,
  get, put, arith, Bool-cases, Option-cases, inl, inr, get-put_self, get-put_ne, str_cases,
  put-IsUnique, leb, contains, get-contains, Among-get,
}
use agentic_agnostic_orchest.Base.Int.{ℤ}
use agentic_agnostic_orchest.Dispatch.Tasks.{
  is_accepted, in_seconds, queued, dispatched, in_progress, done, failed, timeout, cancelled, Task,
  Store, NewTask, AuditRow, update_row, get_task, update_state, set_dispatched, increment_retry,
  create, complete, duration_of, fail, write_audit, new_row,
}
use agentic_agnostic_orchest.Dispatch.Queue.{
  Reply, answer, key_error, state_error, database_error, Priority, is_assigned, is_dispatched,
  is_in_progress, is_retryable, not_terminal, claim_next, mark_dispatched, mark_in_progress,
  mark_done, mark_failed, mark_timeout, cancel, reassign, retry, requeue, enqueue, priority_value,
}
use agentic_agnostic_orchest.Dispatch.Queue.Claims.{IsTable, IsReady, Claims, claim_next-Claims}
use agentic_agnostic_orchest.Dispatch.Queue.Lifecycle.{
  send, start, finish_work, break, run_out, Follows, Follows-refl, Preserves, Preserves-refl,
  change-Preserves, put-Preserves, again_edge, cancel_edge, transition-Preserves,
  update_row-Preserves, audited-Preserves, moved, taken-Follows, only_assigned, only_dispatched,
  only_in_progress, from_state,
}

-- The methods that a queue offers, with their arguments.
pub data Method : Type 0 where
  enqueues : NewTask → Priority → Method
  claims : String → Method
  dispatches starts cancels reassigns : String → Method
  completes : String → Option ℤ → Method
  fails runs_out : String → String → Method

module _ (accepts : AuditRow → Bool) where
  -- The store after a call at the time `now`; a refused `enqueue` leaves it.
  pub call : ℕ → Method → Store → Store
  call now (enqueues n p) s = elim (enqueue accepts s n p now) [ none ↦ s | some s' ↦ s' ]
  call now (claims agent) s = (claim_next s agent now).1
  call now (dispatches id) s = (mark_dispatched s id now).1
  call now (starts id) s = (mark_in_progress s id now).1
  call now (cancels id) s = (cancel s id now).1
  call now (reassigns id) s = (reassign s id now).1
  call now (completes id duration) s = (mark_done accepts s id duration now).1
  call now (fails id message) s = (mark_failed accepts s id message now).1
  call now (runs_out id message) s = (mark_timeout accepts s id message now).1

  module _ (s : Store) (now : ℕ) (h : IsTable s) where
    dispatches-Preserves : (id : String) → Preserves s (mark_dispatched s id now).1
    unfolding mark_dispatched set_dispatched in_seconds
    dispatches-Preserves id =
        transition-Preserves s id h is_assigned (λ u. set_dispatched u id now)
          λ t e fits.
            update_row-Preserves s id h
              (λ t. record t {
                state = dispatched;
                dispatched_at = some (now / 1000000 * 1000000);
                updated_at = now;
              })
              t e
              (moved s id h t _ (from_state (only_assigned t.state fits) send) refl refl refl refl)

    starts-Preserves : (id : String) → Preserves s (mark_in_progress s id now).1
    unfolding mark_in_progress update_state
    starts-Preserves id =
        transition-Preserves s id h is_dispatched (λ u. update_state u id in_progress now)
          λ t e fits.
            update_row-Preserves s id h (λ t. record t { state = in_progress; updated_at = now }) t
              e
              (moved s id h t _ (from_state (only_dispatched t.state fits) start) refl refl refl
                refl)

    cancels-Preserves : (id : String) → Preserves s (cancel s id now).1
    unfolding cancel update_state not_terminal
    cancels-Preserves id =
        transition-Preserves s id h not_terminal (λ u. update_state u id cancelled now)
          λ t e fits.
            update_row-Preserves s id h (λ t. record t { state = cancelled; updated_at = now }) t e
              (moved s id h t _ (cancel_edge t.state fits) refl refl refl refl)

    completes-Preserves :
        (id : String) (d : Option ℤ) → Preserves s (mark_done accepts s id d now).1
    unfolding mark_done complete
    completes-Preserves id d =
        transition-Preserves s id h is_in_progress (λ u. complete accepts u id d none none now)
          λ t e fits.
            audited-Preserves s id h accepts
              (λ t. record t {
                state = done;
                completed_at = some now;
                completed_by = none;
                evidence = none;
                duration_seconds = duration_of t d now;
                updated_at = now;
              })
              _ t e
              (moved s id h t _ (from_state (only_in_progress t.state fits) finish_work) refl refl
                refl refl)

    fails-Preserves : (id m : String) → Preserves s (mark_failed accepts s id m now).1
    unfolding mark_failed fail
    fails-Preserves id m =
        transition-Preserves s id h is_in_progress (λ u. fail accepts u id m failed none now)
          λ t e fits.
            audited-Preserves s id h accepts
              (λ t. record t {
                state = failed;
                error_message = some m;
                completed_at = some now;
                updated_at = now;
              })
              _ t e
              (moved s id h t _ (from_state (only_in_progress t.state fits) break) refl refl refl
                refl)

    runs_out-Preserves : (id m : String) → Preserves s (mark_timeout accepts s id m now).1
    unfolding mark_timeout fail
    runs_out-Preserves id m =
        transition-Preserves s id h is_in_progress (λ u. fail accepts u id m timeout none now)
          λ t e fits.
            audited-Preserves s id h accepts
              (λ t. record t {
                state = timeout;
                error_message = some m;
                completed_at = some now;
                updated_at = now;
              })
              _ t e
              (moved s id h t _ (from_state (only_in_progress t.state fits) run_out) refl refl refl
                refl)

    claims-Preserves : (agent : String) → Preserves s (claim_next s agent now).1
    claims-Preserves agent = go (claim_next s agent now) (claim_next-Claims s agent now h)
      where
        at_id : (t : Task) → IsReady s t → get s.tasks t.id ≡ some t
        at_id t r =
            let (k, found) = Among-get t s.tasks h.unique r.present in cc (h.keyed k t found)

        go : (r : Reply (Option Task) × Store) → Claims s agent now r → Preserves s r.1
        go (answer none, s') (e, _) = subst (Preserves s) (sym e) (Preserves-refl s h)
        go (database_error, s') (e, _, _) = subst (Preserves s) (sym e) (Preserves-refl s h)
        go (key_error, s') e = absurd e
        go (state_error, s') e = absurd e
        go (answer (some t'), s') (t, ready, taken_now, e, _, _) = rw e (
            put-Preserves s t.id t t' s.audit h (at_id t ready)
              (subst (Follows t) (sym taken_now) (taken-Follows t agent now ready.waits)))

    -- The row after `reassign`, and between its two statements.
    abbrev counted : Task → Task
    counted t = record t { retry_count = t.retry_count + 1; updated_at = now }

    abbrev requeued : Task → Task
    requeued t = record t {
      state = queued;
      assigned_to = none;
      dispatched_at = none;
      completed_at = none;
      error_message = none;
      version = t.version + 1;
      updated_at = now;
    }

    increment_present :
        (id : String) (t : Task)
        → get s.tasks id ≡ some t
        → increment_retry s id now ≡ (true, record s { tasks = put s.tasks id (counted t) })
    unfolding increment_retry update_row
    increment_present id t e = rw (e, increment_retry, update_row) refl

    requeue_present :
        (u : Store) (id : String) (t : Task)
        → get u.tasks id ≡ some t
        → requeue u id now ≡ record u { tasks = put u.tasks id (requeued t) }
    unfolding requeue update_row
    requeue_present u id t e = rw (e, requeue, update_row) refl

    retry_store :
        (id : String) (t : Task)
        → get s.tasks id ≡ some t
        → (retry s t id now).1
          ≡ record s { tasks = put (put s.tasks id (counted t)) id (requeued (counted t)) }
    unfolding retry get_task
    retry_store id t e =
        let again_there = get-put_self s.tasks id (counted t) in
        rw (increment_present id t e, retry, again_there, increment_present id t e)
          (requeue_present (record s { tasks = put s.tasks id (counted t) }) id (counted t)
            again_there)

    retried :
        (t : Task)
        → is_retryable t.state ≡ true
        → leb t.max_retries t.retry_count ≡ false
        → Follows t (requeued (counted t))
    retried t fits room = record {
      edge = again_edge t.state fits;
      same_id = refl;
      same_limit = refl;
      newer = omega arith;
      within = λ b. ground arith;
    }

    reassigns-Preserves : (id : String) → Preserves s (reassign s id now).1
    unfolding reassign retry increment_retry requeue update_row get_task
    reassigns-Preserves id = elim (Option-cases (get s.tasks id)) [
      | inl e ↦ rw (e, reassign) (Preserves-refl s h)
      | inr (t, e) ↦ elim (Bool-cases (is_retryable t.state)) [
        | inr other ↦ rw (e, reassign, other) (Preserves-refl s h)
        | inl fits ↦ elim (Bool-cases (leb t.max_retries t.retry_count)) [
          | inl spent ↦ rw (e, reassign, fits, spent) (Preserves-refl s h)
          | inr room ↦
              rw (e, reassign, fits, room)
                (subst (Preserves s) (sym (retry_store id t e)) (
                  change-Preserves s id t (requeued (counted t)) h e (retried t fits room) _ s.audit
                    (put-IsUnique _ id _ (put-IsUnique s.tasks id _ h.unique)) (get-put_self _ id _)
                    (λ k ne. get-put_ne _ id k _ ne ∙ get-put_ne s.tasks id k _ ne)))
        ]
      ]
    ]

    added-Preserves :
        (u : Task) (audit : List AuditRow)
        → get s.tasks u.id ≡ none
        → Preserves s (record s { tasks = put s.tasks u.id u; audit = audit })
    added-Preserves u audit free = record {
      table = record {
        unique = put-IsUnique s.tasks u.id u h.unique;
        keyed = λ k v g. elim (str_cases u.id k) [
          | inl same ↦
              let g' : get (put s.tasks u.id u) u.id ≡ some v =
                subst (λ j. get (put s.tasks u.id u) j ≡ some v) (sym same) g in
              cc (get-put_self s.tasks u.id u, g', same)
          | inr other ↦ h.keyed k v (sym (get-put_ne s.tasks u.id k u other) ∙ g)
        ];
      };
      tasks = λ k v g. elim (str_cases u.id k) [
        | inl same ↦
            let free' : get s.tasks k ≡ none = subst (λ j. get s.tasks j ≡ none) same free in
            absurd (cc (free', g))
        | inr other ↦ (v, get-put_ne s.tasks u.id k u other ∙ g, Follows-refl v)
      ];
    }

    inserted :
        (n : NewTask)
        → contains s.tasks n.task_id ≡ false
        → Preserves s (
            write_audit accepts
              (record s { tasks = put s.tasks n.task_id (new_row n now) })
              (record {
                task_id = n.task_id;
                agent_id = n.created_by;
                event = "created";
                evidence = none;
              }))
    unfolding write_audit new_row
    inserted n free =
        let at_end = get-contains s.tasks n.task_id free in
        elim (Bool-cases (
          accepts (record {
            task_id = n.task_id;
            agent_id = n.created_by;
            event = "created";
            evidence = none;
          }))) [
            | inl taken_row ↦ rw (taken_row, write_audit) (added-Preserves (new_row n now) _ at_end)
            | inr lost ↦ rw (lost, write_audit) (added-Preserves (new_row n now) _ at_end)
          ]

    enqueues-Preserves : (n : NewTask) (p : Priority) → Preserves s (call now (enqueues n p) s)
    unfolding call enqueue create
    enqueues-Preserves n p = elim (Option-cases (priority_value p)) [
      | inl e ↦ rw (e, call, enqueue) (Preserves-refl s h)
      | inr (v, e) ↦ elim (Bool-cases (contains s.tasks n.task_id)) [
        | inl taken_id ↦ rw (e, call, enqueue, taken_id) (Preserves-refl s h)
        | inr free ↦ elim (Bool-cases (is_accepted s (record n { priority = v }))) [
          | inr refused ↦ rw (e, call, enqueue, free, refused) (Preserves-refl s h)
          | inl fits ↦ rw (e, call, enqueue, free, fits) (inserted (record n { priority = v }) free)
        ]
      ]
    ]

  -- On a table whose tasks stand under their own ids, every method of the queue, whatever its
  -- arguments and however it ends, keeps the table so, loses no task, and lets each task follow
  -- an edge of the lifecycle or stay, with its id and its limit of retries, a version that is no
  -- smaller, and its retries within the limit if they were.
  pub call-Preserves : (s : Store) (now : ℕ) (m : Method) → IsTable s → Preserves s (call now m s)
  unfolding call
  call-Preserves s now (enqueues n p) h = enqueues-Preserves s now h n p
  call-Preserves s now (claims agent) h = claims-Preserves s now h agent
  call-Preserves s now (dispatches id) h = dispatches-Preserves s now h id
  call-Preserves s now (starts id) h = starts-Preserves s now h id
  call-Preserves s now (cancels id) h = cancels-Preserves s now h id
  call-Preserves s now (reassigns id) h = reassigns-Preserves s now h id
  call-Preserves s now (completes id duration) h = completes-Preserves s now h id duration
  call-Preserves s now (fails id message) h = fails-Preserves s now h id message
  call-Preserves s now (runs_out id message) h = runs_out-Preserves s now h id message
