-- ===== src/Watchdog/Recovery/Escalation.antt =====
-- When a failed recovery raises the alarm.
use agentic_agnostic_orchest.Base.{
  is_empty, or_else, All, Option-cases, ℕ, ◌+◌, ◌≡◌, ◌≤◌, refl, sym, String, false, none, some,
  List, [], ◌∷◌, length, if◌then◌else◌, leb, get, get_or, get-put_self, arith, Bool-cases, inl, inr,
  ◌-◌, subst,
}
use agentic_agnostic_orchest.Watchdog.Recovery.{
  RecoveryCall, kill_hung_process, respawn_agent, agent_wait, RecoveryError, no_replayer,
  missing_pane, missing_command, Manager, failure_count, emit_alert, fail, finish, first_raised,
  replay, procedure, attempt, recover, new_manager, Attempt, attempted, recover_with, Recovered,
  run_recovery,
}

-- The recoveries of an agent, one after the other, by one manager
pub recoveries : ℕ → String → List Attempt → Manager → Manager
recoveries max_retries id [] m = m
recoveries max_retries id (a ∷ attempts) m =
    recoveries max_retries id attempts (recover_with max_retries id a m).1

-- The recovery raises.
abbrev pub Fails : String → Attempt → Type 0
Fails id a = (e : RecoveryError) × (attempted a id ≡ some e)

recover-fails :
    (max_retries : ℕ) (id : String) (a : Attempt) (m : Manager) (e : RecoveryError)
    → attempted a id ≡ some e
    → recover_with max_retries id a m ≡ (false, fail max_retries m id e)
unfolding recover_with recover finish attempted
recover-fails max_retries id a m e h = rw (h, finish) refl

fail-count :
    (max_retries : ℕ) (m : Manager) (id : String) (e : RecoveryError)
    → failure_count (fail max_retries m id e) id ≡ failure_count m id + 1
unfolding fail failure_count
fail-count max_retries m id e =
    ground (arith, get-put_self m.failures id (get_or (get m.failures id) 0 + 1))

fail-alerts :
    (max_retries : ℕ) (m : Manager) (id : String) (e : RecoveryError)
    → length (fail max_retries m id e).alerts
      ≡ length m.alerts + (if leb max_retries (failure_count m id + 1) then 1 else 0)
unfolding fail emit_alert
fail-alerts max_retries m id e = ground arith

-- After recoveries in a row that all fail, the manager has counted every one of them, and has raised
-- the alarm at each from the one that brought the count to the limit of retries on.
pub failures_escalate :
    (max_retries : ℕ) (id : String) (attempts : List Attempt) (m : Manager)
    → All (Fails id) attempts
    → (failure_count (recoveries max_retries id attempts m) id
        ≡ failure_count m id + length attempts)
      × (length (recoveries max_retries id attempts m).alerts
          ≡ length m.alerts + (length attempts - (max_retries - 1 - failure_count m id)))
unfolding recoveries
failures_escalate max_retries id [] m all = (omega arith, omega arith)
failures_escalate max_retries id (a ∷ attempts) m ((e, h), all) =
    let next = fail max_retries m id e in
    let (count, alerts) = failures_escalate max_retries id attempts next all in
    subst
      (λ z.
        (failure_count (recoveries max_retries id attempts z.1) id
          ≡ failure_count m id + length (a ∷ attempts))
        × (length (recoveries max_retries id attempts z.1).alerts
            ≡ length m.alerts + (length (a ∷ attempts) - (max_retries - 1 - failure_count m id))))
      (sym (recover-fails max_retries id a m e h))
      (
        omega (arith, count, fail-count max_retries m id e),
        ground (arith, alerts, fail-count max_retries m id e, fail-alerts max_retries m id e),
      )

pub no_replayer-Fails : (id : String) (a : Attempt) → a.has_replayer ≡ false → Fails id a
unfolding attempted attempt procedure replay
no_replayer-Fails id a h = elim (Bool-cases (is_empty (or_else a.pane_id a.row_pane))) [
  | inl bare ↦ (missing_pane, rw bare refl)
  | inr pane ↦ elim (Bool-cases (is_empty (or_else a.command a.resolved))) [
    | inl bare ↦ (missing_command, rw (pane, bare) refl)
    | inr command ↦ elim (Option-cases (first_raised a.raises (calls_of a id))) [
      | inl fine ↦ (no_replayer, rw (pane, command, fine, procedure, h) refl)
      | inr (e, raised) ↦ (e, rw (pane, command, raised, procedure) refl)
    ]
  ]
]
  where
    calls_of : Attempt → String → List RecoveryCall
    calls_of a id =
        kill_hung_process (or_else a.pane_id a.row_pane)
        ∷ respawn_agent (or_else a.pane_id a.row_pane) (or_else a.command a.resolved)
        ∷ agent_wait id
        ∷ []

fresh-silent :
    (max_retries : ℕ) (id : String) (e : RecoveryError)
    → 2 ≤ max_retries
    → (fail max_retries new_manager id e).alerts ≡ []
unfolding fail emit_alert failure_count new_manager get
fresh-silent max_retries id e two = ground arith

-- What the watchdog publishes and answers along recoveries, when it has no manager of its own
pub unmanaged : ℕ → String → List Attempt → List Recovered
unmanaged max_retries id [] = []
unmanaged max_retries id (a ∷ attempts) =
    run_recovery max_retries id a none ∷ unmanaged max_retries id attempts

-- A watchdog without a manager and a replayer fails at every recovery, and with a limit of at least two
-- retries it never raises the alarm, however many recoveries have failed.
pub unmanaged_never_escalates :
    (max_retries : ℕ) (id : String) (attempts : List Attempt)
    → 2 ≤ max_retries
    → All (λ a. a.has_replayer ≡ false) attempts
    → All (λ r. (r.success ≡ false) × (r.published ≡ [])) (unmanaged max_retries id attempts)
unfolding unmanaged run_recovery
unmanaged_never_escalates max_retries id [] two all = tt
unmanaged_never_escalates max_retries id (a ∷ attempts) two (none_here, all) =
    let (e, h) = no_replayer-Fails id a none_here in
    (
      subst (λ z. (z.0 ≡ false) × (z.1.alerts ≡ []))
          (sym (recover-fails max_retries id a new_manager e h))
          (refl, fresh-silent max_retries id e two),
      unmanaged_never_escalates max_retries id attempts two all,
    )
