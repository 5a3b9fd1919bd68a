-- ===== src/Watchdog/Examples.antt =====
-- One agent under the watchdog: silent for a minute, in recovery, and recovered in vain.
use agentic_agnostic_orchest.Base.{
  ◌+◌, ◌-◌, ◌≡◌, refl, subst, String, true, false, none, some, List, [], ◌∷◌, length, get, All,
  arith, Bool-cases, inl, inr, member, IsDistinct, ◌==◌, eq_iff,
}
use agentic_agnostic_orchest.Watchdog.Agents.{Health, healthy, recovering, same_health}
use agentic_agnostic_orchest.Watchdog.Recovery.{new_manager, Attempt, failure_count}
use agentic_agnostic_orchest.Watchdog.Recovery.Escalation.{
  Fails, recoveries, failures_escalate, no_replayer-Fails, unmanaged, unmanaged_never_escalates,
}
use agentic_agnostic_orchest.Watchdog.Engine.{WatchdogConfig, Monitor, is_active, is_resting}
use agentic_agnostic_orchest.Watchdog.Engine.Routes.{Route, stays}
use agentic_agnostic_orchest.Watchdog.Watch.{Watch, evaluate_all, recovery_ends, recovery_raises}
use agentic_agnostic_orchest.Watchdog.Watch.Sound.{IsSound}
use agentic_agnostic_orchest.Watchdog.Watch.Again.{failed_recovery_is_retried}
use agentic_agnostic_orchest.Watchdog.Watch.Stuck.{IsLeft, evaluations, broken_recovery_stays}
use agentic_agnostic_orchest.Watchdog.Watch.Overdue.{IsOverdue, overdue_is_recovered}

abbrev config : WatchdogConfig
config = record {
  soft_timeout_s = 10;
  hard_timeout_s = 30;
  max_retries = 3;
  tertiary_hash_interval_s = 30;
  agent_allowlist = [];
}

abbrev codex : Health → Monitor
codex health = record {
  agent_id = "codex";
  pane_id = "p1";
  state = "working";
  health = health;
  last_seen_at = 0;
  last_progress_at = 0;
  last_hash_at = 0;
  last_output_hash = none;
}

-- The one agent, nothing published, and these tasks
abbrev alone : Health → List String → Watch
alone health running = record {
  monitors = ("codex", codex health) ∷ [];
  desk = record { agents = []; health_events = []; published = []; running = running };
}

some_monitor : (a b : Monitor) → some a ≡ some b → a ≡ b
some_monitor a b h = cc h

alone-IsSound :
    (health : Health) (running : List String) → IsDistinct running → IsSound (alone health running)
unfolding get
alone-IsSound health running d = record {
  routes = λ id m e. elim (Bool-cases ("codex" == id)) [
    | inl same ↦
        let own : codex health ≡ m = some_monitor (codex health) m (rw same at e) in
        subst (λ k. (k.agent_id ≡ id) × ((h : Health) × Route id h [] k.health)) own
          ((eq_iff "codex" id).0 same, (health, stays health))
    | inr other ↦ absurd (cc (rw other at e))
  ];
  silent = λ id e. refl;
  one_task = d;
}

broken_recovery_stays_example :
    IsLeft
      (evaluations config
        (60 ∷ 600 ∷ [])
        (recovery_raises "codex" (alone recovering ("codex" ∷ []))))
      "codex"
      (codex recovering)
unfolding get
broken_recovery_stays_example =
    broken_recovery_stays config (60 ∷ 600 ∷ []) "codex" (codex recovering)
      (alone recovering ("codex" ∷ [])) (alone-IsSound recovering ("codex" ∷ []) (refl, tt)) refl
      refl

codex-IsOverdue : IsOverdue config 60 (codex healthy)
unfolding is_active is_resting same_health
codex-IsOverdue = record {
  active = refl;
  at_work = refl;
  not_in_recovery = refl;
  late = omega arith;
}

overdue_is_recovered_example :
    member "codex" (evaluate_all config 60 (alone healthy [])).desk.running ≡ true
unfolding get
overdue_is_recovered_example =
    overdue_is_recovered config 60 "codex" (codex healthy) (alone healthy [])
      (alone-IsSound healthy [] tt) refl codex-IsOverdue

failed_recovery_is_retried_example :
    let w' = recovery_ends 60 "codex" false (alone recovering ("codex" ∷ [])) in
    (member "codex" w'.desk.running ≡ false)
    × (member "codex" (evaluate_all config 90 w').desk.running ≡ true)
unfolding get is_active is_resting
failed_recovery_is_retried_example =
    failed_recovery_is_retried config 60 90 "codex" (codex recovering)
      (alone recovering ("codex" ∷ [])) (alone-IsSound recovering ("codex" ∷ []) (refl, tt)) refl
      refl refl refl (omega arith)

-- A recovery without a replayer
abbrev in_vain : Attempt
in_vain = record {
  raises = λ c. none;
  has_replayer = false;
  pane_id = "p1";
  row_pane = "p1";
  command = "codex";
  resolved = "";
}

in_vain-Fails : All (Fails "codex") (in_vain ∷ in_vain ∷ in_vain ∷ in_vain ∷ [])
in_vain-Fails = let f = no_replayer-Fails "codex" in_vain refl in (f, (f, (f, (f, tt))))

failures_escalate_example :
    (failure_count
        (recoveries 3 "codex" (in_vain ∷ in_vain ∷ in_vain ∷ in_vain ∷ []) new_manager)
        "codex"
      ≡ failure_count new_manager "codex" + 4)
    × (length (recoveries 3 "codex" (in_vain ∷ in_vain ∷ in_vain ∷ in_vain ∷ []) new_manager).alerts
        ≡ length new_manager.alerts + (4 - (3 - 1 - failure_count new_manager "codex")))
failures_escalate_example =
    failures_escalate 3 "codex" (in_vain ∷ in_vain ∷ in_vain ∷ in_vain ∷ []) new_manager
      in_vain-Fails

unmanaged_never_escalates_example :
    All
      (λ r. (r.success ≡ false) × (r.published ≡ []))
      (unmanaged 3 "codex" (in_vain ∷ in_vain ∷ []))
unmanaged_never_escalates_example =
    unmanaged_never_escalates 3 "codex" (in_vain ∷ in_vain ∷ []) (omega arith) (refl, (refl, tt))
