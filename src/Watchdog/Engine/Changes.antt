-- ===== src/Watchdog/Engine/Changes.antt =====
-- The steps of a handler on a monitor follow the machine of its agent's health.
use agentic_agnostic_orchest.Base.{
  ℕ, ◌≡◌, refl, sym, ◌∙◌, subst, String, Bool, true, false, ◌||◌, Option, none, some, [], ◌∷◌, leb,
  ◌+◌, is_empty, arith, Bool-cases, inl, inr, member, eq_iff, eq_refl,
}
use agentic_agnostic_orchest.Watchdog.Agents.{
  Health, healthy, suspect, unhealthy, recovering, same_health,
}
use agentic_agnostic_orchest.Watchdog.Engine.{
  WatchdogConfig, Reason, agent_resting, soft_timeout, hard_timeout, recovery_started,
  recovery_success, recovery_failed, Scene, is_resting, is_active, transition, start_task,
  begin_recovery, suspect_healthy, hard_timeout_reached, evaluate_active, evaluate, Seen, saw_state,
  see_state, new_hash, is_hash, hashed, see_output, settle, seen_at, observe, recovered,
}
use agentic_agnostic_orchest.Watchdog.Engine.Routes.{
  eq_of_same_health, same_health_self, IsEdge, falls_silent, is_lost, is_rescued, is_well, stays,
  moves, Moved, still-Moved, then-Moved,
}

transition-Moved :
    (h : Health) (r : Reason) (s : Scene) → IsEdge s.monitor.health h → Moved s (transition h r s)
unfolding transition
transition-Moved h r s e = elim (Bool-cases (same_health s.monitor.health h)) [
  | inl same ↦ rw same (still-Moved s s refl refl refl refl)
  | inr new ↦ rw new (record {
    changes =
        record {
          agent_id = s.monitor.agent_id;
          previous = s.monitor.health;
          health = h;
          reason = r;
        }
        ∷ [];
    route =
        moves s.monitor.health s.monitor.health h r [] (stays s.monitor.health)
          (λ q. cc (
            subst (λ z. same_health s.monitor.health z ≡ false) (sym q) new,
            same_health_self s.monitor.health,
          ))
          e;
    published = refl;
    same_agent = refl;
    tasks = λ d. d;
    kept_tasks = λ x h. h;
    other_tasks = λ x ne. refl;
  })
]

transition-health : (h : Health) (r : Reason) (s : Scene) → (transition h r s).monitor.health ≡ h
unfolding transition
transition-health h r s = elim (Bool-cases (same_health s.monitor.health h)) [
  | inl same ↦ rw same (eq_of_same_health s.monitor.health h same)
  | inr new ↦ rw new refl
]

transition-running :
    (h : Health) (r : Reason) (s : Scene) → (transition h r s).desk.running ≡ s.desk.running
unfolding transition
transition-running h r s = ground arith

transition-agent_id :
    (h : Health) (r : Reason) (s : Scene) → (transition h r s).monitor.agent_id ≡ s.monitor.agent_id
unfolding transition
transition-agent_id h r s = ground arith

start_task-Moved :
    (s : Scene) → member s.monitor.agent_id s.desk.running ≡ false → Moved s (start_task s)
unfolding start_task
start_task-Moved s new = record {
  changes = [];
  route = stays s.monitor.health;
  published = refl;
  same_agent = refl;
  tasks = λ d. (new, d);
  kept_tasks = λ x h. ground (arith, h);
  other_tasks = λ x ne. ground (arith, ne);
}

begin_recovery-Moved : (s : Scene) → s.monitor.health ≡ unhealthy → Moved s (begin_recovery s)
unfolding begin_recovery
begin_recovery-Moved s e = elim (Bool-cases (member s.monitor.agent_id s.desk.running)) [
  | inl busy ↦ rw busy (still-Moved s s refl refl refl refl)
  | inr free ↦
      let t = transition recovering recovery_started s in
      rw free (
        then-Moved s t (start_task t)
          (transition-Moved recovering recovery_started s
            (subst (λ z. IsEdge z recovering) (sym e) is_rescued))
          (start_task-Moved t (
            rw
              (
                transition-agent_id recovering recovery_started s,
                transition-running recovering recovery_started s,
              )
              free)))
]

pub begin_recovery-task :
    (s : Scene) → member s.monitor.agent_id (begin_recovery s).desk.running ≡ true
unfolding begin_recovery start_task
begin_recovery-task s = elim (Bool-cases (member s.monitor.agent_id s.desk.running)) [
  | inl busy ↦ rw busy busy
  | inr free ↦ rw free (
      ground (
        arith,
        transition-agent_id recovering recovery_started s,
        eq_refl s.monitor.agent_id,
        eq_iff s.monitor.agent_id s.monitor.agent_id,
      ))
]

suspect_healthy-Moved : (s : Scene) → Moved s (suspect_healthy s)
unfolding suspect_healthy
suspect_healthy-Moved s = elim (Bool-cases (same_health s.monitor.health healthy)) [
  | inl same ↦ rw same (
      transition-Moved suspect soft_timeout s (
        subst (λ z. IsEdge z suspect) (sym (eq_of_same_health s.monitor.health healthy same))
          falls_silent))
  | inr new ↦ rw new (still-Moved s s refl refl refl refl)
]

hard_timeout-Moved : (s : Scene) → Moved s (hard_timeout_reached s)
unfolding hard_timeout_reached
hard_timeout-Moved s =
    let t = suspect_healthy s in
    let u = transition unhealthy hard_timeout t in
    then-Moved s t (begin_recovery u) (suspect_healthy-Moved s) (
      then-Moved t u (begin_recovery u)
        (transition-Moved unhealthy hard_timeout t (is_lost t.monitor.health))
        (begin_recovery-Moved u (transition-health unhealthy hard_timeout t)))

-- The hard timeout leaves the agent with a recovery task.
pub hard_timeout-task :
    (s : Scene) → member s.monitor.agent_id (hard_timeout_reached s).desk.running ≡ true
unfolding hard_timeout_reached
hard_timeout-task s =
    let t = suspect_healthy s in
    let u = transition unhealthy hard_timeout t in
    subst (λ z. member z (begin_recovery u).desk.running ≡ true)
      (transition-agent_id unhealthy hard_timeout t ∙ (suspect_healthy-Moved s).same_agent)
      (begin_recovery-task u)

evaluate_active-Moved :
    (config : WatchdogConfig) (now : ℕ) (s : Scene) → Moved s (evaluate_active config now s)
unfolding evaluate_active
evaluate_active-Moved config now s =
    elim (Bool-cases (leb (s.monitor.last_progress_at + config.hard_timeout_s) now)) [
      | inl late ↦ rw late (hard_timeout-Moved s)
      | inr early ↦
          elim (Bool-cases (leb (s.monitor.last_progress_at + config.soft_timeout_s) now)) [
            | inl soft ↦ rw (early, soft) (suspect_healthy-Moved s)
            | inr soon ↦ rw (early, soon) (still-Moved s s refl refl refl refl)
          ]
    ]

pub evaluate-Moved :
    (config : WatchdogConfig) (now : ℕ) (s : Scene) → Moved s (evaluate config now s)
unfolding evaluate
evaluate-Moved config now s = elim (Bool-cases (same_health s.monitor.health recovering)) [
  | inl busy ↦ rw busy (still-Moved s s refl refl refl refl)
  | inr free ↦ elim (Bool-cases (is_resting s.monitor.state)) [
    | inl rests ↦
        rw (free, rests) (transition-Moved healthy agent_resting s (is_well s.monitor.health))
    | inr works ↦ elim (Bool-cases (is_active s.monitor.state)) [
      | inl active ↦ rw (free, works, active) (evaluate_active-Moved config now s)
      | inr idle ↦ rw (free, works, idle) (still-Moved s s refl refl refl refl)
    ]
  ]
]

see_state-Moved : (state : Option String) (s : Scene) → Moved s (see_state state s).scene
unfolding see_state saw_state
see_state-Moved none s = still-Moved s s refl refl refl refl
see_state-Moved (some state) s = elim (Bool-cases (is_empty state)) [
  | inl nothing ↦ rw nothing (still-Moved s s refl refl refl refl)
  | inr text ↦ rw text (still-Moved s _ refl refl refl refl)
]

see_output-Moved :
    (now : ℕ) (hash : Option String) (seen : Seen)
    → Moved seen.scene (see_output now hash seen).scene
unfolding see_output hashed new_hash
see_output-Moved now none seen = still-Moved seen.scene seen.scene refl refl refl refl
see_output-Moved now (some hash) seen =
    elim (Bool-cases (is_hash seen.scene.monitor.last_output_hash hash)) [
      | inl same ↦ rw same (still-Moved seen.scene _ refl refl refl refl)
      | inr new ↦ rw new (still-Moved seen.scene _ refl refl refl refl)
    ]

settle-Moved : (now : ℕ) (seen : Seen) → Moved seen.scene (settle now seen)
unfolding settle
settle-Moved now seen = elim (Bool-cases (seen.progressed || is_resting seen.scene.monitor.state)) [
  | inr quiet ↦ rw quiet (still-Moved seen.scene seen.scene refl refl refl refl)
  | inl settled ↦ rw settled (
      then-Moved seen.scene _ _ (still-Moved seen.scene _ refl refl refl refl)
        (transition-Moved healthy _ _ (is_well _)))
]

pub observe-Moved :
    (now : ℕ) (state pane_id hash : Option String) (s : Scene)
    → Moved s (observe now state pane_id hash s)
unfolding observe seen_at
observe-Moved now state pane_id hash s =
    let s1 = seen_at now pane_id s in
    let s2 = see_state state s1 in
    let s3 = see_output now hash s2 in
    then-Moved s s1 (settle now s3) (still-Moved s s1 refl refl refl refl) (
      then-Moved s1 s2.scene (settle now s3) (see_state-Moved state s1) (
        then-Moved s2.scene s3.scene (settle now s3) (see_output-Moved now hash s2)
          (settle-Moved now s3)))

pub recovered-Moved : (now : ℕ) (success : Bool) (s : Scene) → Moved s (recovered now success s)
unfolding recovered
recovered-Moved now true s =
    then-Moved s _ _ (still-Moved s _ refl refl refl refl)
      (transition-Moved healthy recovery_success _ (is_well _))
recovered-Moved now false s =
    then-Moved s _ _ (still-Moved s _ refl refl refl refl)
      (transition-Moved unhealthy recovery_failed _ (is_lost _))
