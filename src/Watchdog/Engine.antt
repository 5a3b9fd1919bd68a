-- ===== src/Watchdog/Engine.antt =====
-- herdmaster/src/herdmaster/watchdog/engine.py, `WatchdogEngine`, with a publisher present. The clock counts
-- seconds, and a difference of times against a limit is written as a sum. A handler runs without another
-- between its steps, and `update_health` and the publisher neither raise nor let another handler in: what
-- happens after an exception there, or at that await, is not modelled. `running` has the agents whose
-- recovery task is not done. The hash of an output and `fnmatch.fnmatchcase` are parameters.
pub mod Routes
pub mod Changes
use agentic_agnostic_orchest.Base.{
  ℕ, ◌+◌, String, Bool, true, false, ◌||◌, ◌&&◌, not, Option, none, some, List, [], ◌∷◌,
  if◌then◌else◌, leb, is_some, Dict, get, put, dict_keys, get_or, is_empty, or_else, lower, member,
  filter, ◌==◌,
}
use agentic_agnostic_orchest.Acl.Engine.{AclRole, AclConfig}
use agentic_agnostic_orchest.Watchdog.Agents.{
  Health, healthy, suspect, unhealthy, recovering, same_health, or_healthy, AgentRow, HealthEvent,
  Upsert, upsert, update_state, record_heartbeat, update_health, health_event,
}
use agentic_agnostic_orchest.Watchdog.Recovery.{RecoveryCall, Manager, recover}

pub record WatchdogConfig : Type 0 where
  pub soft_timeout_s : ℕ
  pub hard_timeout_s : ℕ
  pub max_retries : ℕ
  pub tertiary_hash_interval_s : ℕ
  pub agent_allowlist : List String

pub record Monitor : Type 0 where
  pub agent_id : String
  pub pane_id : String
  pub state : String
  pub health : Health
  pub last_seen_at : ℕ
  pub last_progress_at : ℕ
  pub last_hash_at : ℕ
  pub last_output_hash : Option String

pub data Reason : Type 0 where
  agent_resting agent_progress soft_timeout hard_timeout : Reason
  recovery_started recovery_success recovery_failed : Reason

-- The payload of a `STATE_CHANGE` message
pub record StateChange : Type 0 where
  pub agent_id : String
  pub previous : Health
  pub health : Health
  pub reason : Reason

-- What the handlers of a monitor share: the database, the messages, newest first, and the tasks
pub record Desk : Type 0 where
  pub agents : Dict AgentRow
  pub health_events : List HealthEvent
  pub published : List StateChange
  pub running : List String

pub record Scene : Type 0 where
  pub monitor : Monitor
  pub desk : Desk

unfoldable pub is_resting : String → Bool
is_resting state = state == "idle" || state == "done"

unfoldable pub is_active : String → Bool
is_active state = state == "working" || state == "blocked" || state == "unknown"

-- `_transition` with `_emit_state_change`, where neither the database nor the publisher raises
unfoldable pub transition : Health → Reason → Scene → Scene
unfolding same_health update_health health_event
transition health reason s =
    let previous = s.monitor.health in
    let id = s.monitor.agent_id in
    if same_health previous health then s else record {
      monitor = record s.monitor { health = health };
      desk = record {
        agents = update_health s.desk.agents id health;
        health_events = health_event s.desk.agents s.desk.health_events id health;
        published =
            record { agent_id = id; previous = previous; health = health; reason = reason }
            ∷ s.desk.published;
        running = s.desk.running;
      };
    }

-- `asyncio.create_task(self._recover(...))`
unfoldable pub start_task : Scene → Scene
start_task s = record s { desk = record s.desk { running = s.monitor.agent_id ∷ s.desk.running } }

unfoldable pub begin_recovery : Scene → Scene
unfolding transition start_task
begin_recovery s =
    if member s.monitor.agent_id s.desk.running
    then s
    else start_task (transition recovering recovery_started s)

unfoldable pub suspect_healthy : Scene → Scene
unfolding transition same_health
suspect_healthy s =
    if same_health s.monitor.health healthy then transition suspect soft_timeout s else s

-- `if elapsed >= hard_timeout_s`; a transition to the health at hand does nothing.
unfoldable pub hard_timeout_reached : Scene → Scene
unfolding begin_recovery suspect_healthy
hard_timeout_reached s = begin_recovery (transition unhealthy hard_timeout (suspect_healthy s))

unfoldable pub evaluate_active : WatchdogConfig → ℕ → Scene → Scene
unfolding hard_timeout_reached suspect_healthy
evaluate_active config now s =
    if leb (s.monitor.last_progress_at + config.hard_timeout_s) now
    then hard_timeout_reached s
    else if leb (s.monitor.last_progress_at + config.soft_timeout_s) now
    then suspect_healthy s
    else s

-- `_evaluate`
unfoldable pub evaluate : WatchdogConfig → ℕ → Scene → Scene
unfolding evaluate_active is_resting is_active same_health
evaluate config now s =
    if same_health s.monitor.health recovering
    then s
    else if is_resting s.monitor.state
    then transition healthy agent_resting s
    else if is_active s.monitor.state
    then evaluate_active config now s
    else s

-- What an observation changes: the scene, and whether the agent progressed
pub record Seen : Type 0 where
  pub progressed : Bool
  pub scene : Scene

unfoldable pub saw_state : String → Scene → Seen
unfolding update_state
saw_state state s =
    let normalized = lower state in
    record {
      progressed = not (normalized == s.monitor.state);
      scene = record {
        monitor = record s.monitor { state = normalized };
        desk = record s.desk {
          agents = update_state s.desk.agents s.monitor.agent_id normalized none;
        };
      };
    }

-- `if state:`
unfoldable pub see_state : Option String → Scene → Seen
unfolding saw_state
see_state none s = record { progressed = false; scene = s }
see_state (some state) s =
    if is_empty state then record { progressed = false; scene = s } else saw_state state s

unfoldable pub new_hash : String → Scene → Seen
unfolding update_state
new_hash hash s = record {
  progressed = true;
  scene = record {
    monitor = record s.monitor { last_output_hash = some hash };
    desk = record s.desk {
      agents = update_state s.desk.agents s.monitor.agent_id s.monitor.state (some hash);
    };
  };
}

unfoldable pub is_hash : Option String → String → Bool
is_hash none hash = false
is_hash (some old) hash = old == hash

unfoldable pub hashed : ℕ → Scene → Scene
hashed now s = record s { monitor = record s.monitor { last_hash_at = now } }

-- `if output is not None:`, the output by its hash
unfoldable pub see_output : ℕ → Option String → Seen → Seen
unfolding new_hash is_hash hashed
see_output now none seen = seen
see_output now (some hash) seen =
    if is_hash seen.scene.monitor.last_output_hash hash
    then record seen { scene = hashed now seen.scene }
    else new_hash hash (hashed now seen.scene)

-- `if progressed or monitor.state in _RESTING_STATES`
unfoldable pub settle : ℕ → Seen → Scene
unfolding record_heartbeat transition is_resting
settle now seen =
    let m = seen.scene.monitor in
    let d = seen.scene.desk in
    if seen.progressed || is_resting m.state
    then transition healthy (if is_resting m.state then agent_resting else agent_progress) (record {
      monitor = record m { last_progress_at = now };
      desk = record d { agents = record_heartbeat d.agents m.agent_id m.last_output_hash };
    })
    else seen.scene

unfoldable pub seen_at : ℕ → Option String → Scene → Scene
seen_at now pane_id s = record s {
  monitor = record s.monitor {
    last_seen_at = now;
    pane_id = elim pane_id [ none ↦ s.monitor.pane_id | some p ↦ or_else p s.monitor.pane_id ];
  };
}

-- `observe_agent` on the agent's monitor
unfoldable pub observe : ℕ → Option String → Option String → Option String → Scene → Scene
unfolding seen_at see_state see_output settle
observe now state pane_id hash s =
    settle now (see_output now hash (see_state state (seen_at now pane_id s)))

-- The end of `_recover`, by what the manager answered
unfoldable pub recovered : ℕ → Bool → Scene → Scene
unfolding transition
recovered now success s =
    let s1 : Scene = record s {
      monitor = record s.monitor { last_seen_at = now; last_progress_at = now };
    } in
    if success
    then transition healthy recovery_success s1
    else transition unhealthy recovery_failed s1

-- The task of an agent is done.
unfoldable pub end_task : String → Desk → Desk
end_task agent_id d = record d { running = filter (λ x. not (x == agent_id)) d.running }
