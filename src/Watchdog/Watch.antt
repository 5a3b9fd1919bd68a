-- ===== src/Watchdog/Watch.antt =====
-- The monitors of `WatchdogEngine` of herdmaster/src/herdmaster/watchdog/engine.py and its handlers: a poll,
-- a primary event (by the values read from it), and the end of a recovery.
mod Published
pub mod Sound
pub mod Stuck
pub mod Overdue
pub mod Again
use agentic_agnostic_orchest.Base.{
  ℕ, ◌+◌, String, Bool, true, false, ◌||◌, ◌&&◌, not, Option, none, some, List, [], ◌∷◌,
  if◌then◌else◌, leb, is_some, Dict, get, put, dict_keys, get_or, is_empty, or_else, lower, member,
  filter, any, find, ◌==◌,
}
use agentic_agnostic_orchest.Acl.Engine.{AclRole, AclConfig}
use agentic_agnostic_orchest.Watchdog.Agents.{Health, healthy, or_healthy, AgentRow, Upsert, upsert}
use agentic_agnostic_orchest.Watchdog.Recovery.{RecoveryCall, Manager, recover}
use agentic_agnostic_orchest.Watchdog.Engine.{
  WatchdogConfig, Monitor, Desk, Scene, evaluate, observe, recovered, end_task,
}

pub record Watch : Type 0 where
  pub monitors : Dict Monitor
  pub desk : Desk

-- An agent as the adapter lists it
pub record Listed : Type 0 where
  pub id : String
  pub label : String
  pub agent_type : String
  pub state : String
  pub pane_id : String
  pub workspace : String

unfoldable pub text_of : Option String → String
text_of none = ""
text_of (some s) = s

unfoldable pub some_text : String → Option String
some_text s = if is_empty s then none else some s

-- What a new monitor takes of the agent's row
unfoldable pub load_row : Option AgentRow → Monitor → Monitor
unfolding or_healthy text_of some_text
load_row none m = m
load_row (some row) m = record m {
  state = or_else row.state "unknown";
  health = or_healthy row.health;
  pane_id = text_of row.herdr_pane;
  last_output_hash = some_text (text_of row.last_output_hash);
}

unfoldable pub new_monitor : String → ℕ → Monitor
new_monitor agent_id now = record {
  agent_id = agent_id;
  pane_id = "";
  state = "unknown";
  health = healthy;
  last_seen_at = now;
  last_progress_at = now;
  last_hash_at = 0;
  last_output_hash = none;
}

-- `_monitor`
unfoldable pub monitor_of : Watch → String → ℕ → Monitor
unfolding load_row new_monitor
monitor_of w agent_id now = elim (get w.monitors agent_id) [
  | some m ↦ m
  | none ↦ load_row (get w.desk.agents agent_id) (new_monitor agent_id now)
]

unfoldable pub scene_of : Watch → String → ℕ → Scene
unfolding monitor_of
scene_of w agent_id now = record { monitor = monitor_of w agent_id now; desk = w.desk }

unfoldable pub stored : Watch → String → Scene → Watch
stored w agent_id s = record { monitors = put w.monitors agent_id s.monitor; desk = s.desk }

unfoldable pub observe_agent :
    ℕ → String → Option String → Option String → Option String → Watch → Watch
unfolding scene_of stored
observe_agent now agent_id state pane_id hash w =
    if is_empty agent_id
    then w
    else stored w agent_id (observe now state pane_id hash (scene_of w agent_id now))

unfoldable pub evaluate_one : WatchdogConfig → ℕ → String → Watch → Watch
unfolding stored
evaluate_one config now agent_id w = elim (get w.monitors agent_id) [
  | none ↦ w
  | some m ↦ stored w agent_id (evaluate config now (record { monitor = m; desk = w.desk }))
]

unfoldable pub evaluate_each : WatchdogConfig → ℕ → List String → Watch → Watch
unfolding evaluate_one
evaluate_each config now [] w = w
evaluate_each config now (agent_id ∷ rest) w =
    evaluate_each config now rest (evaluate_one config now agent_id w)

unfoldable pub evaluate_all : WatchdogConfig → ℕ → Watch → Watch
unfolding evaluate_each
evaluate_all config now w = evaluate_each config now (dict_keys w.monitors) w

unfoldable pub with_agents : Watch → Dict AgentRow → Watch
with_agents w agents = record w { desk = record w.desk { agents = agents } }

-- The label of the row, where it has one
unfoldable pub kept_label : Option AgentRow → String → String
kept_label none label = label
kept_label (some row) label = or_else row.label label

unfoldable pub kept_health : Option AgentRow → Health
unfolding or_healthy
kept_health none = healthy
kept_health (some row) = or_healthy row.health

unfoldable pub kept_role : Option AgentRow → String
kept_role none = "worker"
kept_role (some row) = or_else row.role "worker"

unfoldable pub allowed : WatchdogConfig → String → Bool
allowed config agent_id = elim config.agent_allowlist [
  | [] ↦ true
  | a ∷ rest ↦ member agent_id (a ∷ rest)
]

unfoldable pub hash_is_due : WatchdogConfig → ℕ → Monitor → Bool
hash_is_due config now m =
    not (is_some m.last_output_hash) || leb (m.last_hash_at + config.tertiary_hash_interval_s) now

-- The agent of an event: its id or its pane, and its label or its id
unfoldable pub event_agent : Listed → Listed
event_agent event =
    let id = or_else event.id event.pane_id in
    let label = or_else event.label id in
    record event { id = id; label = label; agent_type = label }

unfoldable pub event_hash : (String → String) → String → Option String
event_hash output_hash output = if is_empty output then none else some (output_hash output)

module _ (fnmatchcase : String → String → Bool) where
  unfoldable pub has_agent : String → AclRole → Bool
  has_agent agent_id role =
      any (λ pattern. pattern == "*" || fnmatchcase agent_id pattern) role.agents

  -- `_role_for_agent`
  unfoldable pub role_for_agent : String → Option AclConfig → Option AgentRow → String
  unfolding has_agent kept_role
  role_for_agent agent_id none existing = kept_role existing
  role_for_agent agent_id (some acl_config) existing =
      elim (find (has_agent agent_id) acl_config.roles) [
        | some role ↦ role.name
        | none ↦ kept_role existing
      ]

  -- What both ways to sync write of an agent
  unfoldable pub synced : Option AclConfig → Option AgentRow → Listed → String → Upsert
  unfolding role_for_agent kept_health some_text
  synced acl_config existing agent label = record {
    label = label;
    agent_type = or_else agent.agent_type "unknown";
    role = role_for_agent agent.id acl_config existing;
    herdr_pane = some_text agent.pane_id;
    herdr_ws = some_text agent.workspace;
    state = or_else agent.state "unknown";
    health = kept_health existing;
    strengths = none;
  }

  unfoldable pub sync_agent : WatchdogConfig → Option AclConfig → Listed → Watch → Watch
  unfolding allowed with_agents synced kept_label
  sync_agent config acl_config agent w =
      let existing = get w.desk.agents agent.id in
      if allowed config agent.id
      then with_agents w (
          upsert w.desk.agents agent.id
            (synced acl_config existing agent (kept_label existing (or_else agent.label agent.id))))
      else w

  unfoldable pub sync_primary_agent : WatchdogConfig → Option AclConfig → Listed → Watch → Watch
  unfolding allowed with_agents synced
  sync_primary_agent config acl_config agent w =
      let existing = get w.desk.agents agent.id in
      if allowed config agent.id
      then with_agents w
          (upsert w.desk.agents agent.id (synced acl_config existing agent agent.label))
      else w

  module _ (output_hash : String → String) (pane_read : String → Option String) where
    -- `_check_output_hash`; an error of the adapter leaves all as it is.
    unfoldable pub check_output_hash : ℕ → String → String → Watch → Watch
    unfolding observe_agent
    check_output_hash now agent_id pane_id w = elim (pane_read pane_id) [
      | none ↦ w
      | some output ↦ observe_agent now agent_id none none (some (output_hash output)) w
    ]

    unfoldable pub poll_agent : WatchdogConfig → Option AclConfig → ℕ → Listed → Watch → Watch
    unfolding sync_agent observe_agent hash_is_due check_output_hash
    poll_agent config acl_config now agent w =
        let seen =
          observe_agent now agent.id (some agent.state) (some agent.pane_id) none
            (sync_agent config acl_config agent w) in
        if not (is_empty agent.pane_id) && hash_is_due config now (monitor_of seen agent.id now)
        then check_output_hash now agent.id agent.pane_id seen
        else seen

    unfoldable pub poll_each : WatchdogConfig → Option AclConfig → ℕ → List Listed → Watch → Watch
    unfolding poll_agent
    poll_each config acl_config now [] w = w
    poll_each config acl_config now (agent ∷ rest) w =
        poll_each config acl_config now rest (poll_agent config acl_config now agent w)

    -- `poll_once`, by the agents that the adapter lists, or its error
    unfoldable pub poll_once :
        WatchdogConfig → Option AclConfig → ℕ → Option (List Listed) → Watch → Watch
    unfolding poll_each evaluate_all
    poll_once config acl_config now none w = evaluate_all config now w
    poll_once config acl_config now (some agents) w =
        evaluate_all config now (poll_each config acl_config now agents w)

  module _ (output_hash : String → String) where
    -- `_handle_primary_event`, by the values read from an event of a status change and its output
    unfoldable pub handle_primary_event :
        WatchdogConfig → Option AclConfig → ℕ → Listed → String → Watch → Watch
    unfolding event_agent event_hash sync_primary_agent observe_agent evaluate_all some_text
    handle_primary_event config acl_config now event output w =
        let agent = event_agent event in
        let listed =
          if is_empty event.state && is_empty event.pane_id
          then w
          else sync_primary_agent config acl_config agent w in
        if is_empty agent.id
        then w
        else evaluate_all config now (
            observe_agent now agent.id (some_text event.state) (some_text event.pane_id)
              (event_hash output_hash output) listed)

-- `_recover` of an agent, with what the manager answered: the task is done afterwards.
unfoldable pub recovery_ends : ℕ → String → Bool → Watch → Watch
unfolding stored
recovery_ends now agent_id success w = elim (get w.monitors agent_id) [
  | none ↦ w
  | some m ↦
      let s = recovered now success (record { monitor = m; desk = w.desk }) in
      stored w agent_id (record s { desk = end_task agent_id s.desk })
]

-- `_recover` ends by an exception of its first part, which has not touched the monitor: of reading the
-- agent's row, of the resolver of commands or of the manager.
unfoldable pub recovery_raises : String → Watch → Watch
recovery_raises agent_id w = record w { desk = end_task agent_id w.desk }
