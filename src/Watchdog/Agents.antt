-- ===== src/Watchdog/Agents.antt =====
-- `AgentRepo` of herdmaster/src/herdmaster/db/repositories.py, as far as the watchdog uses it: its
-- statements are functions on a table of rows by id. Times and the metrics of tasks are left out.
use agentic_agnostic_orchest.Base.{
  String, Bool, true, false, Option, none, some, List, ◌∷◌, if◌then◌else◌, is_some, Dict, get, put,
  is_empty, ◌==◌,
}

-- The texts that the watchdog writes to the column `health`, and any other
pub data Health : Type 0 where
  healthy suspect unhealthy recovering : Health
  other : String → Health

unfoldable pub same_health : Health → Health → Bool
same_health healthy healthy = true
same_health suspect suspect = true
same_health unhealthy unhealthy = true
same_health recovering recovering = true
same_health (other s) (other t) = s == t
same_health a b = false

-- `_string(health) or _HEALTHY`
unfoldable pub or_healthy : Health → Health
or_healthy (other t) = if is_empty t then healthy else other t
or_healthy h = h

pub record AgentRow : Type 0 where
  pub label : String
  pub agent_type : String
  pub role : String
  pub herdr_pane : Option String
  pub herdr_ws : Option String
  pub state : String
  pub health : Health
  pub strengths : Option String
  pub last_output_hash : Option String

-- A row of the table `health_events`
pub record HealthEvent : Type 0 where
  pub agent_id : String
  pub event_type : Health

-- What an upsert sets of a row
pub record Upsert : Type 0 where
  pub label : String
  pub agent_type : String
  pub role : String
  pub herdr_pane : Option String
  pub herdr_ws : Option String
  pub state : String
  pub health : Health
  pub strengths : Option String

unfoldable pub upsert_row : Option AgentRow → Upsert → AgentRow
upsert_row before u = record {
  label = u.label;
  agent_type = u.agent_type;
  role = u.role;
  herdr_pane = u.herdr_pane;
  herdr_ws = u.herdr_ws;
  state = u.state;
  health = u.health;
  strengths = u.strengths;
  last_output_hash = elim before [ none ↦ none | some row ↦ row.last_output_hash ];
}

unfoldable pub upsert : Dict AgentRow → String → Upsert → Dict AgentRow
unfolding upsert_row
upsert agents agent_id u = put agents agent_id (upsert_row (get agents agent_id) u)

-- `UPDATE agents SET ... WHERE id = ?`
unfoldable pub update_agent : (AgentRow → AgentRow) → Dict AgentRow → String → Dict AgentRow
update_agent f agents agent_id = elim (get agents agent_id) [
  | none ↦ agents
  | some row ↦ put agents agent_id (f row)
]

-- `COALESCE(?, last_output_hash)`
unfoldable pub coalesce : Option String → Option String → Option String
coalesce none old = old
coalesce (some new) old = some new

unfoldable pub update_state : Dict AgentRow → String → String → Option String → Dict AgentRow
unfolding update_agent coalesce
update_state agents agent_id state last_output_hash =
    update_agent
      (λ row. record row {
        state = state;
        last_output_hash = coalesce last_output_hash row.last_output_hash;
      })
      agents agent_id

unfoldable pub record_heartbeat : Dict AgentRow → String → Option String → Dict AgentRow
unfolding update_agent coalesce
record_heartbeat agents agent_id last_output_hash =
    update_agent
      (λ row. record row { last_output_hash = coalesce last_output_hash row.last_output_hash })
      agents agent_id

unfoldable pub update_health : Dict AgentRow → String → Health → Dict AgentRow
unfolding update_agent
update_health agents agent_id health =
    update_agent (λ row. record row { health = health }) agents agent_id

-- The audit row, where the update had one
unfoldable pub health_event : Dict AgentRow → List HealthEvent → String → Health → List HealthEvent
health_event agents events agent_id health =
    if is_some (get agents agent_id)
    then record { agent_id = agent_id; event_type = health } ∷ events
    else events
