-- ===== src/Watchdog/Recovery.antt =====
-- herdmaster/src/herdmaster/watchdog/recovery.py, `RecoveryManager.recover`. The adapter, the resolver of
-- commands and the replayer of tasks are parameters: what each call of theirs raises, if it raises.
-- Resolving the command does not raise here; health events are those of the manager's own option
-- `manage_health_events`, which the watchdog turns off, and are left out.
pub mod Escalation
use agentic_agnostic_orchest.Base.{
  ℕ, ◌+◌, String, Bool, true, false, Option, none, some, List, [], ◌∷◌, if◌then◌else◌, leb, Dict,
  get, put, pop, get_or, is_empty, or_else,
}

-- The calls in their order; the last one has a replayer to ask, or none.
pub data RecoveryCall : Type 0 where
  kill_hung_process : String → RecoveryCall
  respawn_agent : String → String → RecoveryCall
  agent_wait : String → RecoveryCall
  replay_last_task : String → RecoveryCall

pub data RecoveryError : Type 0 where
  missing_pane missing_command no_replayer : RecoveryError
  raised_error : String → RecoveryError

-- The payload of an `ALERT` message
pub record Alert : Type 0 where
  pub agent_id : String
  pub failures : ℕ
  pub error : RecoveryError

pub record Manager : Type 0 where
  pub failures : Dict ℕ
  pub alerts : List Alert

unfoldable pub failure_count : Manager → String → ℕ
failure_count m agent_id = get_or (get m.failures agent_id) 0

unfoldable pub reset : Manager → String → Manager
reset m agent_id = record m { failures = pop m.failures agent_id }

-- `if failures >= max_retries: _emit_alert(...)`
unfoldable pub emit_alert : ℕ → String → ℕ → RecoveryError → List Alert → List Alert
emit_alert max_retries agent_id failures error alerts =
    if leb max_retries failures
    then record { agent_id = agent_id; failures = failures; error = error } ∷ alerts
    else alerts

unfoldable pub fail : ℕ → Manager → String → RecoveryError → Manager
unfolding failure_count emit_alert
fail max_retries m agent_id error =
    let failures = failure_count m agent_id + 1 in
    record {
      failures = put m.failures agent_id failures;
      alerts = emit_alert max_retries agent_id failures error m.alerts;
    }

unfoldable pub finish : ℕ → Manager → String → Option RecoveryError → Bool × Manager
unfolding reset fail
finish max_retries m agent_id none = (true, reset m agent_id)
finish max_retries m agent_id (some error) = (false, fail max_retries m agent_id error)

module _ (raises : RecoveryCall → Option String) where
  unfoldable pub first_raised : List RecoveryCall → Option RecoveryError
  first_raised [] = none
  first_raised (c ∷ calls) = elim (raises c) [
    | none ↦ first_raised calls
    | some text ↦ some (raised_error text)
  ]

  -- `_replay_last_task`, after the other calls
  unfoldable pub replay : Bool → String → Option RecoveryError
  unfolding first_raised
  replay has_replayer agent_id =
      if has_replayer then first_raised (replay_last_task agent_id ∷ []) else some no_replayer

  unfoldable pub procedure : Bool → String → String → String → Option RecoveryError
  unfolding first_raised replay
  procedure has_replayer agent_id pane command =
      elim (first_raised
        (kill_hung_process pane ∷ respawn_agent pane command ∷ agent_wait agent_id ∷ [])) [
          | some error ↦ some error
          | none ↦ replay has_replayer agent_id
        ]

  -- What the `try` raises for a pane and a command
  unfoldable pub attempt : Bool → String → String → String → Option RecoveryError
  unfolding procedure
  attempt has_replayer agent_id pane command =
      if is_empty pane
      then some missing_pane
      else if is_empty command
      then some missing_command
      else procedure has_replayer agent_id pane command

  -- `pane_id` and `command` as given, and what the agent's row and the resolver say
  unfoldable pub recover :
      ℕ → Bool → Manager → String → String → String → String → String → Bool × Manager
  unfolding attempt finish
  recover max_retries has_replayer m agent_id pane_id row_pane command resolved =
      finish max_retries m agent_id
        (attempt has_replayer agent_id (or_else pane_id row_pane) (or_else command resolved))

unfoldable pub new_manager : Manager
new_manager = record { failures = []; alerts = [] }

-- What one recovery is given: the calls that raise, whether a task replayer was injected, and the pane
-- and the command, as the caller and as the agent's row and the resolver have them
pub record Attempt : Type 0 where
  pub raises : RecoveryCall → Option String
  pub has_replayer : Bool
  pub pane_id : String
  pub row_pane : String
  pub command : String
  pub resolved : String

unfoldable pub attempted : Attempt → String → Option RecoveryError
unfolding attempt
attempted a agent_id =
    attempt a.raises a.has_replayer agent_id (or_else a.pane_id a.row_pane)
      (or_else a.command a.resolved)

unfoldable pub recover_with : ℕ → String → Attempt → Manager → Bool × Manager
unfolding recover
recover_with max_retries agent_id a m =
    recover a.raises max_retries a.has_replayer m agent_id a.pane_id a.row_pane a.command a.resolved

-- What a recovery by the watchdog leaves: the answer, the watchdog's own manager, if it has one, and
-- the alerts that were published
pub record Recovered : Type 0 where
  pub success : Bool
  pub recovery_manager : Option Manager
  pub published : List Alert

-- `self.recovery_manager or RecoveryManager(...)` of `WatchdogEngine._recover`, and its recovery
unfoldable pub run_recovery : ℕ → String → Attempt → Option Manager → Recovered
unfolding recover_with new_manager
run_recovery max_retries agent_id a none =
    let (success, m) = recover_with max_retries agent_id a new_manager in
    record { success = success; recovery_manager = none; published = m.alerts }
run_recovery max_retries agent_id a (some manager) =
    let (success, m) = recover_with max_retries agent_id a manager in
    record { success = success; recovery_manager = some m; published = m.alerts }
