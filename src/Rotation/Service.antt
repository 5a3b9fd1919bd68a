-- ===== src/Rotation/Service.antt =====
-- control-plane/rotation/service.py: `AccountRotationService`, one call of `on_exhaustion` at a time.
-- The authenticator, the resume hook and the world that they act on are parameters; they do not call
-- back into the service.
pub mod Loop
pub mod Rotations
use agentic_agnostic_orchest.Base.{
  ℕ, zero, suc, ◌+◌, String, Bool, true, false, not, Option, none, some, List, [], ◌∷◌, Dict, get,
  put, get_or, leb, ◌==◌, if◌then◌else◌, filter, any,
}
use agentic_agnostic_orchest.Rotation.Models.{
  Account, TaskSnapshot, RotationReason, RotationOutcome, RotationError, max_rotations,
  already_in_progress, no_available_account,
}
use agentic_agnostic_orchest.Rotation.Pool.{
  AccountPool, select_next, next_wake_at, lease, mark_exhausted, mark_degraded, get_account,
}

-- How a call of the authenticator or of the hook ends: it answers, it raises NotImplementedError, or
-- it raises another exception.
pub data Attempt (A : Type 0) : Type 0 where
  answers : A → Attempt A
  fails : Attempt A
  not_implemented : Attempt A

-- `AccountAuthenticator` and `ResumeHook` over a world. An exception of `logout` is swallowed by the
-- caller, so that only its effect counts.
pub record Runtime : Type 1 where
  pub World : Type 0
  pub logout : Account → World → World
  pub login : Account → World → Attempt String × World
  pub wait_authenticated : String → World → Attempt Bool × World
  pub resume_hook : Option (Account → TaskSnapshot → World → Attempt (Unit {0}) × World)

pub record Service : Type 0 where
  pub pool : AccountPool
  pub max_rotations_per_window : ℕ
  pub max_login_attempts : ℕ
  pub locks : List String
  pub rotation_counts : Dict ℕ

-- `self._rotation_counts.get(task_id, 0)`
unfoldable pub rotations : Service → String → ℕ
rotations s task_id = get_or (get s.rotation_counts task_id) 0

unfoldable pub is_locked : Service → String → Bool
is_locked s agent = any (λ x. x == agent) s.locks

-- `self._locks.discard(agent_id)`
unfoldable pub unlock : String → Service → Service
unlock agent s = record s { locks = filter (λ x. not (x == agent)) s.locks }

unfoldable pub reset_window_counters : Service → Service
reset_window_counters s = record s { rotation_counts = [] }

-- What `on_exhaustion` does: it answers an outcome or it raises.
pub data Reply : Type 0 where
  outcome : RotationOutcome → Reply
  key_error : Reply
  not_implemented_error : Reply

-- The arguments of `on_exhaustion`.
pub record Exhaustion : Type 0 where
  pub agent_id : String
  pub tenant_id : String
  pub current_account_id : String
  pub snapshot : TaskSnapshot
  pub reason : RotationReason
  pub cooldown_until : Option ℕ
  pub vendor : Option String
  pub now : ℕ

unfoldable pub refused : Exhaustion → RotationError → RotationOutcome
refused x e = record {
  rotated = false;
  reason = x.reason;
  from_account = some x.current_account_id;
  to_account = none;
  parked = false;
  wake_at = none;
  error = some e;
}

-- `parked=True, wake_at=self.pool.next_wake_at(tenant_id)`
unfoldable pub parks : Exhaustion → AccountPool → RotationError → RotationOutcome
unfolding refused
parks x p e = record (refused x e) { parked = true; wake_at = next_wake_at p x.tenant_id }

unfoldable pub rotates : Exhaustion → String → RotationOutcome
rotates x to = record {
  rotated = true;
  reason = x.reason;
  from_account = some x.current_account_id;
  to_account = some to;
  parked = false;
  wake_at = none;
  error = none;
}

unfoldable pub count_rotation : Service → AccountPool → String → Service
unfolding rotations
count_rotation s p task_id = record s {
  pool = p;
  rotation_counts = put s.rotation_counts task_id (rotations s task_id + 1);
}

-- The test on `_try_login_and_resume`, which may raise.
unfoldable pub after_attempt : {A : Type 0} → Attempt Bool → A → A → A → A
after_attempt (answers true) taken again raised = taken
after_attempt (answers false) taken again raised = again
after_attempt fails taken again raised = again
after_attempt not_implemented taken again raised = raised

module _ (T : Runtime) where
  open T use {World, logout, login, wait_authenticated, resume_hook}

  unfoldable pub resume : Account → TaskSnapshot → World → Attempt Bool × World
  resume a snapshot w = elim resume_hook [
    | none ↦ (answers true, w)
    | some hook ↦
        let (r, w') = hook a snapshot w in
        elim r [
          | answers _ ↦ (answers true, w')
          | fails ↦ (answers false, w')
          | not_implemented ↦ (not_implemented, w')
        ]
  ]

  unfoldable pub await_login : Account → TaskSnapshot → String → World → Attempt Bool × World
  unfolding resume
  await_login a snapshot session w =
      let (r, w') = wait_authenticated session w in
      elim r [
        | answers ready ↦ if ready then resume a snapshot w' else (answers false, w')
        | fails ↦ (answers false, w')
        | not_implemented ↦ (not_implemented, w')
      ]

  -- `_try_login_and_resume`: NotImplementedError passes, any other exception answers False.
  unfoldable pub try_login_and_resume : Account → TaskSnapshot → World → Attempt Bool × World
  unfolding await_login
  try_login_and_resume a snapshot w =
      let (r, w') = login a w in
      elim r [
        | answers session ↦ await_login a snapshot session w'
        | fails ↦ (answers false, w')
        | not_implemented ↦ (not_implemented, w')
      ]

  module _ (x : Exhaustion) where
    unfoldable pub take_account : Service → World → String → Reply × Service × World
    unfolding count_rotation rotates
    take_account s w id = elim (lease s.pool id x.agent_id) [
      | none ↦ (key_error, s, w)
      | some p ↦ (outcome (rotates x id), count_rotation s p x.snapshot.task_id, w)
    ]

    -- `for _ in range(self.max_login_attempts)` and the parking behind it
    unfoldable pub try_accounts : ℕ → List String → Service → World → Reply × Service × World
    unfolding take_account parks after_attempt
    try_accounts zero tried s w = (outcome (parks x s.pool no_available_account), s, w)
    try_accounts (suc n) tried s w = elim (select_next s.pool x.vendor x.tenant_id x.now tried) [
      | none ↦ (outcome (parks x s.pool no_available_account), s, w)
      | some next ↦
          let (r, w') = try_login_and_resume next x.snapshot w in
          let again : Reply × Service × World =
            elim (mark_degraded s.pool next.account_id "login/resume failed during rotation") [
              | none ↦ (key_error, s, w')
              | some p ↦ try_accounts n (next.account_id ∷ tried) (record s { pool = p }) w'
            ] in
          after_attempt r (take_account s w' next.account_id) again (not_implemented_error, s, w')
    ]

    -- The body of the `try` in `on_exhaustion`
    unfoldable pub rotate_locked : Service → World → Reply × Service × World
    unfolding try_accounts
    rotate_locked s w = elim (mark_exhausted s.pool x.current_account_id x.cooldown_until x.now) [
      | none ↦ (key_error, s, w)
      | some p ↦
          let w' : World = elim (get_account p x.current_account_id) [
            | none ↦ w
            | some current ↦ logout current w
          ] in
          try_accounts s.max_login_attempts (x.current_account_id ∷ []) (record s { pool = p }) w'
    ]

    unfoldable pub on_exhaustion : Service → World → Reply × Service × World
    unfolding rotate_locked refused parks
    on_exhaustion s w =
        if leb s.max_rotations_per_window (rotations s x.snapshot.task_id)
        then (outcome (parks x s.pool max_rotations), s, w)
        else if is_locked s x.agent_id
        then (outcome (refused x already_in_progress), s, w)
        else (let (r, s', w') = rotate_locked (record s { locks = x.agent_id ∷ s.locks }) w in
            (r, unlock x.agent_id s', w'))
