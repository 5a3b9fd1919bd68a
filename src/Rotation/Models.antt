-- ===== src/Rotation/Models.antt =====
-- control-plane/rotation/models.py: accounts, their status and priority. Times are seconds.
use agentic_agnostic_orchest.Base.{
  ℕ, ◌*◌, String, Bool, true, false, Option, none, some, [], ◌∷◌, Dict, get, get_or, leb, lower,
}
use agentic_agnostic_orchest.Base.Int.{ℤ, pos}

-- `VENDOR_PRIORITY`
abbrev pub vendor_priority : Dict ℤ
vendor_priority =
    ("codex", pos 1)
    ∷ ("opus", pos 2)
    ∷ ("claude", pos 2)
    ∷ ("glm", pos 2)
    ∷ ("antigravity", pos 3)
    ∷ []

abbrev pub default_priority : ℤ
default_priority = pos 99

abbrev pub window_seconds_5h : ℕ
window_seconds_5h = 5 * 60 * 60

pub data AccountStatus : Type 0 where
  available leased exhausted cooldown degraded : AccountStatus

pub data RotationReason : Type 0 where
  quota_exhausted_reactive quota_forecast_proactive login_failed manual : RotationReason

pub record Account : Type 0 where
  pub account_id : String
  pub vendor : String
  pub tenant_id : String
  pub seat_id : String
  pub home_dir : String
  pub config_dir : String
  pub auth_mode : String
  pub priority : Option ℤ
  pub tokens_per_window : ℤ
  pub window_seconds : ℕ
  pub status : AccountStatus
  pub window_start : Option ℕ
  pub tokens_used : ℤ
  pub cooldown_until : Option ℕ
  pub last_error : Option String

unfoldable pub effective_priority : Account → ℤ
unfolding get lower
effective_priority a = elim a.priority [
  | some p ↦ p
  | none ↦ get_or (get vendor_priority (lower a.vendor)) default_priority
]

-- `cooldown_until is not None and now >= cooldown_until`
unfoldable pub cooled : Option ℕ → ℕ → Bool
cooled none now = false
cooled (some until) now = leb until now

unfoldable pub selectable_in : AccountStatus → Option ℕ → ℕ → Bool
unfolding cooled
selectable_in leased until now = false
selectable_in degraded until now = false
selectable_in exhausted until now = cooled until now
selectable_in cooldown until now = cooled until now
selectable_in available until now = true

-- `Account.is_selectable`
unfoldable pub is_selectable : Account → ℕ → Bool
unfolding selectable_in
is_selectable a now = selectable_in a.status a.cooldown_until now

pub record TaskSnapshot : Type 0 where
  pub task_id : String
  pub prompt : String
  pub cwd : Option String
  pub checkpoint_ref : Option String

-- The messages of `RotationOutcome.error`.
pub data RotationError : Type 0 where
  max_rotations already_in_progress no_available_account : RotationError

pub record RotationOutcome : Type 0 where
  pub rotated : Bool
  pub reason : RotationReason
  pub from_account : Option String
  pub to_account : Option String
  pub parked : Bool
  pub wake_at : Option ℕ
  pub error : Option RotationError
