-- ===== src/Rotation/Examples.antt =====
-- The rotation's theorems at concrete inputs: a pool of two codex accounts, one of them leased.
use agentic_agnostic_orchest.Base.{
  str_leq, first, sort_by, insert_by, ◌≡◌, ◌≢◌, refl, String, true, none, some, [], ◌∷◌, get, put,
  pop, arith, dict_values,
}
use agentic_agnostic_orchest.Base.Int.{pos, ◌-ℤ◌}
use agentic_agnostic_orchest.Rotation.Models.{
  effective_priority, Account, available, leased, RotationOutcome, selectable_in,
  quota_exhausted_reactive, is_selectable,
}
use agentic_agnostic_orchest.Rotation.Pool.{
  AccountPool, empty_pool, register, select_next, is_candidate, vendor_fits, lease, mark_exhausted,
  get_account, change,
}
use agentic_agnostic_orchest.Rotation.Pool.Order.{sort_accounts, key_leq}
use agentic_agnostic_orchest.Rotation.Pool.Selection.{Selects, select_next-Selects}
use agentic_agnostic_orchest.Rotation.Pool.Leases.{
  IsConsistent, Reach, here, next, registers, leases_selected, no_double_lease, Reach-IsConsistent,
  empty-IsConsistent,
}
use agentic_agnostic_orchest.Rotation.Service.{
  Runtime, Service, outcome, key_error, Exhaustion, rotates, answers, rotations, on_exhaustion,
  rotate_locked, try_accounts, take_account, after_attempt, try_login_and_resume, await_login,
  resume, is_locked,
}
use agentic_agnostic_orchest.Rotation.Service.Rotations.{
  on_exhaustion_safe, IsLimited, rotation_moves, rotations_bounded, Moved,
}

abbrev account : String → Account
account id = record {
  account_id = id;
  vendor = "codex";
  tenant_id = "acme";
  seat_id = "s";
  home_dir = "h";
  config_dir = "c";
  auth_mode = "chatgpt";
  priority = some (pos 1);
  tokens_per_window = pos 0;
  window_seconds = 18000;
  status = available;
  window_start = none;
  tokens_used = pos 0;
  cooldown_until = none;
  last_error = none;
}

abbrev one : AccountPool
one = register empty_pool (account "a")

select_next-Selects_example : Selects one none "acme" 5 [] (select_next one none "acme" 5 [])
select_next-Selects_example = select_next-Selects one none "acme" 5 []

one_history : Reach empty_pool one
unfolding empty_pool get
one_history = next here (registers (account "a") refl refl)

one_selects : select_next one none "acme" 5 [] ≡ some (account "a")
unfolding select_next is_candidate vendor_fits is_selectable selectable_in first sort_accounts
    sort_by insert_by get put register empty_pool dict_values
one_selects = refl

no_double_lease_example : get one.leases "a" ≡ none
no_double_lease_example = no_double_lease one none "acme" 5 [] (account "a") one_history one_selects

-- The authenticator answers at once, and there is no hook.
abbrev instant : Runtime
instant = record {
  World = Unit;
  logout = λ a w. w;
  login = λ a w. (answers "session", w);
  wait_authenticated = λ session w. (answers true, w);
  resume_hook = none;
}

abbrev both : AccountPool
both = record { accounts = ("a", account "a") ∷ ("b", account "b") ∷ []; leases = [] }

abbrev held : AccountPool
held = record {
  accounts = ("a", record (account "a") { status = leased }) ∷ ("b", account "b") ∷ [];
  leases = ("a", "agent") ∷ [];
}

held-IsConsistent : IsConsistent held
unfolding empty_pool get put register select_next is_candidate vendor_fits is_selectable
    selectable_in first sort_accounts sort_by insert_by key_leq dict_values lease change
    effective_priority ◌-ℤ◌ str_leq
held-IsConsistent = Reach-IsConsistent empty-IsConsistent (
    next {q = both}
      (next {q = one} (next here (registers (account "a") refl refl))
        (registers (account "b") refl refl))
      (leases_selected none "acme" 5 [] (account "a") "agent" refl refl))

abbrev service : Service
service = record {
  pool = held;
  max_rotations_per_window = 3;
  max_login_attempts = 3;
  locks = [];
  rotation_counts = [];
}

abbrev exhaustion : Exhaustion
exhaustion = record {
  agent_id = "agent";
  tenant_id = "acme";
  current_account_id = "a";
  snapshot = record { task_id = "t"; prompt = "p"; cwd = none; checkpoint_ref = none };
  reason = quota_exhausted_reactive;
  cooldown_until = none;
  vendor = none;
  now = 5;
}

known : get service.pool.accounts "a" ≡ some (record (account "a") { status = leased })
unfolding get
known = refl

on_exhaustion_safe_example :
    let (r, s', _) = on_exhaustion instant exhaustion service tt in
    (r ≢ key_error)
    × (s'.locks ≡ [])
    × IsConsistent s'.pool
    × ((k g : String)
        → k ≢ "a"
        → get service.pool.leases k ≡ some g
        → get s'.pool.leases k ≡ some g)
on_exhaustion_safe_example =
    on_exhaustion_safe instant exhaustion service tt _ held-IsConsistent known

rotations_bounded_example : IsLimited (on_exhaustion instant exhaustion service tt).1
unfolding rotations get
rotations_bounded_example =
    rotations_bounded instant exhaustion service tt _ held-IsConsistent known
      (record { within = λ task. omega arith })

-- The outcome of the run.
abbrev outcome_b : RotationOutcome
outcome_b = rotates exhaustion "b"

runs : (on_exhaustion instant exhaustion service tt).0 ≡ outcome outcome_b
unfolding get put pop select_next is_candidate vendor_fits is_selectable selectable_in first
    sort_accounts sort_by insert_by key_leq dict_values lease change effective_priority ◌-ℤ◌
    on_exhaustion rotate_locked try_accounts take_account after_attempt try_login_and_resume
    await_login resume mark_exhausted get_account is_locked rotations
runs = refl

rotation_moves_example :
    (id : String) × Moved instant exhaustion service tt _ held-IsConsistent known outcome_b
      (on_exhaustion instant exhaustion service tt).1
      id
unfolding rotates
rotation_moves_example =
    rotation_moves instant exhaustion service tt _ held-IsConsistent known outcome_b runs refl
