-- ===== src/Scheduler/Examples.antt =====
-- The scheduler's theorems at concrete inputs: a hash kept in memory, a delay counted in whole
-- seconds, and a vendor that limits the rate twice.
use agentic_agnostic_orchest.Base.{
  ℕ, suc, ◌≡◌, refl, String, true, Option, none, some, List, [], ◌∷◌, Dict, IsUnique, get, put,
  put-IsUnique, get-put, arith, inl, leb, ◌++◌, ◌^◌, ◌⊎◌, length, All, ◌<◌,
}
use agentic_agnostic_orchest.Base.Int.{ℤ, pos, ◌≤ℤ◌, ◌+ℤ◌, ◌-ℤ◌, max_ℤ, min_ℤ}
use agentic_agnostic_orchest.Core.{TaskEnvelope, terminal}
use agentic_agnostic_orchest.Scheduler.Reals.{nat_reals}
use agentic_agnostic_orchest.Scheduler.Backoff.{
  BackoffPolicy, delay_bounds, delay, base_delay, seconds, overflow,
}
use agentic_agnostic_orchest.Scheduler.Quota.{
  RedisHash, QuotaLedger, Payload, has_headroom, snapshot, effective_remaining_seconds,
  five_hour_remaining_seconds, weekly_remaining_seconds, unused, reserve, new_ledger,
}
use agentic_agnostic_orchest.Scheduler.Quota.Reserve.{reserve_takes}
use agentic_agnostic_orchest.Scheduler.Quota.Restart.{quota_survives_restart, IsKeyed, reserve_all}
use agentic_agnostic_orchest.Scheduler.Admission.{
  Scheduler, Outcome, returned, rate_limited, AdmissionDecision, admit, dispatch_with_backoff,
  value,
}
use agentic_agnostic_orchest.Scheduler.Admission.Decisions.{
  admit_conserves, never_overbooks, remaining, charge, admit_all,
}
use agentic_agnostic_orchest.Scheduler.Admission.Rounds.{Fate, AllLimited}
use agentic_agnostic_orchest.Scheduler.Admission.Retries.{dispatch_leaves, dispatch_recovers}

-- A hash in memory: fields that stand once each.
abbrev memory : RedisHash
memory = record {
  Store = (d : Dict Payload) × IsUnique d;
  hset = λ (d, u) k p. (put d k p, put-IsUnique d k p u);
  hgetall = λ s. s.0;
  hgetall-IsUnique = λ s. s.1;
  hgetall-hset = λ s k p j. get-put s.0 k j p;
}

abbrev task : TaskEnvelope
task = record {
  task_id = "t1";
  tenant_id = "acme";
  project_id = "p1";
  assignee_runtime = "codex";
  prompt = "build";
  budget = record { max_tokens = none; timeout_seconds = none; seat_seconds = some 60 };
  credential_ref = "ref";
  operation_mode = terminal;
  issue_id = none;
  agent_id = none;
  account_id = none;
}

abbrev policy : BackoffPolicy nat_reals
policy = record { base_seconds = 2; max_seconds = 30; jitter_ratio = 1 }

abbrev ledger : QuotaLedger memory
ledger = record { redis = none; snapshots = [] }

abbrev scheduler : Scheduler nat_reals memory
scheduler = record {
  quota = ledger;
  max_concurrent = pos 2;
  backoff = policy;
  running_count = pos 0;
  queue = [];
  backoff_log = [];
}

-- Two refusals, then an answer.
abbrev flaky : ℕ → Outcome ℕ
flaky (suc (suc (suc n))) = returned 7
flaky n = rate_limited 429

abbrev busy : ℕ → Outcome ℕ
busy n = rate_limited 503

abbrev draws : ℕ → ℕ
draws n = 0

delay_bounds_example :
    (nat_reals.of_nat (2 ^ 2) ≡ none) × (delay nat_reals policy 3 1 ≡ overflow)
    ⊎ ((b : ℕ) × (d : ℕ) × (base_delay nat_reals policy 3 ≡ some b)
        × (delay nat_reals policy 3 1 ≡ seconds d)
        × (leb b d ≡ true)
        × (leb d 30 ≡ true))
delay_bounds_example = delay_bounds nat_reals policy 3 1 (ground arith) refl refl refl

fits : has_headroom memory ledger "codex" (pos 60) ≡ true
unfolding has_headroom snapshot get effective_remaining_seconds five_hour_remaining_seconds
    weekly_remaining_seconds unused ◌-ℤ◌ max_ℤ min_ℤ
fits = refl

reserve_takes_example :
    (effective_remaining_seconds
          (snapshot memory (reserve memory ledger "codex" (pos 60) 5) "codex")
        +ℤ max_ℤ (pos 0) (pos 60)
      ≡ effective_remaining_seconds (snapshot memory ledger "codex"))
    × (pos 0
        ≤ℤ effective_remaining_seconds
            (snapshot memory (reserve memory ledger "codex" (pos 60) 5) "codex"))
reserve_takes_example = reserve_takes memory ledger "codex" (pos 60) 5 fits

abbrev burns : List (String × ℤ × ℕ)
burns = ("codex", pos 60, 5) ∷ ("opus", pos 10, 6) ∷ []

abbrev blank : (d : Dict Payload) × IsUnique d
blank = ([], tt)

blank-IsKeyed : IsKeyed memory blank
unfolding get
blank-IsKeyed k p h = absurd (cc h)

quota_survives_restart_example :
    (st' : (d : Dict Payload) × IsUnique d) × ((reserve_all memory burns
        (new_ledger memory [] (some blank))).redis
      ≡ some st')
    × ((v : String)
        → snapshot memory (new_ledger memory [] (some st')) v
          ≡ snapshot memory (reserve_all memory burns (new_ledger memory [] (some blank))) v)
quota_survives_restart_example = quota_survives_restart memory blank burns blank-IsKeyed

abbrev after_admit : AdmissionDecision × Scheduler nat_reals memory
after_admit = admit nat_reals memory scheduler task none none 5

admit_conserves_example :
    remaining nat_reals memory after_admit.1 "codex"
      +ℤ charge nat_reals memory "codex" after_admit.0
    ≡ remaining nat_reals memory scheduler "codex"
admit_conserves_example = admit_conserves nat_reals memory scheduler task none none 5 "codex"

abbrev requests : List (TaskEnvelope × Option String × Option ℤ × ℕ)
requests = (task, none, none, 5) ∷ (task, some "opus", some (pos 9), 6) ∷ []

never_overbooks_example :
    let (booked, s') = admit_all nat_reals memory "codex" requests scheduler in
    (booked ≤ℤ remaining nat_reals memory scheduler "codex")
    × (remaining nat_reals memory s' "codex" +ℤ booked
        ≡ remaining nat_reals memory scheduler "codex")
never_overbooks_example = never_overbooks nat_reals memory "codex" requests scheduler

dispatch_recovers_example :
    (dispatch_with_backoff nat_reals memory task flaky draws scheduler 4).0 ≡ value 7
dispatch_recovers_example =
    dispatch_recovers nat_reals memory task flaky draws scheduler 4 2 7 (omega arith)
      (inl refl, (inl refl, tt)) ((1, refl), ((2, refl), tt)) refl

dispatch_leaves_example :
    let (reply, s') = dispatch_with_backoff nat_reals memory task flaky draws scheduler 4 in
    (s'.running_count ≡ pos 0)
    × (s'.quota ≡ ledger)
    × (s'.max_concurrent ≡ pos 2)
    × Fate nat_reals memory task flaky draws
        (AllLimited nat_reals memory task flaky draws 4 1)
        4
        []
        reply
        s'.queue
    × ((waits : List ℕ) × (s'.backoff_log ≡ [] ++ waits)
        × (length waits < 4)
        × All (λ d. leb d 30 ≡ true) waits)
dispatch_leaves_example =
    dispatch_leaves nat_reals memory task flaky draws scheduler 4 (omega arith)
