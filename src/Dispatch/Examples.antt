-- ===== src/Dispatch/Examples.antt =====
-- The queue's theorems at a concrete table: one queued task without dependencies.
use agentic_agnostic_orchest.Base.{
  ℕ, ◌≤◌, ◌≡◌, refl, Bool, true, false, none, some, List, [], ◌∷◌, get, put, arith, inl, inr,
  Bool-cases, eq_iff, ◌==◌,
}
use agentic_agnostic_orchest.Dispatch.Tasks.{
  TaskState, queued, done, cancelled, assigned, Task, Store, AuditRow, claim, is_queued,
}
use agentic_agnostic_orchest.Dispatch.Queue.{claim_next, cancel}
use agentic_agnostic_orchest.Dispatch.Queue.Claims.{IsTable, Claims, claim_next-Claims}
use agentic_agnostic_orchest.Dispatch.Queue.Lifecycle.{Preserves}
use agentic_agnostic_orchest.Dispatch.Queue.Methods.{
  Method, claims, dispatches, cancels, call, call-Preserves,
}
use agentic_agnostic_orchest.Dispatch.Queue.Histories.{
  calls, final_stays, retries_bounded, version_is_spent, claim_revives,
}

abbrev task_in : TaskState → Task
task_in x = record {
  id = "t";
  project_id = none;
  title = "T";
  description = none;
  prompt = "p";
  state = x;
  blocked_reason = none;
  priority = 2;
  assigned_to = none;
  depends_on = [];
  created_by = none;
  dispatched_at = none;
  started_at = none;
  completed_at = none;
  completed_by = none;
  evidence = none;
  duration_seconds = none;
  error_message = none;
  retry_count = 0;
  max_retries = 3;
  timeout_seconds = 60;
  created_at = 1;
  updated_at = 1;
  version = 1;
}

abbrev task : Task
task = task_in queued

abbrev table_in : TaskState → Store
table_in x = record {
  tasks = ("t", task_in x) ∷ [];
  audit = [];
  agents = "ana" ∷ [];
  projects = [];
}

abbrev table : Store
table = table_in queued

table_in-IsTable : (x : TaskState) → IsTable (table_in x)
unfolding get
table_in-IsTable x = record {
  unique = (refl, tt);
  keyed = λ k t e. elim (Bool-cases ("t" == k)) [
    | inl same ↦ let e' : some (task_in x) ≡ some t = rw same at e in cc (e', (eq_iff "t" k).0 same)
    | inr other ↦ absurd (cc (rw other at e))
  ];
}

table-IsTable : IsTable table
table-IsTable = table_in-IsTable queued

there : get table.tasks "t" ≡ some task
unfolding get
there = refl

done_there : get (table_in done).tasks "t" ≡ some (task_in done)
unfolding get
done_there = refl

task_queued : is_queued task ≡ true
unfolding is_queued
task_queued = refl

-- The database takes every row.
abbrev takes_all : AuditRow → Bool
takes_all row = true

abbrev history : List (ℕ × Method)
history = (3, dispatches "t") ∷ (4, cancels "t") ∷ []

claim_next-Claims_example : Claims table "ana" 2 (claim_next table "ana" 2)
claim_next-Claims_example = claim_next-Claims table "ana" 2 table-IsTable

call-Preserves_example : Preserves table (call takes_all 2 (claims "ana") table)
call-Preserves_example = call-Preserves takes_all table 2 (claims "ana") table-IsTable

final_stays_example :
    (t' : Task) × (get (calls takes_all history (table_in done)).tasks "t" ≡ some t')
    × (done ≡ done → t'.state ≡ done)
    × (done ≡ cancelled → t'.state ≡ cancelled)
final_stays_example =
    final_stays takes_all history (table_in done) "t" (task_in done) (table_in-IsTable done)
      done_there

retries_bounded_example :
    (t' : Task) × (get (calls takes_all history table).tasks "t" ≡ some t')
    × (t'.max_retries ≡ 3)
    × (t'.retry_count ≤ 3)
retries_bounded_example =
    retries_bounded takes_all history table "t" task table-IsTable there (omega arith)

-- What `ana` leaves when she claims the task.
abbrev claimed : Store
claimed = record table {
  tasks =
      ("t", record task { state = assigned; assigned_to = some "ana"; version = 2; updated_at = 2 })
      ∷ [];
}

ana_claims : claim table "t" "ana" 1 2 ≡ some (true, claimed)
unfolding claim get put
ana_claims = refl

version_is_spent_example :
    claim (calls takes_all history claimed) "t" "bob" 1 5
    ≡ some (false, calls takes_all history claimed)
version_is_spent_example =
    version_is_spent takes_all history table claimed task "ana" "bob" 2 5 table-IsTable there
      task_queued ana_claims

claim_revives_example :
    let s' = (cancel table "t" 2).1 in
    (t' : Task) × (u : Task) × (s'' : Store) × (get s'.tasks "t" ≡ some t')
    × (t'.state ≡ cancelled)
    × (claim s' "t" "ana" 1 3 ≡ some (true, s''))
    × (get s''.tasks "t" ≡ some u)
    × (u.state ≡ assigned)
claim_revives_example = claim_revives table task "ana" 2 3 there task_queued refl
