-- ===== src/Dispatch/Queue/Claims.antt =====
-- `claim_next`: which task it takes, and what the version guards against another process.
use agentic_agnostic_orchest.Base.{
  ℕ, ◌+◌, ◌≤◌, ◌≡◌, refl, subst, String, true, Option, none, some, List, [], ◌∷◌, get, put,
  IsUnique, dict_values, Among, Among-get, Among-filter, Among-filter_of, Among-sort, Among-sort_of,
  All-Among, Best, sort-Best, first, sort_by, str_leq, str_leq_total, str_leq_trans, arith, ◌⊎◌,
  eqb, get-put_self, member, false, Bool-cases, inl, inr,
}
use agentic_agnostic_orchest.Dispatch.Tasks.{
  assigned, Task, Store, claim, is_queued, task_leq, list_queued, dependencies_done, list_ready,
  get_task, in_seconds,
}
use agentic_agnostic_orchest.Dispatch.Queue.{
  Reply, answer, key_error, state_error, database_error, ready_leq, ready_tasks, claim_first,
  claim_next,
}

-- Tasks stand under their own ids, once each.
pub record IsTable (s : Store) : Type 0 where
  pub unique : IsUnique s.tasks
  pub keyed : (k : String) (t : Task) → get s.tasks k ≡ some t → t.id ≡ k

-- A task of the table that is queued and whose dependencies are done.
pub record IsReady (s : Store) (t : Task) : Type 0 where
  pub present : Among t (dict_values s.tasks)
  pub waits : is_queued t ≡ true
  pub unblocked : dependencies_done s t.depends_on ≡ true

-- `t` comes no later than `b` by priority, then the second of its creation, then id.
pub record GoesBefore (t b : Task) : Type 0 where
  pub by_priority : t.priority ≤ b.priority
  pub by_age : t.priority ≡ b.priority → in_seconds t.created_at ≤ in_seconds b.created_at
  pub by_id :
      t.priority ≡ b.priority
      → in_seconds t.created_at ≡ in_seconds b.created_at
      → str_leq t.id b.id ≡ true

ready_leq-GoesBefore : (t b : Task) → ready_leq t b ≡ true → GoesBefore t b
unfolding ready_leq
ready_leq-GoesBefore t b h = record {
  by_priority = ground arith;
  by_age = λ e. ground arith;
  by_id = λ e f. ground arith;
}

ready_leq_total : (a b : Task) → (ready_leq a b ≡ true) ⊎ (ready_leq b a ≡ true)
unfolding ready_leq
ready_leq_total a b = ground (arith, str_leq_total a.id b.id)

ready_leq_trans :
    (a b c : Task) → ready_leq a b ≡ true → ready_leq b c ≡ true → ready_leq a c ≡ true
unfolding ready_leq
ready_leq_trans a b c p q = ground (arith, str_leq_trans a.id b.id c.id)

-- A claimed task.
abbrev pub taken : Task → String → ℕ → Task
taken t agent now = record t {
  state = assigned;
  assigned_to = some agent;
  version = t.version + 1;
  updated_at = now;
}

pub claim_present :
    (s : Store) (t : Task) (agent : String) (now : ℕ)
    → get s.tasks t.id ≡ some t
    → member agent s.agents ≡ true
    → claim s t.id agent t.version now
      ≡ some (true, record s { tasks = put s.tasks t.id (taken t agent now) })
unfolding claim
claim_present s t agent now e known =
    let same : eqb t.version t.version ≡ true = ground arith in rw (e, claim, same, known) refl

pub claim_unknown :
    (s : Store) (t : Task) (agent : String) (now : ℕ)
    → get s.tasks t.id ≡ some t
    → member agent s.agents ≡ false
    → claim s t.id agent t.version now ≡ none
unfolding claim
claim_unknown s t agent now e unknown =
    let same : eqb t.version t.version ≡ true = ground arith in rw (e, claim, same, unknown) refl

module _ (s : Store) (agent : String) (now : ℕ) where
  list_ready-IsReady : (t : Task) → Among t (list_ready s) → IsReady s t
  unfolding list_ready list_queued
  list_ready-IsReady t m =
      let (m₁, d) = Among-filter (λ t. dependencies_done s t.depends_on) t (list_queued s) m in
      let (m₂, q) = Among-filter is_queued t (dict_values s.tasks) (Among-sort task_leq t _ m₁) in
      record { present = m₂; waits = q; unblocked = d }

  IsReady-list_ready : (t : Task) → IsReady s t → Among t (list_ready s)
  unfolding list_ready list_queued
  IsReady-list_ready t r =
      Among-filter_of (λ t. dependencies_done s t.depends_on) t (list_queued s)
        (Among-sort_of task_leq t _
          (Among-filter_of is_queued t (dict_values s.tasks) r.present r.waits))
        r.unblocked

  -- What `claim_next` does, by its answer.
  abbrev pub Claims : Reply (Option Task) × Store → Type 0
  Claims (answer none, s') = (s' ≡ s) × ((t : Task) → IsReady s t → ⊥)
  Claims (answer (some t'), s') =
      (t : Task) × IsReady s t
      × (t' ≡ taken t agent now)
      × (s' ≡ record s { tasks = put s.tasks t.id t' })
      × ((b : Task) → IsReady s b → GoesBefore t b)
      × (member agent s.agents ≡ true)
  Claims (database_error, s') =
      (s' ≡ s) × ((t : Task) × IsReady s t) × (member agent s.agents ≡ false)
  Claims (key_error, s') = ⊥
  Claims (state_error, s') = ⊥

  -- On a table whose tasks stand under their own ids, claim_next ends in one of three ways. It
  -- takes a task that is queued, whose dependencies are done and that comes no later than any
  -- other such task by priority, second of creation and id, assigns that task to the agent, who is
  -- registered, and touches no other. It answers None, and there is no such task. Or there is such
  -- a task but the agent is not registered, and it raises and changes nothing.
  pub claim_next-Claims : IsTable s → Claims (claim_next s agent now)
  unfolding claim_next ready_tasks claim_first first get_task
  claim_next-Claims h =
      go (sort_by ready_leq (list_ready s))
        (sort-Best ready_leq ready_leq_total ready_leq_trans (list_ready s))
    where
      nobody : (t : Task) → list_ready s ≡ [] → Among t (list_ready s) → ⊥
      nobody t e m = subst (Among t) e m

      go :
          (ts : List Task)
          → Best ready_leq (first ts) (list_ready s)
          → Claims (claim_first ts s agent now)
      go [] e = (refl, λ t r. nobody t e (IsReady-list_ready t r))
      go (t ∷ ts) (m, least) =
          let r = list_ready-IsReady t m in
          let (k, found) = Among-get t s.tasks h.unique r.present in
          let at_id : get s.tasks t.id ≡ some t = cc (h.keyed k t found) in
          elim (Bool-cases (member agent s.agents)) [
            | inr unknown ↦
                rw (claim_unknown s t agent now at_id unknown, claim_first) (refl, (t, r), unknown)
            | inl known ↦
                rw
                  (
                    claim_present s t agent now at_id known,
                    claim_first,
                    get-put_self s.tasks t.id (taken t agent now),
                  )
                  (
                    t,
                    r,
                    refl,
                    refl,
                    λ b rb. ready_leq-GoesBefore t b (
                        All-Among (λ x. ready_leq t x ≡ true) b (list_ready s) least
                          (IsReady-list_ready b rb)),
                    known,
                  )
          ]
