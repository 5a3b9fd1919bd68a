-- ===== src/Planner/Eta/Chains.antt =====
-- Chains of tasks in which each needs the next.
use agentic_agnostic_orchest.Base.{
  ℕ, suc, ◌≤◌, ◌<◌, ◌≡◌, String, true, Option, some, List, [], ◌⊎◌, Among, member,
}
use agentic_agnostic_orchest.Planner.Eta.{PlannedTask}

-- A chain of `n` tasks that starts at a task and follows its parents
pub data Chain (parent : String → Option PlannedTask) : PlannedTask → ℕ → Type 0 where
  single : (t : PlannedTask) → Chain parent t 1
  link :
      (t p : PlannedTask) (dependency : String) (n : ℕ)
      → member dependency t.depends_on ≡ true
      → parent dependency ≡ some p
      → Chain parent p n
      → Chain parent t (suc n)

-- The longest chain from a task has `d` tasks.
pub record IsLongest (parent : String → Option PlannedTask) (t : PlannedTask) (d : ℕ) : Type 0 where
  pub reached : Chain parent t d
  pub bound : (n : ℕ) → Chain parent t n → n ≤ d

-- Parents are tasks, of a lower rank than what needs them.
pub record HasRanks (tasks : List PlannedTask) (parent : String → Option PlannedTask) : Type 0 where
  pub rank : PlannedTask → ℕ
  pub lower :
      (t p : PlannedTask) (dependency : String)
      → Among t tasks
      → member dependency t.depends_on ≡ true
      → parent dependency ≡ some p
      → Among p tasks × (rank p < rank t)

-- No chain from a task of the list is longer, and one is as long, if there is a task.
pub record IsGreatest (parent : String → Option PlannedTask) (todo : List PlannedTask) (d : ℕ)
    : Type 0 where
  pub bound : (t : PlannedTask) → Among t todo → (n : ℕ) → Chain parent t n → n ≤ d
  pub reached : (todo ≡ []) × (d ≡ 0) ⊎ ((t : PlannedTask) × Among t todo × Chain parent t d)
