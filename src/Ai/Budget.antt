-- ===== src/Ai/Budget.antt =====
-- The agent loop's budgets (crates/launcher-ai/src/agent.rs). Elapsed times are milliseconds;
-- `turns` is a `u32` and the other counters are `usize` of 64 bits, which wrap.
pub mod Bounds
use aura_launcher.Common.{
  ℕ, ◌+◌, ◌-◌, ◌%◌, ◌^◌, ◌≡◌, String, Bool, true, false, List, [], ◌∷◌, leb, if◌then◌else◌,
}

pub record AgentLimits : Type 0 where
  pub max_turns : ℕ
  pub max_proposals_per_turn : ℕ
  pub max_total_executions : ℕ
  pub max_failures : ℕ
  pub max_replans : ℕ
  pub max_wall_time : ℕ
  pub planner_timeout : ℕ

pub data BudgetVerdict : Type 0 where
  continue : BudgetVerdict
  exhausted : String → BudgetVerdict

pub record BudgetController : Type 0 where
  pub limits : AgentLimits
  pub turns : ℕ
  pub proposals : ℕ
  pub executions : ℕ
  pub failures : ℕ
  pub replans : ℕ
  pub started_at : ℕ

unfoldable pub new : AgentLimits → ℕ → BudgetController
new limits now = record {
  limits = limits;
  turns = 0;
  proposals = 0;
  executions = 0;
  failures = 0;
  replans = 0;
  started_at = now;
}

unfoldable pub can_start_turn : ℕ → BudgetController → BudgetVerdict
can_start_turn now b =
    if leb b.limits.max_turns b.turns
    then exhausted "max_turns"
    else if leb b.limits.max_wall_time (now - b.started_at)
    then exhausted "max_wall_time"
    else continue

unfoldable pub can_execute : BudgetController → BudgetVerdict
can_execute b =
    if leb b.limits.max_total_executions b.executions
    then exhausted "max_total_executions"
    else if leb b.limits.max_failures b.failures
    then exhausted "max_failures"
    else continue

unfoldable pub can_replan : BudgetController → BudgetVerdict
can_replan b = if leb b.limits.max_replans b.replans then exhausted "max_replans" else continue

unfoldable pub record_turn : BudgetController → BudgetController
record_turn b = record b { turns = (b.turns + 1) % 2 ^ 32 }

unfoldable pub record_proposals : ℕ → BudgetController → BudgetController
record_proposals n b = record b { proposals = (b.proposals + n) % 2 ^ 64 }

unfoldable pub record_execution : BudgetController → BudgetController
record_execution b = record b { executions = (b.executions + 1) % 2 ^ 64 }

unfoldable pub record_failure : BudgetController → BudgetController
record_failure b = record b { failures = (b.failures + 1) % 2 ^ 64 }

unfoldable pub record_replan : BudgetController → BudgetController
record_replan b = record b { replans = (b.replans + 1) % 2 ^ 64 }
