-- ===== src/Ai/Budget/Bounds.antt =====
-- A loop that asks before it acts stays within its limits.
use aura_launcher.Common.{ℕ, ◌+◌, ◌%◌, ◌^◌, ◌≤◌, ◌<◌, ◌≡◌, Bool, true, false, leb→lt, arith}
use aura_launcher.Ai.Budget.{
  AgentLimits, continue, BudgetController, new, can_start_turn, can_execute, can_replan,
  record_turn, record_proposals, record_execution, record_failure, record_replan,
}

-- The controller within the agent loop; `ran` says that an execution of this turn was recorded.
pub record Loop : Type 0 where
  pub ran : Bool
  pub budget : BudgetController

abbrev pub at : Bool → BudgetController → Loop
at ran budget = record { ran = ran; budget = budget }

-- What the loop of agent.rs may record next. It asks the controller before a turn, an execution
-- and a replan. It records a failure without asking, at most once in a turn, and only if
-- an execution of the turn was recorded before it.
pub data Step : Loop → Loop → Type 0 where
  turn :
      {ran : Bool} {b : BudgetController} (now : ℕ)
      → can_start_turn now b ≡ continue
      → Step (at ran b) (at false (record_turn b))
  proposals :
      {ran : Bool} {b : BudgetController} (n : ℕ) → Step (at ran b) (at ran (record_proposals n b))
  execution :
      {ran : Bool} {b : BudgetController}
      → can_execute b ≡ continue
      → Step (at ran b) (at true (record_execution b))
  failure : {b : BudgetController} → Step (at true b) (at false (record_failure b))
  replan :
      {ran : Bool} {b : BudgetController}
      → can_replan b ≡ continue
      → Step (at ran b) (at false (record_replan b))

pub data Steps (start : Loop) : Loop → Type 0 where
  begin : Steps start start
  next : {l l' : Loop} → Steps start l → Step l l' → Steps start l'

pub record Within (b : BudgetController) : Type 0 where
  pub turns : b.turns ≤ b.limits.max_turns
  pub executions : b.executions ≤ b.limits.max_total_executions
  pub failures : b.failures ≤ b.limits.max_failures
  pub replans : b.replans ≤ b.limits.max_replans

mod_le : (n m : ℕ) → n < m → (n + 1) % 2 ^ 32 ≤ m
mod_le n m h = omega arith

mod64_le : (n m : ℕ) → n < m → (n + 1) % 2 ^ 64 ≤ m
mod64_le n m h = omega arith

-- Once an execution of the turn was recorded, a failure may still be recorded.
abbrev Room : Bool → BudgetController → Type 0
Room true b = b.failures < b.limits.max_failures
Room false b = Unit

abbrev Good : Loop → Type 0
Good l = Within l.budget × Room l.ran l.budget

proposals-Good :
    (ran : Bool) (n : ℕ) (b : BudgetController)
    → Good (at ran b)
    → Good (at ran (record_proposals n b))
unfolding record_proposals
proposals-Good true n b (w, room) = (
  record { turns = w.turns; executions = w.executions; failures = w.failures; replans = w.replans },
  room,
)
proposals-Good false n b (w, room) = (
  record { turns = w.turns; executions = w.executions; failures = w.failures; replans = w.replans },
  tt,
)

step-Good : (l l' : Loop) → Step l l' → Good l → Good l'
unfolding can_start_turn can_execute can_replan record_turn record_execution record_failure
    record_replan
step-Good l l' (turn {b = b} now may) (w, room) = (
  record {
    turns = mod_le b.turns b.limits.max_turns (leb→lt b.limits.max_turns b.turns (ground arith));
    executions = w.executions;
    failures = w.failures;
    replans = w.replans;
  },
  tt,
)
step-Good l l' (proposals {ran = ran} {b = b} n) h = proposals-Good ran n b h
step-Good l l' (execution {b = b} may) (w, room) = (
  record {
    turns = w.turns;
    executions =
        mod64_le b.executions b.limits.max_total_executions
          (leb→lt b.limits.max_total_executions b.executions (ground arith));
    failures = w.failures;
    replans = w.replans;
  },
  leb→lt b.limits.max_failures b.failures (ground arith),
)
step-Good l l' (failure {b = b}) (w, room) = (
  record {
    turns = w.turns;
    executions = w.executions;
    failures = mod64_le b.failures b.limits.max_failures room;
    replans = w.replans;
  },
  tt,
)
step-Good l l' (replan {b = b} may) (w, room) = (
  record {
    turns = w.turns;
    executions = w.executions;
    failures = w.failures;
    replans =
        mod64_le b.replans b.limits.max_replans
          (leb→lt b.limits.max_replans b.replans (ground arith));
  },
  tt,
)

start-Within : (limits : AgentLimits) (now : ℕ) → Within (new limits now)
unfolding new
start-Within limits now = record {
  turns = omega arith;
  executions = omega arith;
  failures = omega arith;
  replans = omega arith;
}

Steps-Good :
    (limits : AgentLimits) (now : ℕ) (l : Loop) → Steps (at false (new limits now)) l → Good l
Steps-Good limits now l begin = (start-Within limits now, tt)
Steps-Good limits now l (next {l = k} path step) = step-Good k l step (Steps-Good limits now k path)

-- From a new controller, a loop that asks the controller before each turn, execution and replan,
-- and that records at most one failure in a turn, without asking, after an execution of
-- that turn, never passes its limits on turns, executions, failures and replans, a failure
-- recorded after the last allowed execution included.
pub Steps-Within :
    (limits : AgentLimits) (now : ℕ) (l : Loop)
    → Steps (at false (new limits now)) l
    → Within l.budget
Steps-Within limits now l path = (Steps-Good limits now l path).0
