-- ===== src/Ai/Tests.antt =====
-- Runs of the plan validator, of the budgets and of the agent loop.
use aura_launcher.Common.{
  ℕ, suc, ◌≤◌, ◌≢◌, Option, some, List, arith, ◌≡◌, refl, true, false, none, [], ◌∷◌, ok,
}
use aura_launcher.Common.Ids
use aura_launcher.Common.Text.{is_blank, is_whitespace}
use aura_launcher.Ai.Plan.{PlanDocument, validate, validate_steps}
use aura_launcher.Ai.Plan.Validity.{IsValid, validate-IsValid}
use aura_launcher.Ai.Budget.{
  AgentLimits, BudgetController, new, can_start_turn, can_execute, record_turn, record_proposals,
  record_execution, record_failure, can_replan, record_replan,
}
use aura_launcher.Ai.Budget.Bounds.{
  at, Steps, begin, next, turn, proposals, execution, failure, Within, Steps-Within,
}
use aura_launcher.Domain.Expr.{null}
use aura_launcher.Workflow.Runner.Proposals.{ActionProposal}
use aura_launcher.Ai.Loop.{
  Agent, AgentRunOutcome, AgentRunStatus, created, replanning, budget_exhausted, run_bounded_agent,
}
use aura_launcher.Ai.Loop.Outcome.{run_bounded_agent_lem}

abbrev plan : PlanDocument ℕ
plan = record {
  schema_version = 1;
  proposal_id = "p1";
  session_id = "s1";
  user_goal = "g";
  steps =
      record {
        step_id = "a";
        action_ref = "p|c|a";
        input = 0;
        rationale = none;
        requires_approval = true;
      }
      ∷ [];
}

plan_accepted : validate plan ≡ ok tt
unfolding validate validate_steps is_blank is_whitespace Ids.contains
plan_accepted = refl

validate-IsValid_example : IsValid plan
validate-IsValid_example = validate-IsValid plan plan_accepted

abbrev one_proposal : List (ActionProposal ℕ)
one_proposal = record { provider_id = "p"; command_id = "c"; action_id = "a"; input = null } ∷ []

abbrev limits : AgentLimits
limits = record {
  max_turns = 8;
  max_proposals_per_turn = 8;
  max_total_executions = 1;
  max_failures = 1;
  max_replans = 3;
  max_wall_time = 1000;
  planner_timeout = 100;
}

-- The only execution that is allowed fails: the failure is recorded although no other execution
-- is allowed.
abbrev after_failure : BudgetController
after_failure = record_failure (record_execution (record_proposals 1 (record_turn (new limits 0))))

last_execution_fails : Steps (at false (new limits 0)) (at false after_failure)
unfolding new can_start_turn can_execute record_turn record_proposals record_execution
last_execution_fails =
    next (next (next (next begin (turn 5 refl)) (proposals 1)) (execution refl)) failure

Steps-Within_example : Within after_failure
Steps-Within_example = Steps-Within limits 0 (at false after_failure) last_execution_fails

-- A planner that proposes the same action in every turn, and a host whose executions fail. The
-- state counts the executions, and is the time too.
abbrev failing : Agent ℕ
failing = record {
  State = ℕ;
  Catalog = Unit;
  now = λ s. (s, s);
  catalog = λ s. (tt, s);
  plan = λ goal c s. (one_proposal, s);
  replan = λ goal c o s. (one_proposal, s);
  confirmation_required = λ p s. false;
  execute = λ p s.
      (record { execution_id = none; action_id = "a"; ok = false; error = none } ∷ [], suc s);
}

run_bounded_agent_lem_example :
    (o : AgentRunOutcome) × (run_bounded_agent failing "g" limits 0 ≡ some o)
    × (o.turns ≤ 8)
    × (o.executions ≤ 1)
    × (o.failures ≤ 1)
    × (o.replans ≤ 3)
    × (o.status ≢ created)
    × (o.status ≢ replanning)
run_bounded_agent_lem_example = run_bounded_agent_lem failing "g" limits 0 (omega arith)

abbrev status_of : Option AgentRunOutcome → Option AgentRunStatus
status_of none = none
status_of (some o) = some o.status

-- The only execution fails; the replans go on without another until they are spent.
failing_run : status_of (run_bounded_agent failing "g" limits 0) ≡ some budget_exhausted
unfolding run_bounded_agent new can_start_turn record_turn can_execute record_proposals can_replan
    record_failure record_execution record_replan
failing_run = refl
