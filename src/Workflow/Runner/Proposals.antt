-- ===== src/Workflow/Runner/Proposals.antt =====
-- Proposals and their execution (crates/launcher-workflow/src/proposal.rs and lib.rs).
use aura_launcher.Common.{ℕ, suc, String, none, List, [], ◌∷◌, Result, ok, err, decimal}
use Prim.Native.String.{◌++◌ as ◌append◌}
use aura_launcher.Domain.Expr.{Std, Value}
use aura_launcher.Domain.Definition.{reference, WorkflowStep, WorkflowDefinition, validate}
use aura_launcher.Domain.Policy.{StepFailurePolicy, WorkflowFailurePolicy}
use aura_launcher.Workflow.Variables.{Serde}
use aura_launcher.Workflow.Runner.{Host}
use aura_launcher.Workflow.Runner.Step.{Machine}
use aura_launcher.Workflow.Runner.Walk.{End, error, run}

pub record ActionProposal (N : Type 0) : Type 0 where
  pub provider_id : String
  pub command_id : String
  pub action_id : String
  pub input : Value N

-- `StepFailurePolicy::default()` and `WorkflowFailurePolicy::default()`
abbrev pub no_step_policy : StepFailurePolicy
no_step_policy = record {
  capability_denied = none;
  stale_context = none;
  timeout = none;
  business_error = none;
  protocol_violation = none;
  invalid_input = none;
  plugin_unavailable = none;
  command_not_found = none;
}

abbrev pub no_policy : WorkflowFailurePolicy
no_policy = record {
  capability_denied = none;
  stale_context = none;
  timeout = none;
  business_error = none;
  protocol_violation = none;
  invalid_input = none;
  plugin_unavailable = none;
  command_not_found = none;
}

module _ {N : Type 0} where
  unfoldable pub to_step : String → ActionProposal N → WorkflowStep N
  to_step step_id p = record {
    step_id = step_id;
    action = reference (record {
      provider_id = p.provider_id;
      command_id = p.command_id;
      action_id = p.action_id;
    });
    input = p.input;
    failure_policy = no_step_policy;
    condition = none;
    output = none;
    on_success = none;
    on_failure = none;
    on_condition_false = none;
  }

  -- The steps of the proposals, numbered from a number on.
  unfoldable pub proposal_steps : ℕ → List (ActionProposal N) → List (WorkflowStep N)
  unfolding to_step decimal
  proposal_steps i [] = []
  proposal_steps i (p ∷ proposals) =
      to_step ("step-" append decimal i) p ∷ proposal_steps (suc i) proposals

  unfoldable pub proposal_definition : String → List (ActionProposal N) → WorkflowDefinition N
  unfolding proposal_steps
  proposal_definition id proposals = record {
    id = id;
    version = 1;
    name = id;
    steps = proposal_steps 0 proposals;
    failure_policy = no_policy;
    entry_step = none;
    variables = [];
    inputs = [];
  }

module _ (S : Std) (J : Serde S) (H : Host J.Number) (id : String)
    (proposals : List (ActionProposal J.Number)) (generation : ℕ) where
  unfoldable pub definition : WorkflowDefinition J.Number
  unfolding proposal_definition
  definition = proposal_definition id proposals

  unfoldable pub when_valid :
      Result {0, 0} String Unit → Machine S J H definition → End J.Number × Machine S J H definition
  unfolding run
  when_valid (err e) m = (error e, m)
  when_valid (ok _) m = run S J H definition generation ("wr-" append id) m

  unfoldable pub execute_proposals :
      Machine S J H definition → End J.Number × Machine S J H definition
  unfolding when_valid validate
  execute_proposals m = when_valid (validate definition) m
