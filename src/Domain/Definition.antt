-- ===== src/Domain/Definition.antt =====
-- Workflow definitions and runs (crates/launcher-domain/src/workflow.rs).
use aura_launcher.Common.{
  ℕ, String, Bool, Option, none, List, [], ◌∷◌, map, Result, ok, err, if◌then◌else◌, is_blank,
  string_eq,
}
use aura_launcher.Common.Ids.{contains}
use aura_launcher.Domain.Expr.{Std, Value, Expr, ExprError}
use aura_launcher.Domain.Expr.Parser.{parse_expr}
use aura_launcher.Domain.Action.{ActionDescriptor}
use aura_launcher.Domain.Policy.{StepFailurePolicy, WorkflowFailurePolicy}

pub record ActionReference : Type 0 where
  pub provider_id : String
  pub command_id : String
  pub action_id : String

pub data WorkflowAction (N : Type 0) : Type 0 where
  reference : ActionReference → WorkflowAction N
  inline : ActionDescriptor N → WorkflowAction N

pub record Condition : Type 0 where
  pub expression : String

pub record OutputBinding : Type 0 where
  pub target : String
  pub source : String

pub record VariableDeclaration (N : Type 0) : Type 0 where
  pub name : String
  pub value_type : String
  pub default : Option (Value N)

pub record WorkflowInputDeclaration (N : Type 0) : Type 0 where
  pub name : String
  pub value_type : String
  pub required : Bool
  pub default : Option (Value N)

pub record WorkflowStep (N : Type 0) : Type 0 where
  pub step_id : String
  pub action : WorkflowAction N
  pub input : Value N
  pub failure_policy : StepFailurePolicy
  pub condition : Option Condition
  pub output : Option OutputBinding
  pub on_success : Option String
  pub on_failure : Option String
  pub on_condition_false : Option String

pub record WorkflowDefinition (N : Type 0) : Type 0 where
  pub id : String
  pub version : ℕ
  pub name : String
  pub steps : List (WorkflowStep N)
  pub failure_policy : WorkflowFailurePolicy
  pub entry_step : Option String
  pub variables : List (VariableDeclaration N)
  pub inputs : List (WorkflowInputDeclaration N)

pub data StepRunStatus : Type 0 where
  pending resolving resolved waiting_for_confirmation executing complete failed skipped :
      StepRunStatus

pub data WorkflowRunStatus : Type 0 where
  created running paused succeeded run_failed cancelled : WorkflowRunStatus

pub record StepRun (N : Type 0) : Type 0 where
  pub step_id : String
  pub status : StepRunStatus
  pub attempt : ℕ
  pub last_error : Option String
  pub last_execution_id : Option String
  pub resolved_context_generation : Option ℕ
  pub skip_reason : Option String
  pub output : Option (Value N)

pub record WorkflowRun (N : Type 0) : Type 0 where
  pub workflow_run_id : String
  pub definition_id : String
  pub definition_version : ℕ
  pub status : WorkflowRunStatus
  pub paused_reason : Option String
  pub current_step : Option String
  pub steps : List (StepRun N)
  pub variables : Option (Value N)

abbrev pub max_steps_per_run : ℕ
max_steps_per_run = 1000

abbrev pub max_variables : ℕ
max_variables = 256

-- `Condition::expression`
unfoldable pub expression : (S : Std) → Condition → Option (Result ExprError (Expr S.Float))
unfolding parse_expr
expression S c = parse_expr S c.expression

module _ {N : Type 0} where
  -- The messages name the ids that they are about.
  unfoldable pub validate_steps : List String → List (WorkflowStep N) → Result {0, 0} String Unit
  unfolding contains is_blank
  validate_steps seen [] = ok tt
  validate_steps seen (s ∷ steps) =
      let rest = validate_steps (s.step_id ∷ seen) steps in
      if is_blank s.step_id
      then err "step_id is required"
      else if contains s.step_id seen
      then err "duplicate step_id"
      else rest

  abbrev some_steps : List (WorkflowStep N) → Result {0, 0} String Unit → Result {0, 0} String Unit
  some_steps [] r = err "workflow must have at least one step"
  some_steps (s ∷ steps) r = r

  unfoldable pub validate : WorkflowDefinition N → Result {0, 0} String Unit
  unfolding validate_steps
  validate d =
      if is_blank d.id
      then err "workflow id is required"
      else some_steps d.steps (validate_steps [] d.steps)

  abbrev pub fresh_step : WorkflowStep N → StepRun N
  fresh_step s = record {
    step_id = s.step_id;
    status = pending;
    attempt = 0;
    last_error = none;
    last_execution_id = none;
    resolved_context_generation = none;
    skip_reason = none;
    output = none;
  }

  unfoldable pub fresh_run : String → WorkflowDefinition N → WorkflowRun N
  fresh_run workflow_run_id d = record {
    workflow_run_id = workflow_run_id;
    definition_id = d.id;
    definition_version = d.version;
    status = created;
    paused_reason = none;
    current_step = none;
    steps = map fresh_step d.steps;
    variables = none;
  }
