-- ===== src/Workflow/Runner.antt =====
-- The workflow runner (crates/launcher-workflow/src/lib.rs): `WorkflowRunner` over a host that
-- keeps a state. A run whose steps are fewer than the definition's is a panic of the code;
-- `starved` is a loop that is out of rounds. `graph_ok` stands for the messages of the graph check.
pub mod Step
pub mod Walk
pub mod Rounds
pub mod Calls
pub mod Positions
pub mod Ends
pub mod Answer
pub mod Proposals
pub mod Tests
use aura_launcher.Common.{
  ℕ, zero, suc, ◌+◌, ◌*◌, ◌%◌, ◌^◌, ◌≡◌, String, Bool, true, false, ◌&&◌, ◌||◌, not, Option, none,
  some, List, [], ◌∷◌, ◌++◌, map, find?, all, get_elem?, set, length, max, ltb, leb, nat_eqb,
  string_eq, ◌==◌, Result, ok, err, if◌then◌else◌,
}
use aura_launcher.Domain.Command.{Command}
use aura_launcher.Domain.Expr.{Std, Value, null, bool, evaluate, ExprError}
use aura_launcher.Domain.Expr.Parser.{parse_expr}
use aura_launcher.Domain.Action.{
  Action, ActionKind, plugin_invoke_kind, ActionPayload, json, ActionDescriptor, DescriptorError,
  unknown_action_type, invalid_input, capability_denied, resolve_descriptor, identity_mismatch,
}
use aura_launcher.Domain.Definition.{
  ActionReference, WorkflowAction, reference, inline, Condition, expression, OutputBinding,
  WorkflowStep, WorkflowDefinition, StepRunStatus, pending, resolving, resolved,
  waiting_for_confirmation, executing, complete, failed, skipped, WorkflowRunStatus, running,
  paused, succeeded, run_failed, StepRun, WorkflowRun, max_steps_per_run, validate, fresh_run,
}
use aura_launcher.Domain.Policy as Policy
use aura_launcher.Domain.Policy.{
  FailureAction, stop, retry, skip, re_resolve, WorkflowFailureClass, on_invalid_input,
  on_capability_denied, on_command_not_found, action_for,
}
use aura_launcher.Workflow.Variables.{
  Serde, Store, json_walk, from_snapshot, snapshot, get_var, materialize_input,
}
use aura_launcher.Workflow.Variables as Variables

pub record WfFailure : Type 0 where
  pub class : WorkflowFailureClass
  pub reason : String
  pub execution_id : Option String

abbrev pub failure : WorkflowFailureClass → String → WfFailure
failure c r = record { class = c; reason = r; execution_id = none }

pub record ExecutionOutcome (N : Type 0) : Type 0 where
  pub execution_id : Option String
  pub plugin_result : Option (Value N)

-- `WorkflowHost`: the two ports, on the host's own state.
pub record Host (N : Type 0) : Type 1 where
  pub State : Type 0
  pub Score : Type 0
  pub in_session : State → String → String → Option (Command Score (Action N))
  pub fresh_query :
      State
      → String
      → Result (WorkflowFailureClass × String) (List (Command Score (Action N))) × State
  pub execute :
      State → Action N → Option String → ℕ → Bool → Result WfFailure (ExecutionOutcome N) × State

pub record ResolvedStepAction (N : Type 0) : Type 0 where
  pub from_command : Bool
  pub action : Action N
  pub provider_id : Option String

abbrev classify_descriptor_error : DescriptorError → WfFailure
classify_descriptor_error (unknown_action_type t) = failure on_invalid_input t
classify_descriptor_error (invalid_input t) = failure on_invalid_input t
classify_descriptor_error (capability_denied c) = failure on_capability_denied "capability denied"

abbrev is_plugin_invoke : ActionKind → Bool
is_plugin_invoke plugin_invoke_kind = true
is_plugin_invoke _ = false

abbrev is_id : String → Option String → Bool
is_id wanted none = false
is_id wanted (some i) = i == wanted

abbrev pub is_over : StepRunStatus → Bool
is_over complete = true
is_over skipped = true
is_over _ = false

abbrev pub is_pending : StepRunStatus → Bool
is_pending pending = true
is_pending _ = false

module _ {N : Type 0} where
  unfoldable pub max_attempts : WorkflowDefinition N → WorkflowStep N → ℕ
  unfolding Policy.max_attempts
  max_attempts def step = Policy.max_attempts def.failure_policy step.failure_policy

  unfoldable pub policy_for :
      WorkflowDefinition N → WorkflowStep N → WorkflowFailureClass → FailureAction
  unfolding action_for
  policy_for def step c = action_for def.failure_policy step.failure_policy c

  abbrev is_null : Value N → Bool
  is_null null = true
  is_null _ = false

  -- `run.steps[idx]` changed in place.
  abbrev pub at_step : ℕ → (StepRun N → StepRun N) → List (StepRun N) → List (StepRun N)
  at_step i f [] = []
  at_step zero f (sr ∷ steps) = f sr ∷ steps
  at_step (suc i) f (sr ∷ steps) = sr ∷ at_step i f steps

  abbrev pub with_status : StepRunStatus → StepRun N → StepRun N
  with_status st sr = record sr { status = st }

  abbrev pub with_error : String → StepRun N → StepRun N
  with_error e sr = record sr { last_error = some e }

  -- `attempt: u32`
  abbrev pub next_attempt : StepRun N → StepRun N
  next_attempt sr = record sr { attempt = (sr.attempt + 1) % 2 ^ 32 }

  abbrev payload_json : Option (ActionPayload N) → Option (Value N)
  payload_json (some (json v)) = some v
  payload_json _ = none

  abbrev with_input : Value N → Action N → Action N
  with_input input a = if is_null input then a else record a { payload = some (json input) }

module _ (S : Std) (J : Serde S) (H : Host J.Number) where
  abbrev pub N : Type 0
  N = J.Number

  abbrev pub Resolving : Type 0
  Resolving = Result WfFailure (ResolvedStepAction N) × H.State

  abbrev command_action : ActionReference → Command H.Score (Action N) → Option (Action N)
  command_action r c = find? (λ a. is_id r.action_id a.id) c.actions

  -- A call of the executor: the step, the action as it was resolved, and the confirmation.
  pub record Call : Type 0 where
    pub index : ℕ
    pub action : Action N
    pub confirmed : Bool

  abbrev unless_mismatch :
      List String → ResolvedStepAction N → Result WfFailure (ResolvedStepAction N)
  unless_mismatch [] r = ok r
  unless_mismatch (f ∷ fs) r =
      err (failure on_invalid_input "runtime input alters resolved route identity")

  -- The identity fields of the resolved payload must be those of the input.
  abbrev identity_checked :
      Option (Value N)
      → Option (Value N)
      → ResolvedStepAction N
      → Result WfFailure (ResolvedStepAction N)
  unfolding identity_mismatch
  identity_checked (some projected) (some runtime) r =
      unless_mismatch (identity_mismatch J.json_eq projected runtime) r
  identity_checked _ _ r = ok r

  -- What the runner makes of a command and its action that a reference resolves to.
  abbrev adopt :
      Value N → Command H.Score (Action N) → Action N → Result WfFailure (ResolvedStepAction N)
  unfolding identity_mismatch identity_checked
  adopt input c a =
      identity_checked (payload_json a.payload) (payload_json (with_input input a).payload)
        (record {
          from_command = true;
          action = with_input input a;
          provider_id = if is_plugin_invoke a.kind then some c.provider_id else none;
        })

  abbrev adopt_action :
      Value N
      → Command H.Score (Action N)
      → Option (Action N)
      → Result WfFailure (ResolvedStepAction N)
  unfolding identity_mismatch adopt
  adopt_action input c none = err (failure on_command_not_found "action not found")
  adopt_action input c (some a) = adopt input c a

  abbrev with_command :
      Command H.Score (Action N)
      → Option (Action N)
      → Option (Command H.Score (Action N) × Action N)
  with_command c none = none
  with_command c (some a) = some (c, a)

  abbrev adopt_found :
      Value N
      → Option (Command H.Score (Action N))
      → (Command H.Score (Action N) → Option (Action N))
      → Result WfFailure (ResolvedStepAction N)
  unfolding identity_mismatch adopt_action
  adopt_found input none action_of = err (failure on_command_not_found "command not found")
  adopt_found input (some c) action_of = adopt_action input c (action_of c)

  abbrev is_command : ActionReference → Command H.Score (Action N) → Bool
  is_command r c = c.provider_id == r.provider_id && c.id == r.command_id

  -- A fresh discovery query.
  abbrev discovered :
      Value N
      → ActionReference
      → Result (WorkflowFailureClass × String) (List (Command H.Score (Action N))) × H.State
      → Resolving
  unfolding identity_mismatch adopt_found
  discovered input r (err e, s) = (err (failure e.0 e.1), s)
  discovered input r (ok commands, s) =
      (adopt_found input (find? (is_command r) commands) (command_action r), s)

  abbrev in_popup :
      ActionReference
      → Option (Command H.Score (Action N))
      → Option (Command H.Score (Action N) × Action N)
  in_popup r none = none
  in_popup r (some c) = with_command c (command_action r c)

  -- `ReferenceResolver::resolve`: the popup session first, then a fresh query.
  abbrev resolve_from :
      Value N
      → ActionReference
      → Option (Command H.Score (Action N) × Action N)
      → H.State
      → Resolving
  unfolding identity_mismatch adopt discovered
  resolve_from input r (some (c, a)) s = (adopt input c a, s)
  resolve_from input r none s = discovered input r (H.fresh_query s r.provider_id)

  abbrev resolve_reference : Value N → ActionReference → H.State → Resolving
  unfolding identity_mismatch resolve_from
  resolve_reference input r s =
      resolve_from input r (in_popup r (H.in_session s r.provider_id r.command_id)) s

  abbrev inline_action :
      ActionDescriptor N
      → Result DescriptorError (Action N)
      → Result WfFailure (ResolvedStepAction N)
  inline_action d (err e) = err (classify_descriptor_error e)
  inline_action d (ok a) = ok (record {
    from_command = false;
    action = record a { id = some d.id; title = d.title };
    provider_id = none;
  })

  abbrev resolve_inline : Value N → ActionDescriptor N → Result WfFailure (ResolvedStepAction N)
  unfolding resolve_descriptor
  resolve_inline input d =
      inline_action d
        (resolve_descriptor (if is_null input then d else record d { input = input }) [])

  abbrev resolve_action : Value N → WorkflowAction N → H.State → Resolving
  unfolding identity_mismatch resolve_descriptor resolve_reference resolve_inline
  resolve_action input (reference r) s = resolve_reference input r s
  resolve_action input (inline d) s = (resolve_inline input d, s)

  abbrev pub unless_disabled :
      Option String → ResolvedStepAction N → Result WfFailure (ResolvedStepAction N)
  unless_disabled none r = ok r
  unless_disabled (some reason) r = err (failure on_capability_denied reason)

  abbrev pub enabled :
      Result WfFailure (ResolvedStepAction N) → Result WfFailure (ResolvedStepAction N)
  enabled (err f) = err f
  enabled (ok r) = unless_disabled r.action.disabled_reason r

  -- One attempt to resolve a step's action; a disabled action is denied.
  unfoldable pub resolve_once : Value N → WorkflowStep N → H.State → Resolving
  unfolding identity_mismatch resolve_descriptor resolve_action
  resolve_once input step s = let (r, t) = resolve_action input step.action s in (enabled r, t)
