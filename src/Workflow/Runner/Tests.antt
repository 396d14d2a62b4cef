-- ===== src/Workflow/Runner/Tests.antt =====
-- The runner on a workflow of three steps, of which the second asks for a confirmation.
use aura_launcher.Common.{
  length, ℕ, suc, ◌≡◌, refl, String, false, Option, none, some, List, [], ◌∷◌, map, ok, decimal,
  max, inl, arith,
}
use aura_launcher.Domain.Expr.{
  Fields, null, number, string, object, field, end, get_field, values_equal,
}
use aura_launcher.Domain.Expr.Tests.{toy}
use aura_launcher.Domain.Action.{ActionDescriptor}
use aura_launcher.Domain.Definition.{
  inline, WorkflowStep, WorkflowDefinition, WorkflowRun, running, fresh_step,
}
use aura_launcher.Domain.Policy.{StepFailurePolicy, WorkflowFailurePolicy}
use aura_launcher.Workflow.Variables.{
  Serde, VariableStore, split_ns, converted, set, get_var, materialize_input,
}
use aura_launcher.Workflow.Variables.Refine.{vars, updated, set-vars, get_var-vars}
use aura_launcher.Workflow.Variables.Identity.{materialize_input-identity}
use aura_launcher.Workflow.Runner.{Host, max_attempts, Call}
use aura_launcher.Workflow.Runner.Step.{Machine, execute_step}
use aura_launcher.Workflow.Runner.Rounds.{Ends, most_attempts, execute_step-Ends}
use aura_launcher.Workflow.Runner.Walk.{End, done, run_fresh, resume, run}
use aura_launcher.Workflow.Runner.Answer.{Answered, Resumed, run-Answered}

abbrev pub serde : Serde toy
serde = record {
  Number = ℕ;
  as_f64 = λ n. some n;
  from_f64 = λ n. some n;
  zero_number = 0;
  zero_float = 0;
  float_text = decimal;
  json_eq = values_equal toy;
}

-- A host that counts executions.
abbrev host : Host ℕ
host = record {
  State = ℕ;
  Score = ℕ;
  in_session = λ s p c. none;
  fresh_query = λ s p. (ok [], s);
  execute = λ s a p g c. (ok (record { execution_id = none; plugin_result = none }), suc s);
}

abbrev quiet : StepFailurePolicy
quiet = record {
  capability_denied = none;
  stale_context = none;
  timeout = none;
  business_error = none;
  protocol_violation = none;
  invalid_input = none;
  plugin_unavailable = none;
  command_not_found = none;
}

abbrev defaults : WorkflowFailurePolicy
defaults = record {
  capability_denied = none;
  stale_context = none;
  timeout = none;
  business_error = none;
  protocol_violation = none;
  invalid_input = none;
  plugin_unavailable = none;
  command_not_found = none;
}

abbrev copying : Option String → ActionDescriptor ℕ
copying confirmation = record {
  id = "copy";
  title = none;
  action_type = "system.copy_to_clipboard";
  input = object (field "text" (string "hello") end);
  requires = [];
  shortcut = none;
  confirmation = confirmation;
}

abbrev copy_step : String → Option String → Option String → WorkflowStep ℕ
copy_step id confirmation on_success = record {
  step_id = id;
  action = inline (copying confirmation);
  input = null;
  failure_policy = quiet;
  condition = none;
  output = none;
  on_success = on_success;
  on_failure = none;
  on_condition_false = none;
}

abbrev three : WorkflowDefinition ℕ
three = record {
  id = "copy three";
  version = 1;
  name = "Copy three";
  steps =
      copy_step "first" none (some "third")
      ∷ copy_step "second" none none
      ∷ copy_step "third" (some "confirm") none
      ∷ [];
  failure_policy = defaults;
  entry_step = none;
  variables = [];
  inputs = [];
}

abbrev idle : Machine toy serde host three
idle = record { host = 0; calls = [] }

abbrev start : WorkflowRun ℕ
start = record {
  workflow_run_id = "run";
  definition_id = "copy three";
  definition_version = 1;
  status = running;
  paused_reason = none;
  current_step = none;
  steps =
      fresh_step (copy_step "first" none (some "third"))
      ∷ fresh_step (copy_step "second" none none)
      ∷ fresh_step (copy_step "third" (some "confirm") none)
      ∷ [];
  variables = none;
}

execute_step-Ends_example :
    Ends toy serde host three
      (max 1 (most_attempts toy serde host three (copy_step "first" none none)))
      (execute_step toy serde host three 1 false 0
        (copy_step "first" none none)
        none
        (fresh_step (copy_step "first" none none))
        idle)
unfolding max_attempts
execute_step-Ends_example =
    execute_step-Ends toy serde host three 1 false 0 (copy_step "first" none none) none
      (fresh_step (copy_step "first" none none)) idle (omega arith)

-- The steps that the executor was called for.
abbrev indices : List (Call toy serde host) → List ℕ
indices cs = map (λ c. c.index) cs

abbrev resumed : End ℕ → Machine toy serde host three → List ℕ
unfolding resume
resumed (done run) m = indices (resume toy serde host three 1 run m).1.calls
resumed _ m = indices m.calls

fresh_calls : indices (run_fresh toy serde host three 1 "run" idle).1.calls ≡ 0 ∷ []
unfolding run_fresh
fresh_calls = refl

-- The first step leads to the third, but the second is executed when the paused run is resumed.
resumed_calls :
    resumed
      (run_fresh toy serde host three 1 "run" idle).0
      (run_fresh toy serde host three 1 "run" idle).1
    ≡ 2 ∷ 1 ∷ 0 ∷ []
unfolding run_fresh resumed
resumed_calls = refl

abbrev no_variables : VariableStore ℕ
no_variables = record { root = object end }

-- The input of a call, with a template among its parameters.
abbrev call_input : Fields ℕ
call_input = field "server_id" (string "calc") (field "note" (string "got ${var.n}") end)

materialize_input-identity_example :
    (b : Fields ℕ) × (object (field "server_id" (string "calc") (field "note" (string "got 7") end))
      ≡ object b)
    × (get_field "server_id" b ≡ some (string "calc"))
unfolding materialize_input decimal
materialize_input-identity_example =
    materialize_input-identity toy serde "server_id" "calc"
      (record { root = object (field "var" (object (field "n" (number 7) end)) end) }) call_input _
      (inl refl) refl refl

-- A store in which `n` is 7.
abbrev one_variable : VariableStore ℕ
one_variable = record { root = object (field "var" (object (field "n" (number 7) end)) end) }

set-vars_example :
    (name : String) × (split_ns "var.n" ≡ ok ("var", name))
    × (vars one_variable ≡ updated name (number 7) (vars no_variables))
unfolding set
set-vars_example = set-vars "var.n" (number 7) no_variables one_variable refl

get_var-vars_example :
    get_var toy serde "var.n" one_variable ≡ ok (converted toy serde (vars one_variable "n"))
get_var-vars_example = get_var-vars toy serde "n" one_variable refl refl

run-Answered_example :
    Answered toy serde host three 1 (run toy serde host three 1 "run" idle)
    × ((r : WorkflowRun ℕ)
        → length r.steps ≡ 3
        → Resumed toy serde host three 1 (resume toy serde host three 1 r idle))
unfolding max_attempts
run-Answered_example =
    run-Answered toy serde host three 1 "run" idle (omega arith, (omega arith, (omega arith, tt)))
      tt
