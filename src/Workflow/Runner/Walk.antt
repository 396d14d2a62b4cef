-- ===== src/Workflow/Runner/Walk.antt =====
-- The walk of a run over the steps of its definition (`advance` and `resume` of
-- crates/launcher-workflow/src/lib.rs). The passes that are left below the limit are counted down.
use aura_launcher.Common.{
  ℕ, zero, suc, ◌+◌, String, Bool, true, false, Option, none, some, List, [], ◌∷◌, map, all,
  get_elem?, length, ltb, string_eq, ◌==◌, Result, ok, err, if◌then◌else◌,
}
use aura_launcher.Domain.Expr.{Std, Value, bool, Expr, ExprError, evaluate}
use aura_launcher.Domain.Definition.{
  Condition, OutputBinding, WorkflowStep, WorkflowDefinition, StepRunStatus, complete, failed,
  skipped, WorkflowRunStatus, running, succeeded, run_failed, StepRun, WorkflowRun,
  max_steps_per_run, validate, fresh_run, expression,
}
use aura_launcher.Workflow.Variables.{
  Serde, Store, json_walk, from_snapshot, snapshot, get_var, VariableStore,
}
use aura_launcher.Workflow.Variables as Variables
use aura_launcher.Domain.Action.{is_empty}
use aura_launcher.Workflow.Validation.{DefinitionError, validate_graph}
use aura_launcher.Workflow.Runner.{Host, with_error, at_step, is_over, is_pending}
use aura_launcher.Workflow.Runner.Step.{
  StepOutcome, next, paused, step_failed, starved, Machine, execute_step, Sr,
}

pub data End (N : Type 0) : Type 0 where
  done : WorkflowRun N → End N
  error : String → End N
  panicked out_of_rounds : End N

-- The text of an error of the condition language is left out.
abbrev pub condition_error : String
condition_error = "condition error"

abbrev pub first_or : Option ℕ → Bool → Option ℕ
first_or (some j) here = some (suc j)
first_or none true = some 0
first_or none false = none

abbrev or_else : Option String → String → String
or_else none d = d
or_else (some s) d = s

module _ {N : Type 0} where
  -- The position of the last step of an id, as the map of ids to positions holds it.
  unfoldable pub index_of : String → List (WorkflowStep N) → Option ℕ
  index_of id [] = none
  index_of id (s ∷ steps) = first_or (index_of id steps) (s.step_id == id)

  abbrev first_id : List (WorkflowStep N) → String
  first_id [] = ""
  first_id (s ∷ steps) = s.step_id

  unfoldable pub entry : WorkflowDefinition N → Option ℕ
  unfolding index_of
  entry def = index_of (or_else def.entry_step (first_id def.steps)) def.steps

  unfoldable pub next_linear : WorkflowDefinition N → ℕ → Option ℕ
  next_linear def i = if ltb (i + 1) (length def.steps) then some (i + 1) else none

  -- Where a step leads.
  unfoldable pub transition : WorkflowDefinition N → Option String → ℕ → Option ℕ
  unfolding index_of next_linear
  transition def none i = next_linear def i
  transition def (some t) i = if t == "end" then none else index_of t def.steps

  abbrev pub update : ℕ → (StepRun N → StepRun N) → WorkflowRun N → WorkflowRun N
  update i f run = record run { steps = at_step i f run.steps }

  abbrev pub fail_step : String → StepRun N → StepRun N
  fail_step e sr = record sr { status = failed; last_error = some e }

  abbrev pub fail_run : ℕ → String → WorkflowRun N → WorkflowRun N
  fail_run i e run = record (update i (fail_step e) run) { status = run_failed }

  abbrev pub skip_step : String → StepRun N → StepRun N
  skip_step why sr = record sr { status = skipped; skip_reason = some why }

  -- A branch that was not selected.
  abbrev pub unselected : StepRun N → StepRun N
  unselected sr = if is_pending sr.status then skip_step "BranchNotSelected" sr else sr

  unfoldable pub finish : WorkflowRun N → WorkflowRun N
  finish run =
      let steps = map unselected run.steps in
      record run {
        steps = steps;
        status = if all (λ sr. is_over sr.status) steps then succeeded else run_failed;
      }

  -- A run at the limit of its passes.
  abbrev pub limited : ℕ → Option (StepRun N) → WorkflowRun N → End N
  limited i none run = panicked
  limited i (some sr) run =
      done (record (update i (with_error "max steps per run exceeded") run) { status = run_failed })

  -- The value that an output binding copies.
  unfoldable pub bound_value : OutputBinding → Option (Value N) → Option (Value N)
  unfolding json_walk
  bound_value b none = none
  bound_value b (some out) = if is_empty b.source then some out else json_walk out b.source

abbrev pub is_paused : WorkflowRunStatus → Bool
is_paused WorkflowRunStatus.paused = true
is_paused _ = false

abbrev pub is_complete : StepRunStatus → Bool
is_complete complete = true
is_complete _ = false

abbrev pub is_skipped : StepRunStatus → Bool
is_skipped skipped = true
is_skipped _ = false

abbrev pub is_true : {F : Type 0} → Value F → Bool
is_true (bool b) = b
is_true _ = false

abbrev pub or_none {ℓ} : {A : Type ℓ} → Result String (Option A) → Option A
or_none (ok o) = o
or_none (err e) = none

module _ (S : Std) (J : Serde S) (H : Host J.Number) (def : WorkflowDefinition J.Number)
    (generation : ℕ) (confirmed : Bool) where
  abbrev pub Run : Type 0
  Run = WorkflowRun J.Number

  abbrev pub Walked : Type 0
  Walked = End J.Number × Machine S J H def

  abbrev pub Next : Type 0
  Next = Option ℕ → Run → Machine S J H def → Walked

  module _ (i : ℕ) (step : WorkflowStep J.Number) where
    unfoldable pub stored :
        Result String (VariableStore J.Number) → Run → Machine S J H def → Next → Walked
    unfolding transition snapshot
    stored (err e) run m go = (done (fail_run i e run), m)
    stored (ok store) run m go =
        go (transition def step.on_success i) (record run { variables = snapshot store }) m

    unfoldable pub bound :
        OutputBinding → Option (Value J.Number) → Run → Machine S J H def → Next → Walked
    unfolding stored Variables.set from_snapshot
    bound b none run m go = (done (fail_run i "output path not found" run), m)
    bound b (some v) run m go =
        stored (Variables.set b.target v (from_snapshot run.variables)) run m go

    -- The output binding of a completed step, then its transition.
    unfoldable pub commit :
        Option OutputBinding → Option (Value J.Number) → Run → Machine S J H def → Next → Walked
    unfolding bound bound_value transition
    commit none out run m go = go (transition def step.on_success i) run m
    commit (some b) out run m go = bound b (bound_value b out) run m go

    unfoldable pub after_next : Sr S J H def → Run → Machine S J H def → Next → Walked
    unfolding commit transition
    after_next sr run m go =
        if is_complete sr.status
        then commit step.output sr.output run m go
        else go
            (transition def (if is_skipped sr.status then step.on_failure else step.on_success) i)
            run m

    unfoldable pub after_step : StepOutcome × Sr S J H def × Machine S J H def → Run → Next → Walked
    unfolding after_next
    after_step (next, sr, m) run go = after_next sr (update i (λ _. sr) run) m go
    after_step (paused, sr, m) run go = (
      done (record (update i (λ _. sr) run) {
        status = WorkflowRunStatus.paused;
        paused_reason = some "ConfirmationRequired";
      }),
      m,
    )
    after_step (step_failed, sr, m) run go =
        (done (record (update i (λ _. sr) run) { status = run_failed }), m)
    after_step (starved, sr, m) run go = (out_of_rounds, m)

    unfoldable pub perform_step : Sr S J H def → Run → Machine S J H def → Next → Walked
    unfolding after_step execute_step
    perform_step sr run m go =
        after_step (execute_step S J H def generation confirmed i step run.variables sr m) run go

    unfoldable pub gate_value :
        Result ExprError (Value S.Float) → Sr S J H def → Run → Machine S J H def → Next → Walked
    unfolding perform_step transition
    gate_value (err e) sr run m go = (error condition_error, m)
    gate_value (ok v) sr run m go =
        if is_true v
        then perform_step sr run m go
        else go (transition def step.on_condition_false i)
            (update i (skip_step "ConditionFalse") run) m

    unfoldable pub gate_parsed :
        Option (Result ExprError (Expr S.Float))
        → Sr S J H def
        → Run
        → Machine S J H def
        → Next
        → Walked
    unfolding gate_value get_var evaluate from_snapshot
    gate_parsed none sr run m go = (out_of_rounds, m)
    gate_parsed (some (err e)) sr run m go = (done (fail_run i condition_error run), m)
    gate_parsed (some (ok e)) sr run m go =
        gate_value (evaluate S (λ path. or_none (get_var S J path (from_snapshot run.variables))) e)
          sr run m go

    -- The condition of a step, before the step.
    unfoldable pub gate : Option Condition → Sr S J H def → Run → Machine S J H def → Next → Walked
    unfolding gate_parsed perform_step expression
    gate none sr run m go = perform_step sr run m go
    gate (some c) sr run m go = gate_parsed (expression S c) sr run m go

  unfoldable pub visit :
      ℕ
      → Option (WorkflowStep J.Number)
      → Option (Sr S J H def)
      → Run
      → Machine S J H def
      → Next
      → Walked
  unfolding gate next_linear
  visit i none sr run m go = (panicked, m)
  visit i (some step) none run m go = (panicked, m)
  visit i (some step) (some sr) run m go =
      if is_over sr.status
      then go (next_linear def i) run m
      else gate i step step.condition sr (record run { current_step = some step.step_id }) m go

  -- The loop of `advance`.
  unfoldable pub walk : ℕ → Option ℕ → Run → Machine S J H def → Walked
  unfolding visit finish
  walk left none run m = (done (finish run), m)
  walk zero (some i) run m = (limited i (get_elem? run.steps i) run, m)
  walk (suc left) (some i) run m =
      visit i (get_elem? def.steps i) (get_elem? run.steps i) run m
        (λ to run2 m2. walk left to run2 m2)

  unfoldable pub advance : Run → Machine S J H def → Walked
  unfolding walk entry
  advance run m = walk max_steps_per_run (entry def) run m

module _ (S : Std) (J : Serde S) (H : Host J.Number) (def : WorkflowDefinition J.Number)
    (generation : ℕ) where
  -- What `run` does with a definition that is accepted.
  unfoldable pub run_fresh : String → Machine S J H def → End J.Number × Machine S J H def
  unfolding advance fresh_run
  run_fresh id m =
      advance S J H def generation false (record (fresh_run id def) { status = running }) m

  -- The errors of a definition are joined to one text, which is left out.
  unfoldable pub run_checked :
      Result {0, 0} String Unit
      → Option (Result {0, 0} (List DefinitionError) Unit)
      → String
      → Machine S J H def
      → End J.Number × Machine S J H def
  unfolding run_fresh
  run_checked (err e) graph id m = (error e, m)
  run_checked (ok _) none id m = (out_of_rounds, m)
  run_checked (ok _) (some (err es)) id m = (error "invalid definition", m)
  run_checked (ok _) (some (ok _)) id m = run_fresh id m

  unfoldable pub run : String → Machine S J H def → End J.Number × Machine S J H def
  unfolding run_checked validate validate_graph
  run id m = run_checked (validate def) (validate_graph S def) id m

  unfoldable pub resume :
      WorkflowRun J.Number → Machine S J H def → End J.Number × Machine S J H def
  unfolding advance
  resume run m =
      if is_paused run.status
      then advance S J H def generation true (record run { status = running; paused_reason = none })
          m
      else (error "only paused runs can resume", m)
