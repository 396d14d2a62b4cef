-- ===== src/Workflow/Runner/Ends.antt =====
-- A walk comes to an end.
use aura_launcher.Common.{
  ℕ, zero, suc, ◌<◌, ◌≡◌, ◌^◌, refl, ap, ◌∙◌, String, Bool, true, false, Option, none, some,
  get_elem?, length, Result, ok, err, All, arith, inl, inr, if◌then◌else◌, string_eq,
}
use aura_launcher.Domain.Expr.{Std, Value, Expr, ExprError}
use aura_launcher.Domain.Expr.Total.{parse_expr_total}
use aura_launcher.Domain.Definition.{
  Condition, OutputBinding, WorkflowStep, WorkflowDefinition, WorkflowRun, max_steps_per_run,
  expression,
}
use aura_launcher.Workflow.Variables.{Serde, VariableStore}
use aura_launcher.Workflow.Runner.{Host, is_over, max_attempts}
use aura_launcher.Workflow.Runner.Step.{
  StepOutcome, next, paused, step_failed, starved, Machine, execute_step, Sr,
}
use aura_launcher.Workflow.Runner.Rounds.{Ends, execute_step-Ends}
use aura_launcher.Workflow.Runner.Calls.{CallsOk, execute_step_calls}
use aura_launcher.Workflow.Runner.Walk.{
  run, End, done, error, panicked, out_of_rounds, condition_error, entry, next_linear, update,
  skip_step, is_true, Walked, Next, stored, bound, commit, after_next, after_step, perform_step,
  gate_value, gate_parsed, gate, visit, walk, advance, is_complete, is_skipped,
}
use aura_launcher.Workflow.Runner.Positions.{
  is_waiting, get_elem?-lt, All-get, InRange, length-at_step, waits_at, next_range,
  transition_range, entry_range, Settled, finish_settles,
}

module _ (S : Std) (J : Serde S) (H : Host J.Number) (def : WorkflowDefinition J.Number)
    (generation : ℕ) (confirmed : Bool) where
  -- The run is over, or its condition could not be evaluated; and the executor was called rightly.
  abbrev pub Ended : End J.Number × Machine S J H def → Type 0
  Ended (done run, m) = Settled run × CallsOk S J H def m
  Ended (error e, m) = (e ≡ condition_error) × CallsOk S J H def m
  Ended (panicked, m) = ⊥
  Ended (out_of_rounds, m) = ⊥

  -- A run of the definition.
  abbrev pub Fits : WorkflowRun J.Number → Type 0
  Fits run = length run.steps ≡ length def.steps

  abbrev GoesOn : Next S J H def generation confirmed → Type 0
  GoesOn go =
      (to : Option ℕ) (run : WorkflowRun J.Number) (m : Machine S J H def)
      → InRange (length def.steps) to
      → Fits run
      → CallsOk S J H def m
      → Ended (go to run m)

  module _ (i : ℕ) (step : WorkflowStep J.Number) (go : Next S J H def generation confirmed)
      (g : GoesOn go) where
    stored_ends :
        (r : Result String (VariableStore J.Number)) (run : WorkflowRun J.Number)
        (m : Machine S J H def)
        → Fits run
        → CallsOk S J H def m
        → Ended (stored S J H def generation confirmed i step r run m go)
    unfolding stored
    stored_ends (err e) run m f c = (inr (inl refl), c)
    stored_ends (ok store) run m f c = g _ _ m (transition_range def step.on_success i) f c

    bound_ends :
        (b : OutputBinding) (o : Option (Value J.Number)) (run : WorkflowRun J.Number)
        (m : Machine S J H def)
        → Fits run
        → CallsOk S J H def m
        → Ended (bound S J H def generation confirmed i step b o run m go)
    unfolding bound
    bound_ends b none run m f c = (inr (inl refl), c)
    bound_ends b (some v) run m f c = stored_ends _ run m f c

    commit_ends :
        (b : Option OutputBinding) (o : Option (Value J.Number)) (run : WorkflowRun J.Number)
        (m : Machine S J H def)
        → Fits run
        → CallsOk S J H def m
        → Ended (commit S J H def generation confirmed i step b o run m go)
    unfolding commit
    commit_ends none o run m f c = g _ run m (transition_range def step.on_success i) f c
    commit_ends (some b) o run m f c = bound_ends b _ run m f c

    either_ends :
        (b : Bool) (x y : Walked S J H def generation confirmed)
        → Ended x
        → Ended y
        → Ended (if b then x else y)
    either_ends true x y hx hy = hx
    either_ends false x y hx hy = hy

    after_next_ends :
        (sr : Sr S J H def) (run : WorkflowRun J.Number) (m : Machine S J H def)
        → Fits run
        → CallsOk S J H def m
        → Ended (after_next S J H def generation confirmed i step sr run m go)
    unfolding after_next
    after_next_ends sr run m f c =
        either_ends (is_complete sr.status) _ _ (commit_ends step.output sr.output run m f c) (
          g _ run m
            (transition_range def
              (if is_skipped sr.status then step.on_failure else step.on_success) i)
            f c)

    updated-Fits :
        (h : Sr S J H def → Sr S J H def) (run : WorkflowRun J.Number)
        → Fits run
        → Fits (update i h run)
    updated-Fits h run f = length-at_step i h run.steps ∙ f

    after_step-Ends :
        (r : StepOutcome × Sr S J H def × Machine S J H def) (n : ℕ) (run : WorkflowRun J.Number)
        → Ends S J H def n r
        → CallsOk S J H def r.2
        → i < length run.steps
        → Fits run
        → Ended (after_step S J H def generation confirmed i step r run go)
    unfolding after_step
    after_step-Ends (next, sr, m) n run e c l f =
        after_next_ends sr (update i (λ _. sr) run) m (updated-Fits (λ _. sr) run f) c
    after_step-Ends (paused, sr, m) n run e c l f =
        (inr (inr (refl, waits_at i sr run.steps l (ap is_waiting e.0))), c)
    after_step-Ends (step_failed, sr, m) n run e c l f = (inr (inl refl), c)
    after_step-Ends (starved, sr, m) n run e c l f = absurd e

    perform_ends :
        (sr : Sr S J H def) (run : WorkflowRun J.Number) (m : Machine S J H def)
        → max_attempts def step < 2 ^ 32
        → i < length run.steps
        → Fits run
        → CallsOk S J H def m
        → Ended (perform_step S J H def generation confirmed i step sr run m go)
    unfolding perform_step
    perform_ends sr run m w l f c =
        after_step-Ends (execute_step S J H def generation confirmed i step run.variables sr m) _
          run (execute_step-Ends S J H def generation confirmed i step run.variables sr m w)
          (execute_step_calls S J H def generation confirmed i step run.variables sr m c) l f

    value_ends :
        (v : Result ExprError (Value S.Float)) (sr : Sr S J H def) (run : WorkflowRun J.Number)
        (m : Machine S J H def)
        → max_attempts def step < 2 ^ 32
        → i < length run.steps
        → Fits run
        → CallsOk S J H def m
        → Ended (gate_value S J H def generation confirmed i step v sr run m go)
    unfolding gate_value
    value_ends (err e) sr run m w l f c = (refl, c)
    value_ends (ok v) sr run m w l f c =
        either_ends (is_true v) _ _ (perform_ends sr run m w l f c) (
          g _ _ m (transition_range def step.on_condition_false i)
            (updated-Fits (skip_step "ConditionFalse") run f) c)

    parsed_ends :
        (p : Option (Result ExprError (Expr S.Float))) (r : Result ExprError (Expr S.Float))
        → p ≡ some r
        → (sr : Sr S J H def) (run : WorkflowRun J.Number) (m : Machine S J H def)
        → max_attempts def step < 2 ^ 32
        → i < length run.steps
        → Fits run
        → CallsOk S J H def m
        → Ended (gate_parsed S J H def generation confirmed i step p sr run m go)
    unfolding gate_parsed
    parsed_ends none r e sr run m w l f c = cc
    parsed_ends (some (err x)) r e sr run m w l f c = (inr (inl refl), c)
    parsed_ends (some (ok x)) r e sr run m w l f c = value_ends _ sr run m w l f c

    gate_ends :
        (o : Option Condition) (sr : Sr S J H def) (run : WorkflowRun J.Number)
        (m : Machine S J H def)
        → max_attempts def step < 2 ^ 32
        → i < length run.steps
        → Fits run
        → CallsOk S J H def m
        → Ended (gate S J H def generation confirmed i step o sr run m go)
    unfolding gate expression
    gate_ends none sr run m w l f c = perform_ends sr run m w l f c
    gate_ends (some x) sr run m w l f c =
        let (r, total) = parse_expr_total S x.expression in
        parsed_ends (expression S x) r total sr run m w l f c

  -- Every step's attempt limit fits 32 bits.
  abbrev pub Limits : Type 0
  Limits = All (λ step. max_attempts def step < 2 ^ 32) def.steps

  visit_ends :
      (i : ℕ) (go : Next S J H def generation confirmed) (run : WorkflowRun J.Number)
      (m : Machine S J H def)
      → GoesOn go
      → Limits
      → i < length def.steps
      → Fits run
      → CallsOk S J H def m
      → Ended (
          visit S J H def generation confirmed i
            (get_elem? def.steps i)
            (get_elem? run.steps i)
            run
            m
            go)
  unfolding visit
  visit_ends i go run m g w l f c =
      let (step, at_def) = get_elem?-lt def.steps i l in
      let (sr, at_run) = get_elem?-lt run.steps i (omega (arith, f)) in
      rw (at_def, at_run)
        (either_ends i step go g (is_over sr.status) _ _
          (g (next_linear def i) run m (next_range def i) f c)
          (gate_ends i step go g step.condition sr (record run { current_step = some step.step_id })
            m (All-get (λ s. max_attempts def s < 2 ^ 32) def.steps i step w at_def)
            (omega (arith, f)) f c))

  walk_ends :
      (left : ℕ) (at : Option ℕ) (run : WorkflowRun J.Number) (m : Machine S J H def)
      → Limits
      → InRange (length def.steps) at
      → Fits run
      → CallsOk S J H def m
      → Ended (walk S J H def generation confirmed left at run m)
  unfolding walk
  walk_ends left none run m w l f c = (finish_settles run, c)
  walk_ends zero (some i) run m w l f c =
      let (sr, at_run) = get_elem?-lt run.steps i (omega (arith, f)) in
      rw at_run (inr (inl refl), c)
  walk_ends (suc left) (some i) run m w l f c =
      visit_ends i (λ to run2 m2. walk S J H def generation confirmed left to run2 m2) run m
        (λ to run2 m2 l2 f2 c2. walk_ends left to run2 m2 w l2 f2 c2) w l f c

  -- For every host, a run of the definition comes to an end, with or without a confirmation, or is
  -- refused for a condition that has no value, if the steps' attempt limits fit 32 bits: it
  -- succeeds only if every step has completed or is skipped, and pauses only if a step waits for a
  -- confirmation. Each call of the executor is for an action that is enabled, and was confirmed if
  -- the action asks for it, provided that this holds of the calls made before.
  pub advance-Ended :
      (run : WorkflowRun J.Number) (m : Machine S J H def)
      → Limits
      → Fits run
      → CallsOk S J H def m
      → Ended (advance S J H def generation confirmed run m)
  unfolding advance
  advance-Ended run m w f c = walk_ends max_steps_per_run (entry def) run m w (entry_range def) f c
