-- ===== src/Workflow/Runner/Calls.antt =====
-- What the executor is called with.
use aura_launcher.Common.{
  ℕ, zero, suc, ◌≡◌, refl, String, Bool, true, false, ◌&&◌, not, Option, none, some, ltb, leb,
  Result, ok, err, All, Bool-cases, inl, inr, if◌then◌else◌,
}
use aura_launcher.Domain.Expr.{Std, Value}
use aura_launcher.Domain.Definition.{WorkflowStep, WorkflowDefinition, resolved, executing}
use aura_launcher.Domain.Policy.{FailureAction, stop, retry, skip, re_resolve}
use aura_launcher.Workflow.Variables.{Serde}
use aura_launcher.Workflow.Runner.{
  Host, max_attempts, Resolving, resolve_once, policy_for, ResolvedStepAction, WfFailure,
  ExecutionOutcome, Call, enabled, unless_disabled, with_error, with_status,
}
use aura_launcher.Workflow.Runner.Step.{
  StepOutcome, found, passed_over, denied, out_of_rounds, Machine, Sr, Resolved, after_failure,
  after_attempt, resolve_loop, after_execution, executed, executed_as, perform, after_resolution,
  step_loop, execute_step, context_noted,
}

confirmed_of :
    (asks confirmed : Bool) → (asks && not confirmed) ≡ false → asks ≡ true → confirmed ≡ true
confirmed_of true true h k = refl
confirmed_of true false h k = cc
confirmed_of false c h k = cc

module _ (S : Std) (J : Serde S) (H : Host J.Number) where
  -- The action was enabled, and confirmed if it asks for a confirmation.
  pub record CallOk (c : Call S J H) : Type 0 where
    pub enabled : c.action.disabled_reason ≡ none
    pub asked : c.action.confirmation_required ≡ true → c.confirmed ≡ true

  abbrev Enabled : Result WfFailure (ResolvedStepAction J.Number) → Type 0
  Enabled (err f) = Unit
  Enabled (ok r) = r.action.disabled_reason ≡ none

  unless_disabled-Enabled :
      (o : Option String) (r : ResolvedStepAction J.Number)
      → r.action.disabled_reason ≡ o
      → Enabled (unless_disabled S J H o r)
  unless_disabled-Enabled none r h = h
  unless_disabled-Enabled (some x) r h = tt

  enabled-Enabled : (r : Result WfFailure (ResolvedStepAction J.Number)) → Enabled (enabled S J H r)
  enabled-Enabled (err f) = tt
  enabled-Enabled (ok r) = unless_disabled-Enabled r.action.disabled_reason r refl

  resolve_once-Enabled :
      (input : Value J.Number) (step : WorkflowStep J.Number) (s : H.State)
      → Enabled (resolve_once S J H input step s).0
  unfolding resolve_once
  resolve_once-Enabled input step s = enabled-Enabled _

  module _ (def : WorkflowDefinition J.Number) where
    abbrev FoundOk : Resolved S J H def → Type 0
    FoundOk (out_of_rounds, sr, s) = Unit
    FoundOk (found r, sr, s) = r.action.disabled_reason ≡ none
    FoundOk (passed_over, sr, s) = Unit
    FoundOk (denied, sr, s) = Unit

    either :
        (b : Bool) (x y : Resolved S J H def) → FoundOk x → FoundOk y → FoundOk (if b then x else y)
    either true x y hx hy = hx
    either false x y hx hy = hy

    after_failure_found :
        (a : FailureAction) (most again : ℕ) (sr : Sr S J H def) (s : H.State)
        (go : ℕ → Sr S J H def → H.State → Resolved S J H def)
        → ((again2 : ℕ) (sr2 : Sr S J H def) → FoundOk (go again2 sr2 s))
        → FoundOk (after_failure S J H def a most again sr s go)
    after_failure_found re_resolve most again sr s go g = either (ltb again 2) _ _ (g _ _) tt
    after_failure_found retry most again sr s go g = either (ltb sr.attempt most) _ _ (g _ _) tt
    after_failure_found skip most again sr s go g = tt
    after_failure_found stop most again sr s go g = tt

    after_attempt_found :
        (step : WorkflowStep J.Number) (r : Resolving S J H) (again : ℕ) (sr : Sr S J H def)
        (go : ℕ → Sr S J H def → H.State → Resolved S J H def)
        → Enabled r.0
        → ((again2 : ℕ) (sr2 : Sr S J H def) (s : H.State) → FoundOk (go again2 sr2 s))
        → FoundOk (after_attempt S J H def step r again sr go)
    unfolding after_attempt
    after_attempt_found step (ok r, s) again sr go h g = h
    after_attempt_found step (err f, s) again sr go h g =
        after_failure_found (policy_for def step f.class) (max_attempts def step) again
          (with_error f.reason sr) s go (λ a sr2. g a sr2 s)

    resolve_loop_found :
        (fuel : ℕ) (input : Value J.Number) (step : WorkflowStep J.Number) (again : ℕ)
        (sr : Sr S J H def) (s : H.State)
        → FoundOk (resolve_loop S J H def fuel input step again sr s)
    unfolding resolve_loop
    resolve_loop_found zero input step again sr s = tt
    resolve_loop_found (suc fuel) input step again sr s =
        after_attempt_found step (resolve_once S J H input step s) again sr _
          (resolve_once-Enabled input step s)
          (λ again2 sr2 s2. resolve_loop_found fuel input step again2 sr2 s2)

    abbrev pub CallsOk : Machine S J H def → Type 0
    CallsOk m = All CallOk m.calls

    abbrev Stepped : Type 0
    Stepped = StepOutcome × Sr S J H def × Machine S J H def

    either_calls :
        (b : Bool) (x y : Stepped) → CallsOk x.2 → CallsOk y.2 → CallsOk (if b then x else y).2
    either_calls true x y hx hy = hx
    either_calls false x y hx hy = hy

    module _ (generation : ℕ) (confirmed : Bool) (index : ℕ) (step : WorkflowStep J.Number) where
      abbrev Again : (Sr S J H def → Machine S J H def → Stepped) → Type 0
      Again again = (sr : Sr S J H def) (m : Machine S J H def) → CallsOk m → CallsOk (again sr m).2

      after_execution_calls :
          (a : FailureAction) (most : ℕ) (sr : Sr S J H def) (m : Machine S J H def)
          (again : Sr S J H def → Machine S J H def → Stepped)
          → CallsOk m
          → Again again
          → CallsOk (after_execution S J H def generation confirmed index step a most sr m again).2
      after_execution_calls retry most sr m again h g =
          either_calls (ltb sr.attempt most) _ _ (g _ m h) h
      after_execution_calls re_resolve most sr m again h g =
          either_calls (leb sr.attempt 2) _ _ (g _ m h) h
      after_execution_calls skip most sr m again h g = h
      after_execution_calls stop most sr m again h g = h

      executed_calls :
          (r : Result WfFailure (ExecutionOutcome J.Number)) (sr : Sr S J H def)
          (m : Machine S J H def) (again : Sr S J H def → Machine S J H def → Stepped)
          → CallsOk m
          → Again again
          → CallsOk (executed S J H def generation confirmed index step r sr m again).2
      unfolding executed
      executed_calls (ok o) sr m again h g = h
      executed_calls (err f) sr m again h g =
          after_execution_calls (policy_for def step f.class) (max_attempts def step)
            (record sr { last_error = some f.reason; last_execution_id = f.execution_id }) m again h
            g

      perform_calls :
          (r : ResolvedStepAction J.Number) (sr : Sr S J H def) (m : Machine S J H def)
          (again : Sr S J H def → Machine S J H def → Stepped)
          → CallOk (record { index = index; action = r.action; confirmed = confirmed })
          → CallsOk m
          → Again again
          → CallsOk (perform S J H def generation confirmed index step r sr m again).2
      unfolding perform executed_as
      perform_calls r sr m again c h g =
          executed_calls
            (H.execute m.host (record (r.action) { confirmation_required = false }) r.provider_id
              generation confirmed).0
            (with_status executing sr) _ again (c, h) g

      after_resolution_calls :
          (r : Resolved S J H def) (m : Machine S J H def)
          (again : Sr S J H def → Machine S J H def → Stepped)
          → FoundOk r
          → CallsOk m
          → Again again
          → CallsOk (after_resolution S J H def generation confirmed index step r m again).2
      unfolding after_resolution
      after_resolution_calls (out_of_rounds, sr, s) m again p h g = h
      after_resolution_calls (passed_over, sr, s) m again p h g = h
      after_resolution_calls (denied, sr, s) m again p h g = h
      after_resolution_calls (found r, sr, s) m again p h g =
          elim (Bool-cases (r.action.confirmation_required && not confirmed)) [
            | inl asks ↦ rw asks h
            | inr goes ↦ rw goes (
                perform_calls r
                  (with_status resolved
                    (context_noted S J H def generation confirmed index step r.from_command sr))
                  (record m { host = s }) again
                  (record {
                    enabled = p;
                    asked = λ k. confirmed_of r.action.confirmation_required confirmed goes k;
                  })
                  h g)
          ]

      step_loop_calls :
          (fuel : ℕ) (input : Value J.Number) (sr : Sr S J H def) (m : Machine S J H def)
          → CallsOk m
          → CallsOk (step_loop S J H def generation confirmed index step fuel input sr m).2
      unfolding step_loop
      step_loop_calls zero input sr m h = h
      step_loop_calls (suc fuel) input sr m h =
          after_resolution_calls _ m _ (resolve_loop_found _ input step 0 _ m.host) h
            (λ sr2 m2 h2. step_loop_calls fuel input sr2 m2 h2)

      pub execute_step_calls :
          (variables : Option (Value J.Number)) (sr : Sr S J H def) (m : Machine S J H def)
          → CallsOk m
          → CallsOk (execute_step S J H def generation confirmed index step variables sr m).2
      unfolding execute_step
      execute_step_calls variables sr m h = step_loop_calls _ _ sr m h
