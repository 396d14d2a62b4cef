-- ===== src/Workflow/Runner/Step.antt =====
-- One step of a run (`execute_step` of crates/launcher-workflow/src/lib.rs). It changes its own
-- record of the run, the host's state and the log of the executor's calls.
use aura_launcher.Common.{
  ℕ, zero, suc, ◌+◌, String, Bool, true, false, ◌&&◌, not, Option, some, List, ◌∷◌, max, ltb, leb,
  Result, ok, err, if◌then◌else◌,
}
use aura_launcher.Domain.Expr.{Std, Value}
use aura_launcher.Domain.Definition.{
  WorkflowStep, WorkflowDefinition, resolving, resolved, waiting_for_confirmation, executing,
  complete, failed, skipped, StepRun,
}
use aura_launcher.Domain.Policy.{FailureAction, stop, retry, skip, re_resolve}
use aura_launcher.Workflow.Variables.{Serde, from_snapshot, materialize_input}
use aura_launcher.Workflow.Runner.{
  WfFailure, ExecutionOutcome, Host, ResolvedStepAction, max_attempts, policy_for, with_status,
  with_error, next_attempt, Resolving, Call, resolve_once,
}

pub data StepOutcome : Type 0 where
  next paused step_failed starved : StepOutcome

module _ (S : Std) (J : Serde S) (H : Host J.Number) (def : WorkflowDefinition J.Number) where
  pub data Resolution : Type 0 where
    found : ResolvedStepAction J.Number → Resolution
    passed_over denied out_of_rounds : Resolution

  pub record Machine : Type 0 where
    pub host : H.State
    pub calls : List (Call S J H)

  abbrev pub Sr : Type 0
  Sr = StepRun J.Number

  abbrev pub Resolved : Type 0
  Resolved = Resolution × Sr × H.State

  -- What the policy makes of a failure to resolve, with the number of resolutions made again.
  abbrev pub after_failure :
      FailureAction → ℕ → ℕ → Sr → H.State → (ℕ → Sr → H.State → Resolved) → Resolved
  after_failure re_resolve most again sr s go =
      if ltb again 2
      then go (suc again) (with_status resolving sr) s
      else (denied, with_status failed sr, s)
  after_failure retry most again sr s go =
      if ltb sr.attempt most
      then go again (next_attempt (with_status resolving sr)) s
      else (denied, with_status failed sr, s)
  after_failure skip most again sr s go = (passed_over, with_status skipped sr, s)
  after_failure stop most again sr s go = (denied, with_status failed sr, s)

  unfoldable pub after_attempt :
      WorkflowStep J.Number → Resolving S J H → ℕ → Sr → (ℕ → Sr → H.State → Resolved) → Resolved
  unfolding policy_for max_attempts
  after_attempt step (ok r, s) again sr go = (found r, sr, s)
  after_attempt step (err f, s) again sr go =
      after_failure (policy_for def step f.class) (max_attempts def step) again
        (with_error f.reason sr) s go

  -- The loop of `execute_step`.
  unfoldable pub resolve_loop :
      ℕ → Value J.Number → WorkflowStep J.Number → ℕ → Sr → H.State → Resolved
  unfolding after_attempt resolve_once
  resolve_loop zero input step again sr s = (out_of_rounds, sr, s)
  resolve_loop (suc fuel) input step again sr s =
      after_attempt step (resolve_once S J H input step s) again sr
        (λ again2 sr2 s2. resolve_loop fuel input step again2 sr2 s2)

  module _ (generation : ℕ) (confirmed : Bool) (index : ℕ) (step : WorkflowStep J.Number) where
    abbrev pub Stepped : Type 0
    Stepped = StepOutcome × Sr × Machine

    -- What the policy makes of a failed execution.
    abbrev pub after_execution :
        FailureAction → ℕ → Sr → Machine → (Sr → Machine → Stepped) → Stepped
    after_execution retry most sr m again =
        if ltb sr.attempt most
        then again (with_status resolving sr) m
        else (step_failed, with_status failed sr, m)
    after_execution re_resolve most sr m again =
        if leb sr.attempt 2
        then again (with_status resolving sr) m
        else (step_failed, with_status failed sr, m)
    after_execution skip most sr m again = (next, with_status skipped sr, m)
    after_execution stop most sr m again = (step_failed, with_status failed sr, m)

    unfoldable pub executed :
        Result WfFailure (ExecutionOutcome J.Number)
        → Sr
        → Machine
        → (Sr → Machine → Stepped)
        → Stepped
    unfolding policy_for max_attempts
    executed (ok outcome) sr m again = (
      next,
      record sr {
        status = complete;
        last_execution_id = outcome.execution_id;
        resolved_context_generation = some generation;
        output = outcome.plugin_result;
      },
      m,
    )
    executed (err f) sr m again =
        after_execution (policy_for def step f.class) (max_attempts def step)
          (record sr { last_error = some f.reason; last_execution_id = f.execution_id }) m again

    unfoldable pub executed_as :
        ResolvedStepAction J.Number
        → Result WfFailure (ExecutionOutcome J.Number) × H.State
        → Sr
        → Machine
        → (Sr → Machine → Stepped)
        → Stepped
    unfolding executed
    executed_as r (res, s) sr m again =
        executed res sr
          (record {
            host = s;
            calls = record { index = index; action = r.action; confirmed = confirmed } ∷ m.calls;
          })
          again

    unfoldable pub perform :
        ResolvedStepAction J.Number → Sr → Machine → (Sr → Machine → Stepped) → Stepped
    unfolding executed_as
    perform r sr m again =
        executed_as r
          (H.execute m.host (record (r.action) { confirmation_required = false }) r.provider_id
            generation confirmed)
          (with_status executing sr) m again

    abbrev pub context_noted : Bool → Sr → Sr
    context_noted true sr = record sr { resolved_context_generation = some generation }
    context_noted false sr = sr

    unfoldable pub after_resolution : Resolved → Machine → (Sr → Machine → Stepped) → Stepped
    unfolding perform
    after_resolution (out_of_rounds, sr, s) m again = (starved, sr, record m { host = s })
    after_resolution (passed_over, sr, s) m again = (next, sr, record m { host = s })
    after_resolution (denied, sr, s) m again = (step_failed, sr, record m { host = s })
    after_resolution (found r, sr, s) m again =
        if r.action.confirmation_required && not confirmed
        then (
          paused,
          with_error "confirmation required"
              (with_status waiting_for_confirmation (context_noted r.from_command sr)),
          record m { host = s },
        )
        else perform r (with_status resolved (context_noted r.from_command sr))
            (record m { host = s }) again

    unfoldable pub resolve_rounds : ℕ
    unfolding max_attempts
    resolve_rounds = max_attempts def step + 3

    abbrev pub input_or : Result String (Value J.Number) → Value J.Number
    input_or (ok v) = v
    input_or (err e) = step.input

    abbrev pub begun : Sr → Sr
    begun sr = next_attempt (with_status resolving sr)

    -- `execute_step`, which calls itself after a failed execution. The step's input under the
    -- run's variables is the same in every call.
    unfoldable pub step_loop : ℕ → Value J.Number → Sr → Machine → Stepped
    unfolding after_resolution resolve_loop resolve_rounds
    step_loop zero input sr m = (starved, sr, m)
    step_loop (suc fuel) input sr m =
        after_resolution (resolve_loop resolve_rounds input step 0 (begun sr) m.host) m
          (λ sr2 m2. step_loop fuel input sr2 m2)

    unfoldable pub step_rounds : ℕ
    unfolding max_attempts
    step_rounds = max (max_attempts def step) 3 + 2

    unfoldable pub execute_step : Option (Value J.Number) → Sr → Machine → Stepped
    unfolding step_loop step_rounds materialize_input from_snapshot
    execute_step variables sr m =
        step_loop step_rounds
          (input_or (materialize_input S J step.input (from_snapshot variables))) sr m
