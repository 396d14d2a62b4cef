-- ===== src/Workflow/Runner/Rounds.antt =====
-- One step comes to an end, and its attempts are bounded.
use aura_launcher.Common.{
  ℕ, zero, suc, ◌+◌, ◌-◌, ◌%◌, ◌^◌, ◌≤◌, ◌<◌, ◌≡◌, refl, Bool, true, false, ◌&&◌, not, Option, some,
  max, ltb, leb, ltb→lt, Result, ok, err, arith, Bool-cases, inl, inr,
}
use aura_launcher.Domain.Expr.{Std, Value}
use aura_launcher.Domain.Definition.{
  WorkflowStep, WorkflowDefinition, waiting_for_confirmation, failed, skipped, resolving,
}
use aura_launcher.Domain.Policy.{FailureAction, stop, retry, skip, re_resolve}
use aura_launcher.Workflow.Variables.{Serde, from_snapshot, materialize_input}
use aura_launcher.Workflow.Runner.{
  Host, max_attempts, is_over, Resolving, resolve_once, with_status, with_error, next_attempt,
  policy_for, WfFailure, ExecutionOutcome,
}
use aura_launcher.Workflow.Runner.Step.{
  StepOutcome, next, paused, step_failed, starved, found, passed_over, denied, out_of_rounds,
  Machine, Sr, Resolved, after_failure, after_attempt, resolve_loop, after_execution, executed,
  executed_as, perform, after_resolution, resolve_rounds, input_or, begun, step_loop, step_rounds,
  execute_step, context_noted,
}

next_small : (a m : ℕ) → a < m → m < 2 ^ 32 → (a + 1) % 2 ^ 32 ≡ a + 1
next_small a m h k = omega arith

module _ (S : Std) (J : Serde S) (H : Host J.Number) (def : WorkflowDefinition J.Number) where
  -- A step's record after a resolution that began at `n` attempts.
  abbrev pub Resolves : ℕ → ℕ → Resolved S J H def → Type 0
  Resolves n most (out_of_rounds, sr, s) = ⊥
  Resolves n most (found r, sr, s) = (n ≤ sr.attempt) × (sr.attempt ≤ max n most)
  Resolves n most (passed_over, sr, s) = (sr.status ≡ skipped) × (sr.attempt ≤ max n most)
  Resolves n most (denied, sr, s) = (sr.status ≡ failed) × (sr.attempt ≤ max n most)

  weaken :
      (n k most : ℕ) (r : Resolved S J H def)
      → n ≤ k
      → k ≤ max n most
      → Resolves k most r
      → Resolves n most r
  weaken n k most (out_of_rounds, sr, s) h u p = p
  weaken n k most (found r, sr, s) h u p = (omega arith, omega arith)
  weaken n k most (passed_over, sr, s) h u p = (p.0, omega arith)
  weaken n k most (denied, sr, s) h u p = (p.0, omega arith)

  -- A resolution that goes on does so within the rounds left.
  after_failure_resolves :
      (a : FailureAction) (most again fuel : ℕ) (sr : Sr S J H def) (s : H.State)
      (go : ℕ → Sr S J H def → H.State → Resolved S J H def)
      → most < 2 ^ 32
      → (2 - again) + (most - sr.attempt) < suc fuel
      → ((again2 : ℕ) (sr2 : Sr S J H def)
          → (2 - again2) + (most - sr2.attempt) < fuel
          → Resolves sr2.attempt most (go again2 sr2 s))
      → Resolves sr.attempt most (after_failure S J H def a most again sr s go)
  after_failure_resolves re_resolve most again fuel sr s go w h g =
      elim (Bool-cases (ltb again 2)) [
        | inl more ↦
            rw more (g (suc again) (with_status resolving sr) (omega (arith, ltb→lt again 2 more)))
        | inr over ↦ rw over (refl, omega arith)
      ]
  after_failure_resolves retry most again fuel sr s go w h g =
      elim (Bool-cases (ltb sr.attempt most)) [
        | inl more ↦
            let small = ltb→lt sr.attempt most more in
            let same = next_small sr.attempt most small w in
            let sr2 = next_attempt (with_status resolving sr) in
            rw more (
              weaken sr.attempt ((sr.attempt + 1) % 2 ^ 32) most (go again sr2 s)
                (omega (arith, same)) (omega (arith, same)) (g again sr2 (omega (arith, same))))
        | inr over ↦ rw over (refl, omega arith)
      ]
  after_failure_resolves skip most again fuel sr s go w h g = (refl, omega arith)
  after_failure_resolves stop most again fuel sr s go w h g = (refl, omega arith)

  after_attempt_resolves :
      (step : WorkflowStep J.Number) (r : Resolving S J H) (again fuel : ℕ) (sr : Sr S J H def)
      (go : ℕ → Sr S J H def → H.State → Resolved S J H def)
      → max_attempts def step < 2 ^ 32
      → (2 - again) + (max_attempts def step - sr.attempt) < suc fuel
      → ((again2 : ℕ) (sr2 : Sr S J H def) (s : H.State)
          → (2 - again2) + (max_attempts def step - sr2.attempt) < fuel
          → Resolves sr2.attempt (max_attempts def step) (go again2 sr2 s))
      → Resolves sr.attempt (max_attempts def step) (after_attempt S J H def step r again sr go)
  unfolding after_attempt
  after_attempt_resolves step (ok r, s) again fuel sr go w h g = (omega arith, omega arith)
  after_attempt_resolves step (err f, s) again fuel sr go w h g =
      after_failure_resolves (policy_for def step f.class) (max_attempts def step) again fuel
        (with_error f.reason sr) s go w h (λ a2 sr2 k. g a2 sr2 s k)

  resolve_loop_resolves :
      (fuel : ℕ) (input : Value J.Number) (step : WorkflowStep J.Number) (again : ℕ)
      (sr : Sr S J H def) (s : H.State)
      → max_attempts def step < 2 ^ 32
      → (2 - again) + (max_attempts def step - sr.attempt) < fuel
      → Resolves sr.attempt
          (max_attempts def step)
          (resolve_loop S J H def fuel input step again sr s)
  unfolding resolve_loop
  resolve_loop_resolves zero input step again sr s w h = absurd (omega arith)
  resolve_loop_resolves (suc fuel) input step again sr s w h =
      after_attempt_resolves step (resolve_once S J H input step s) again fuel sr
        (λ again2 sr2 s2. resolve_loop S J H def fuel input step again2 sr2 s2) w h
        (λ again2 sr2 s2 k. resolve_loop_resolves fuel input step again2 sr2 s2 w k)

  abbrev pub most_attempts : WorkflowStep J.Number → ℕ
  most_attempts step = max (max_attempts def step) 3

  -- A step's outcome, with attempts up to a bound: it has completed or is skipped if the run goes
  -- on, waits for a confirmation if the run is paused, and has failed otherwise.
  abbrev pub Ends : ℕ → StepOutcome × Sr S J H def × Machine S J H def → Type 0
  Ends n (starved, sr, m) = ⊥
  Ends n (next, sr, m) = (is_over sr.status ≡ true) × (sr.attempt ≤ n)
  Ends n (paused, sr, m) = (sr.status ≡ waiting_for_confirmation) × (sr.attempt ≤ n)
  Ends n (step_failed, sr, m) = (sr.status ≡ failed) × (sr.attempt ≤ n)

  Ends-more :
      (n k : ℕ) (r : StepOutcome × Sr S J H def × Machine S J H def) → n ≤ k → Ends n r → Ends k r
  Ends-more n k (starved, sr, m) h e = e
  Ends-more n k (next, sr, m) h e = (e.0, omega arith)
  Ends-more n k (paused, sr, m) h e = (e.0, omega arith)
  Ends-more n k (step_failed, sr, m) h e = (e.0, omega arith)

  module _ (generation : ℕ) (confirmed : Bool) (index : ℕ) (step : WorkflowStep J.Number) where
    abbrev bound : ℕ → ℕ
    bound n = max n (most_attempts step)

    -- What goes on from a record, from at least `n` attempts on.
    abbrev GoesOn :
        ℕ
        → (Sr S J H def → Machine S J H def → StepOutcome × Sr S J H def × Machine S J H def)
        → Type 0
    GoesOn n again =
        (sr : Sr S J H def) (m : Machine S J H def)
        → n ≤ sr.attempt
        → sr.attempt < most_attempts step
        → Ends (bound n) (again sr m)

    after_execution-Ends :
        (a : FailureAction) (n : ℕ) (sr : Sr S J H def) (m : Machine S J H def)
        (again : Sr S J H def → Machine S J H def → StepOutcome × Sr S J H def × Machine S J H def)
        → n ≤ sr.attempt
        → sr.attempt ≤ bound n
        → GoesOn n again
        → Ends (bound n) (
            after_execution S J H def generation confirmed index step a
              (max_attempts def step)
              sr
              m
              again)
    after_execution-Ends retry n sr m again l u g =
        elim (Bool-cases (ltb sr.attempt (max_attempts def step))) [
          | inl more ↦ rw more (
              g (with_status resolving sr) m l
                (omega (arith, ltb→lt sr.attempt (max_attempts def step) more)))
          | inr over ↦ rw over (refl, u)
        ]
    after_execution-Ends re_resolve n sr m again l u g = elim (Bool-cases (leb sr.attempt 2)) [
      | inl more ↦ rw more (g (with_status resolving sr) m l (ground arith))
      | inr over ↦ rw over (refl, u)
    ]
    after_execution-Ends skip n sr m again l u g = (refl, u)
    after_execution-Ends stop n sr m again l u g = (refl, u)

    executed-Ends :
        (r : Result WfFailure (ExecutionOutcome J.Number)) (n : ℕ) (sr : Sr S J H def)
        (m : Machine S J H def)
        (again : Sr S J H def → Machine S J H def → StepOutcome × Sr S J H def × Machine S J H def)
        → n ≤ sr.attempt
        → sr.attempt ≤ bound n
        → GoesOn n again
        → Ends (bound n) (executed S J H def generation confirmed index step r sr m again)
    unfolding executed
    executed-Ends (ok o) n sr m again l u g = (refl, u)
    executed-Ends (err f) n sr m again l u g =
        after_execution-Ends (policy_for def step f.class) n
          (record sr { last_error = some f.reason; last_execution_id = f.execution_id }) m again l u
          g

    context_keeps :
        (b : Bool) (sr : Sr S J H def)
        → (context_noted S J H def generation confirmed index step b sr).attempt ≡ sr.attempt
    context_keeps true sr = refl
    context_keeps false sr = refl

    after_resolution-Ends :
        (r : Resolved S J H def) (n : ℕ) (m : Machine S J H def)
        (again : Sr S J H def → Machine S J H def → StepOutcome × Sr S J H def × Machine S J H def)
        → Resolves n (max_attempts def step) r
        → GoesOn n again
        → Ends (bound n) (after_resolution S J H def generation confirmed index step r m again)
    unfolding after_resolution perform executed_as
    after_resolution-Ends (out_of_rounds, sr, s) n m again p g = absurd p
    after_resolution-Ends (passed_over, sr, s) n m again p g = (ground (arith, p.0), omega arith)
    after_resolution-Ends (denied, sr, s) n m again p g = (p.0, omega arith)
    after_resolution-Ends (found r, sr, s) n m again p g =
        let same = context_keeps r.from_command sr in
        elim (Bool-cases (r.action.confirmation_required && not confirmed)) [
          | inl asks ↦ rw asks (refl, omega (arith, same))
          | inr goes ↦
              rw goes (executed-Ends _ n _ _ again (omega (arith, same)) (omega (arith, same)) g)
        ]

    step_loop-Ends :
        (fuel : ℕ) (input : Value J.Number) (sr : Sr S J H def) (m : Machine S J H def)
        → max_attempts def step < 2 ^ 32
        → most_attempts step - (sr.attempt + 1) % 2 ^ 32 < fuel
        → Ends
            (bound ((sr.attempt + 1) % 2 ^ 32))
            (step_loop S J H def generation confirmed index step fuel input sr m)
    unfolding step_loop
    step_loop-Ends zero input sr m w h = absurd (omega arith)
    step_loop-Ends (suc fuel) input sr m w h =
        let n = (sr.attempt + 1) % 2 ^ 32 in
        after_resolution-Ends
          (resolve_loop S J H def (resolve_rounds S J H def generation confirmed index step) input
            step 0 (begun S J H def generation confirmed index step sr) m.host)
          n m (λ sr2 m2. step_loop S J H def generation confirmed index step fuel input sr2 m2)
          (resolve_loop_resolves (resolve_rounds S J H def generation confirmed index step) input
            step 0 (begun S J H def generation confirmed index step sr) m.host w (omega arith))
          (λ sr2 m2 l u.
            let same = next_small sr2.attempt (most_attempts step) u (omega arith) in
            Ends-more (bound ((sr2.attempt + 1) % 2 ^ 32)) (bound n) _ (omega (arith, same))
              (step_loop-Ends fuel input sr2 m2 w (omega (arith, same))))

    -- A step under an attempt limit that fits 32 bits comes to an end: the run goes on only from a
    -- completed or skipped step, pauses only at a step that waits for a confirmation, and fails at a
    -- failed step; and its attempts stay within the limit or three, if they began below.
    pub execute_step-Ends :
        (variables : Option (Value J.Number)) (sr : Sr S J H def) (m : Machine S J H def)
        → max_attempts def step < 2 ^ 32
        → Ends
            (max ((sr.attempt + 1) % 2 ^ 32) (most_attempts step))
            (execute_step S J H def generation confirmed index step variables sr m)
    unfolding execute_step step_rounds
    execute_step-Ends variables sr m w =
        step_loop-Ends (step_rounds S J H def generation confirmed index step)
          (input_or S J H def generation confirmed index step
            (materialize_input S J step.input (from_snapshot variables)))
          sr m w (omega arith)
