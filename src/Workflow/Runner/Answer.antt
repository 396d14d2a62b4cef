-- ===== src/Workflow/Runner/Answer.antt =====
-- A definition is run to an answer.
use aura_launcher.Common.{
  ℕ, suc, ◌≡◌, refl, ap, String, Bool, true, false, Option, none, some, List, [], ◌∷◌, map, length,
  Result, ok, err, if◌then◌else◌, string_eq, All, All-map,
}
use aura_launcher.Domain.Expr.{Std}
use aura_launcher.Domain.Definition.{
  validate, fresh_run, fresh_step, running, WorkflowStep, WorkflowDefinition, WorkflowRun,
}
use aura_launcher.Workflow.Variables.{Serde}
use aura_launcher.Workflow.Validation.{DefinitionError, validate_graph}
use aura_launcher.Workflow.Validation.Total.{validate_graph_total}
use aura_launcher.Workflow.Runner.{Host, Call}
use aura_launcher.Workflow.Runner.Step.{Machine}
use aura_launcher.Workflow.Runner.Calls.{CallOk, CallsOk}
use aura_launcher.Workflow.Runner.Walk.{
  resume, is_paused, run_fresh, run_checked, run, End, done, error, panicked, out_of_rounds,
  advance,
}
use aura_launcher.Workflow.Runner.Positions.{Settled}
use aura_launcher.Workflow.Runner.Ends.{Ended, Fits, Limits, advance-Ended}

module _ (S : Std) (J : Serde S) (H : Host J.Number) (def : WorkflowDefinition J.Number)
    (generation : ℕ) where
  abbrev pub AllEnabled : List (Call S J H) → Type 0
  AllEnabled calls = All (λ c. c.action.disabled_reason ≡ none) calls

  calls-AllEnabled : (calls : List (Call S J H)) → All (CallOk S J H) calls → AllEnabled calls
  calls-AllEnabled calls h =
      All-map (CallOk S J H) (λ c. c.action.disabled_reason ≡ none) calls (λ c k. k.enabled) h

  -- A run that is over or an error, and calls that are right.
  abbrev pub Answered : End J.Number × Machine S J H def → Type 0
  Answered (done run, m) = Settled run × CallsOk S J H def m
  Answered (error e, m) = CallsOk S J H def m
  Answered (panicked, m) = ⊥
  Answered (out_of_rounds, m) = ⊥

  -- The same, of the calls only that each is for an enabled action.
  abbrev pub Resumed : End J.Number × Machine S J H def → Type 0
  Resumed (done run, m) = Settled run × AllEnabled m.calls
  Resumed (error e, m) = AllEnabled m.calls
  Resumed (panicked, m) = ⊥
  Resumed (out_of_rounds, m) = ⊥

  Answered-Resumed : (r : End J.Number × Machine S J H def) → Answered r → Resumed r
  Answered-Resumed (done run, m) h = (h.0, calls-AllEnabled m.calls h.1)
  Answered-Resumed (error e, m) h = calls-AllEnabled m.calls h
  Answered-Resumed (panicked, m) h = h
  Answered-Resumed (out_of_rounds, m) h = h

  Ended-Answered :
      (confirmed : Bool) (r : End J.Number × Machine S J H def)
      → Ended S J H def generation confirmed r
      → Answered r
  Ended-Answered confirmed (done run, m) h = h
  Ended-Answered confirmed (error e, m) h = h.1
  Ended-Answered confirmed (panicked, m) h = h
  Ended-Answered confirmed (out_of_rounds, m) h = h

  length-fresh :
      (steps : List (WorkflowStep J.Number)) → length (map fresh_step steps) ≡ length steps
  length-fresh [] = refl
  length-fresh (s ∷ steps) = ap suc (length-fresh steps)

  fresh-Answered :
      (id : String) (m : Machine S J H def)
      → Limits S J H def generation false
      → CallsOk S J H def m
      → Answered (run_fresh S J H def generation id m)
  unfolding run_fresh fresh_run
  fresh-Answered id m w c = Ended-Answered false _ (
      advance-Ended S J H def generation false (record (fresh_run id def) { status = running }) m w
        (length-fresh def.steps) c)

  checked-Answered :
      (v : Result {0, 0} String Unit) (g : Option (Result {0, 0} (List DefinitionError) Unit))
      (r : Result {0, 0} (List DefinitionError) Unit)
      → g ≡ some r
      → (id : String) (m : Machine S J H def) → Limits S J H def generation false
      → CallsOk S J H def m
      → Answered (run_checked S J H def generation v g id m)
  unfolding run_checked
  checked-Answered (err e) g r h id m w c = c
  checked-Answered (ok _) none r h id m w c = cc
  checked-Answered (ok _) (some (err es)) r h id m w c = c
  checked-Answered (ok _) (some (ok _)) r h id m w c = fresh-Answered id m w c

  resumed-Answered :
      (r : WorkflowRun J.Number) (m : Machine S J H def)
      → Limits S J H def generation true
      → Fits S J H def generation true r
      → CallsOk S J H def m
      → (b : Bool)
      → Answered (
          if b
          then advance S J H def generation true
              (record r { status = running; paused_reason = none })
              m
          else (error "only paused runs can resume", m))
  resumed-Answered r m w f c true =
      Ended-Answered true
        (advance S J H def generation true (record r { status = running; paused_reason = none }) m)
        (advance-Ended S J H def generation true
          (record r { status = running; paused_reason = none }) m w f c)
  resumed-Answered r m w f c false = c

  -- `run` answers on every definition whose attempt limits fit 32 bits, under every host, and so
  -- does `resume` on every run with as many steps as the definition: with an error, or with a run
  -- that is over, which has succeeded only if every step has completed or is skipped, and is paused
  -- only if a step waits for a confirmation. Each call of the executor that `run` makes is for an
  -- action that is enabled, and was confirmed if the action asks for it; each call that
  -- `resume` makes is for an action that is enabled; provided that the calls made before were for
  -- enabled actions, confirmed if they ask for it.
  pub run-Answered :
      (id : String) (m : Machine S J H def)
      → Limits S J H def generation false
      → CallsOk S J H def m
      → Answered (run S J H def generation id m)
        × ((r : WorkflowRun J.Number)
            → Fits S J H def generation true r
            → Resumed (resume S J H def generation r m))
  unfolding run resume
  run-Answered id m w c =
      let (r, total) = validate_graph_total S def in
      (
        checked-Answered (validate def) (validate_graph S def) r total id m w c,
        λ old f.
            Answered-Resumed (resume S J H def generation old m)
              (resumed-Answered old m w f c (is_paused old.status)),
      )
