-- ===== src/Workflow/Scheduler/Authority.antt =====
-- The executor is called only on nodes that may run, over a whole run.
use aura_launcher.Common.{
  ℕ, zero, suc, ◌≡◌, refl, String, Bool, true, false, Option, none, some, List, [], ◌∷◌, ◌++◌, map,
  filter, filter-All, string_eq, Bool-cases, inl, inr, All, All-append, All-map, subst, some-inj,
  none-ne-some,
}
use aura_launcher.Common.Ids.{contains}
use aura_launcher.Workflow.Graph.{WorkflowNode, WorkflowGraph}
use aura_launcher.Workflow.Engine.{Json}
use aura_launcher.Workflow.Scheduler.{
  Host, Run, RunCheckpoint, Step, stop, go, panicked, Gate, SchedulerStop, checkpoint, is_runnable,
  mark, gate_all, batch_out, apply_batch, batch_round, gate_round, idle_round, mark_condition_skips,
  runnable_round, round_step, poll, run_loop, rounds, run_graph, resume, call, remaining, loop_from,
  resume_from, same_version,
}
use aura_launcher.Workflow.Scheduler.Calls.{
  CallOk, Called, StepCalled, NodeOk, ToRun, runnable_ok, gate_all_calls, apply_batch-Called,
  and_then-Called, new_calls,
}
use aura_launcher.Workflow.Scheduler.Gating.{gate_all_ok}

module _ (J : Json) (host : Host J) (graph : WorkflowGraph) where
  gate_round-Called :
      (before run : Run J) (nodes : List WorkflowNode) (waits : Option String)
      → run.finished_ids ≡ before.finished_ids
      → run.vars ≡ before.vars
      → ((u : String) → contains u before.skipped_ids ≡ true → contains u run.skipped_ids ≡ true)
      → ToRun J host graph before run.round nodes
      → Called J host graph run
      → StepCalled J host graph (gate_round J host graph run nodes waits)
  unfolding gate_round batch_round poll checkpoint mark
  gate_round-Called before run nodes (some id) same vars grows t c = c
  gate_round-Called before run nodes none same vars grows t c =
      elim (Bool-cases (host.cancelled run.polls)) [
        | inl cancelled ↦ rw cancelled c
        | inr goes ↦
            let run' : Run J = record (poll J host graph run) {
              calls = map (call J host graph (poll J host graph run)) nodes ++ run.calls;
            } in
            rw goes (
              and_then-Called J host graph
                (apply_batch J host graph (batch_out J host graph (poll J host graph run) nodes)
                  run')
                (λ r. go (mark J host graph r))
                (apply_batch-Called J host graph
                  (batch_out J host graph (poll J host graph run) nodes) run'
                  (All-append (λ c. CallOk J host graph c)
                    (map (call J host graph (poll J host graph run)) nodes) run.calls
                    (new_calls J host graph before (poll J host graph run) nodes same vars grows t)
                    c))
                (λ r c'. c'))
      ]

  idle-Called :
      (run : Run J) (left : List String) (progressed : Bool)
      → Called J host graph run
      → StepCalled J host graph (idle_round J host graph run left progressed)
  unfolding idle_round checkpoint
  idle-Called run [] progressed c = c
  idle-Called run (id ∷ left) true c = c
  idle-Called run (id ∷ left) false c = c

  runnable-Called :
      (run : Run J) (nodes : List WorkflowNode)
      → All (λ n. is_runnable J host graph run n ≡ true) nodes
      → Called J host graph run
      → StepCalled J host graph (runnable_round J host graph run nodes)
  unfolding runnable_round mark
  runnable-Called run [] good c =
      idle-Called (mark J host graph run) (remaining J host graph run)
        (mark_condition_skips J graph.nodes run.vars run.skipped_ids).1 c
  runnable-Called run (n ∷ nodes) good c =
      let g : Gate J = record {
        skipped_ids = run.skipped_ids;
        to_execute = [];
        gated_pending = none;
        requests = run.requests;
      } in
      let g' = gate_all J host graph run.round (n ∷ nodes) g in
      gate_round-Called run (record run { skipped_ids = g'.skipped_ids; requests = g'.requests })
        g'.to_execute g'.gated_pending refl refl
        (gate_all_ok J host graph run.round (n ∷ nodes) g).0
        (gate_all_calls J host graph run run.round (n ∷ nodes) g
          (All-map (λ m. is_runnable J host graph run m ≡ true) (λ m. NodeOk J host graph run m)
            (n ∷ nodes) (runnable_ok J host graph run) good)
          tt)
        c

  round_step-Called :
      (run : Run J)
      → Called J host graph run
      → StepCalled J host graph (round_step J host graph run)
  unfolding round_step poll checkpoint
  round_step-Called run c = elim (Bool-cases (host.cancelled run.polls)) [
    | inl cancelled ↦ rw cancelled c
    | inr goes ↦
        let run' : Run J = record (poll J host graph run) { round = suc run.round } in
        rw goes (
          runnable-Called run' (filter (is_runnable J host graph run') graph.nodes)
            (filter-All (is_runnable J host graph run') graph.nodes) c)
  ]

  loop-Called :
      (step : Step J) (next : Run J → Option (SchedulerStop × Run J)) (s : SchedulerStop)
      (run : Run J)
      → loop_from J host graph step next ≡ some (s, run)
      → StepCalled J host graph step
      → ((r : Run J) → next r ≡ some (s, run) → Called J host graph r → Called J host graph run)
      → Called J host graph run
  loop-Called (stop s' run') next s run h c later =
      subst (λ p. Called J host graph p.1) (some-inj h) c
  loop-Called (go run') next s run h c later = later run' h c
  loop-Called panicked next s run h c later = absurd (none-ne-some h)

  run_loop-Called :
      (fuel : ℕ) (run : Run J) (s : SchedulerStop) (run' : Run J)
      → run_loop J host graph fuel run ≡ some (s, run')
      → Called J host graph run
      → Called J host graph run'
  unfolding run_loop
  run_loop-Called zero run s run' h c = absurd (none-ne-some h)
  run_loop-Called (suc fuel) run s run' h c =
      loop-Called (round_step J host graph run) (λ r. run_loop J host graph fuel r) s run' h
        (round_step-Called run c) (λ r e d. run_loop-Called fuel r s run' e d)

  resume_either :
      (cp : RunCheckpoint J) (b : Bool) → Called J host graph (resume_from J host graph cp b)
  resume_either cp true = tt
  resume_either cp false = tt

  resume-Called :
      (saved : Option (RunCheckpoint J)) → Called J host graph (resume J host graph saved)
  resume-Called none = tt
  resume-Called (some cp) = resume_either cp (same_version J host graph cp)

  -- Whatever the host answers, `run_graph` calls the executor on a node only when it has not
  -- finished before, all its predecessors have finished or are skipped, its condition holds under
  -- the variables passed, and, if it asks for an approval, the decision on it is `Approved`.
  pub run_graph_calls :
      (saved : Option (RunCheckpoint J)) (s : SchedulerStop) (run : Run J)
      → run_graph J host graph saved ≡ some (s, run)
      → All (λ c. CallOk J host graph c) run.calls
  unfolding run_graph
  run_graph_calls saved s run h =
      run_loop-Called (rounds J host graph) (resume J host graph saved) s run h
        (resume-Called saved)
