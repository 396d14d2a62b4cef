-- ===== src/Workflow/Scheduler/Finish.antt =====
-- `run_graph` from any checkpoint: the fuel is enough, and what its end says.
use aura_launcher.Common.{
  ℕ, zero, suc, ◌+◌, ◌<◌, ◌≡◌, refl, String, true, Option, some, arith, inl, inr, ◌⊎◌, subst,
}
use aura_launcher.Workflow.Graph.{WorkflowGraph}
use aura_launcher.Workflow.Engine.{Json, is_over}
use aura_launcher.Workflow.Scheduler.{
  Host, Run, RunCheckpoint, Step, stop, go, panicked, SchedulerStop, at_end, round_step, run_loop,
  rounds, run_graph, resume,
}
use aura_launcher.Workflow.Scheduler.Sets.{lacking, lacking_mono, lacking_drop, lacking_le}
use aura_launcher.Workflow.Scheduler.Batch.{Inside}
use aura_launcher.Workflow.Scheduler.Progress.{StepOk, round_step_ok}

module _ (J : Json) (host : Host J) (graph : WorkflowGraph) where
  -- What is left to do.
  abbrev pub todo : Run J → ℕ
  todo run = lacking run.finished_ids graph.nodes + lacking run.skipped_ids graph.nodes

  todo_drop : (run run' : Run J) → StepOk J host graph run (go run') → todo run' < todo run
  todo_drop run run' ok = elim ok.4 [
    | inl f ↦
        let drop =
          lacking_drop run.finished_ids run'.finished_ids graph.nodes ok.2 ok.0 ok.3 f.0 f.1 in
        let mono = lacking_mono run.skipped_ids run'.skipped_ids graph.nodes ok.1 in omega arith
    | inr s ↦
        let drop =
          lacking_drop run.skipped_ids run'.skipped_ids graph.nodes ok.2 ok.1 ok.3 s.0 s.1 in
        let mono = lacking_mono run.finished_ids run'.finished_ids graph.nodes ok.0 in omega arith
  ]

  abbrev pub AllOver : Run J → Type 0
  AllOver run =
      (u : String) → Inside J host graph u → is_over run.finished_ids run.skipped_ids u ≡ true

  step-cases :
      (step : Step J)
      → ((s : SchedulerStop) × (run : Run J) × (step ≡ stop s run))
        ⊎ (((run : Run J) × (step ≡ go run)) ⊎ (step ≡ panicked))
  step-cases (stop s run) = inl (s, run, refl)
  step-cases (go run) = inr (inl (run, refl))
  step-cases panicked = inr (inr refl)

  run_loop_ok :
      (fuel : ℕ) (run : Run J)
      → todo run < fuel
      → (s : SchedulerStop) × (run' : Run J) × (run_loop J host graph fuel run ≡ some (s, run'))
        × (s ≡ at_end → AllOver run')
  unfolding run_loop
  run_loop_ok zero run h = absurd (omega arith)
  run_loop_ok (suc fuel) run h = elim (step-cases (round_step J host graph run)) [
    | inl (s, run', stops) ↦ rw stops (
      s,
      run',
      refl,
      subst (λ x. StepOk J host graph run x) stops (round_step_ok J host graph run),
    )
    | inr (inl (run', goes)) ↦
        let less =
          todo_drop run run'
            (subst (λ x. StepOk J host graph run x) goes (round_step_ok J host graph run)) in
        rw goes (run_loop_ok fuel run' (omega arith))
    | inr (inr breaks) ↦
        absurd (subst (λ x. StepOk J host graph run x) breaks (round_step_ok J host graph run))
  ]

  -- From any checkpoint and under any host, `run_graph` returns within `2 n + 1` passes for a
  -- graph of `n` nodes, without a panic; and when it returns `Finished`, every node has finished
  -- or is skipped.
  pub run_graph_lem :
      (saved : Option (RunCheckpoint J))
      → (s : SchedulerStop) × (run : Run J) × (run_graph J host graph saved ≡ some (s, run))
        × (s ≡ at_end → AllOver run)
  unfolding run_graph
  run_graph_lem saved =
      let run = resume J host graph saved in
      let f = lacking_le run.finished_ids graph.nodes in
      let k = lacking_le run.skipped_ids graph.nodes in
      run_loop_ok (rounds J host graph) run (omega arith)
