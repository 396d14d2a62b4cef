-- ===== src/Workflow/Scheduler/Tests.antt =====
-- Runs of the scheduler under a small host.
use aura_launcher.Common.{
  ℕ, ◌≡◌, ◌↔◌, String, true, false, ◌||◌, none, some, List, [], ◌∷◌, ok, All, string_eq,
}
use aura_launcher.Common.Ids.{contains}
use aura_launcher.Workflow.Graph.Tests.{diamond}
use aura_launcher.Workflow.Engine.{Json, ready_nodes}
use aura_launcher.Workflow.Engine.Readiness.{IsReady, ready_nodes_iff}
use aura_launcher.Workflow.Scheduler.{
  Host, Run, SchedulerStop, at_end, run_graph, mark_condition_skips,
}
use aura_launcher.Workflow.Scheduler.Sets.{fails, mark_condition_skips-all}
use aura_launcher.Workflow.Scheduler.Calls.{CallOk}
use aura_launcher.Workflow.Scheduler.Finish.{AllOver, run_graph_lem}
use aura_launcher.Workflow.Scheduler.Authority.{run_graph_calls}

-- Values that are texts only.
abbrev texts : Json
texts = record {
  Value = String;
  Float = ℕ;
  null = "";
  string = λ s. s;
  is_null = λ s. false;
  as_f64 = λ s. none;
  text = λ s. s;
  float_eq = λ a b. false;
  float_lt = λ a b. false;
}

abbrev willing : Host texts
willing = record {
  cancelled = λ n. false;
  has_approvals = false;
  decision_for = λ n id. none;
  execute = λ n node vars. ok "done";
}

run_graph_lem_example :
    (s : SchedulerStop) × (run : Run texts) × (run_graph texts willing diamond none ≡ some (s, run))
    × (s ≡ at_end → AllOver texts willing diamond run)
run_graph_lem_example = run_graph_lem texts willing diamond none

run_graph_calls_example :
    All (λ c. CallOk texts willing diamond c) (run_graph_lem texts willing diamond none).1.calls
run_graph_calls_example =
    run_graph_calls texts willing diamond none (run_graph_lem texts willing diamond none).0
      (run_graph_lem texts willing diamond none).1 (run_graph_lem texts willing diamond none).2

abbrev one_id : List String
one_id = "b" ∷ []

mark_condition_skips-all_example :
    contains {A = String} "b" (mark_condition_skips texts diamond.nodes [] one_id).0
    ≡ (contains {A = String} "b" one_id || fails texts diamond.nodes [] "b")
mark_condition_skips-all_example = mark_condition_skips-all texts diamond.nodes [] one_id "b"

ready_nodes_iff_example :
    (contains {A = String} "b" (ready_nodes diamond ("a" ∷ []) []) ≡ true)
    ↔ IsReady diamond ("a" ∷ []) [] "b"
ready_nodes_iff_example = ready_nodes_iff diamond ("a" ∷ []) [] "b"
