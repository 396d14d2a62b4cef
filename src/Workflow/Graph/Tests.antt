-- ===== src/Workflow/Graph/Tests.antt =====
-- Runs of the validator at concrete graphs.
use aura_launcher.Common.{◌≡◌, refl, String, false, none, some, [], ◌∷◌, Result, ok, err, ◌↔◌}
use aura_launcher.Workflow.Graph.{
  WorkflowGraph, WorkflowNode, WorkflowEdge, GraphError, cycle, new, with_node, with_edge, validate,
}
use aura_launcher.Common.Ids
use aura_launcher.Common.Map
use aura_launcher.Workflow.Graph.Colors.{color_loop}
use aura_launcher.Workflow.Graph.Valid.{IsValid, Outcome, validate_lem, validate-ok_iff}

abbrev pub node : String → WorkflowNode
node id = record {
  node_id = id;
  action_ref = id;
  output_variables = [];
  condition = none;
  approval = false;
}

abbrev pub edge : String → String → WorkflowEdge
edge f t = record { from = f; to = t; condition = none }

abbrev pub diamond : WorkflowGraph
unfolding new with_node with_edge
diamond = with_edge (edge "b" "d") (
    with_edge (edge "c" "d") (
      with_edge (edge "a" "c") (
        with_edge (edge "a" "b") (
          with_node (node "d") (
            with_node (node "c")
              (with_node (node "b") (with_node (node "a") (new "g" "g" "a"))))))))

abbrev looped : WorkflowGraph
unfolding with_edge
looped = with_edge (edge "d" "b") diamond

diamond_accepted : validate diamond ≡ some (ok tt)
unfolding validate diamond Ids.contains Ids.insert Map.lookup Map.insert color_loop
diamond_accepted = refl

looped_rejected : validate looped ≡ some (err (cycle ("b" ∷ "d" ∷ "c" ∷ "a" ∷ [])))
unfolding validate looped diamond Ids.contains Ids.insert Map.lookup Map.insert color_loop
looped_rejected = refl

validate_lem_example :
    (r : Result GraphError (Unit {0})) × (validate looped ≡ some r) × Outcome looped r
validate_lem_example = validate_lem looped

validate-ok_iff_example : (validate diamond ≡ some (ok tt)) ↔ IsValid diamond
validate-ok_iff_example = validate-ok_iff diamond
