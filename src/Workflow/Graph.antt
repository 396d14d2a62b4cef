-- ===== src/Workflow/Graph.antt =====
-- Workflow graphs and their validator (crates/launcher-workflow/src/graph.rs). The two loops of
-- the validator over an explicit stack are in `Search` and `Colors`, over any successor function.
pub mod Search
pub mod Colors
pub mod Acyclic
pub mod Visits
pub mod Edges
pub mod Valid
pub mod Tests
use aura_launcher.Common.{
  ℕ, ◌+◌, String, Bool, true, false, ◌&&◌, ◌||◌, not, Option, none, some, List, [], ◌∷◌, ◌++◌, map,
  length, string_eq, ◌==◌, Result, ok, err, if◌then◌else◌,
}
use aura_launcher.Common.Map.{lookup, insert}
use aura_launcher.Common.Ids
use aura_launcher.Common.Ids.{contains}
use aura_launcher.Workflow.Graph.Search.{reach_loop, fuel_for}
use aura_launcher.Workflow.Graph.Colors.{Visit, fine, cyclic, color_starts}

pub data ConditionOp : Type 0 where
  eq ne gt lt : ConditionOp

pub record ConditionExpr : Type 0 where
  pub left : String
  pub op : ConditionOp
  pub right : String

pub record WorkflowNode : Type 0 where
  pub node_id : String
  pub action_ref : String
  pub output_variables : List String
  pub condition : Option ConditionExpr
  pub approval : Bool

pub record WorkflowEdge : Type 0 where
  pub from : String
  pub to : String
  pub condition : Option ConditionExpr

pub record WorkflowGraph : Type 0 where
  pub id : String
  pub version : ℕ
  pub name : String
  pub entry_node : String
  pub nodes : List WorkflowNode
  pub edges : List WorkflowEdge

unfoldable pub new : String → String → String → WorkflowGraph
new id name entry_node = record {
  id = id;
  version = 1;
  name = name;
  entry_node = entry_node;
  nodes = [];
  edges = [];
}

unfoldable pub with_node : WorkflowNode → WorkflowGraph → WorkflowGraph
with_node node g = record g { nodes = g.nodes ++ node ∷ [] }

unfoldable pub with_edge : WorkflowEdge → WorkflowGraph → WorkflowGraph
with_edge edge g = record g { edges = g.edges ++ edge ∷ [] }

pub data GraphError : Type 0 where
  duplicate_node : String → GraphError
  missing_entry_node : String → GraphError
  multiple_entry : List String → GraphError
  dangling_edge : String → String → GraphError
  self_loop : String → GraphError
  cycle : List String → GraphError
  unreachable_node : String → GraphError
  empty : GraphError

abbrev pub node_ids : WorkflowGraph → List String
node_ids g = map (λ n. n.node_id) g.nodes

-- The set of ids, or the first id that is in it already.
unfoldable pub collect_ids : List String → List String → Result GraphError (List String)
collect_ids [] seen = ok seen
collect_ids (id ∷ ids) seen =
    let rest = collect_ids ids (Ids.insert id seen) in
    if contains id seen then err (duplicate_node id) else rest

abbrev pub Adjacency : Type 0
Adjacency = List (String × List String)

abbrev or_nothing : Option (List String) → List String
or_nothing none = []
or_nothing (some l) = l

-- `adjacency.get(id)`, where an absent entry has no successors.
unfoldable pub successors : Adjacency → String → List String
successors adjacency id = or_nothing (lookup id adjacency)

-- `adjacency.entry(from).or_default().push(to)`
unfoldable pub push_edge : String → String → Adjacency → Adjacency
unfolding successors
push_edge from to adjacency = insert from (successors adjacency from ++ to ∷ []) adjacency

unfoldable pub collect_edges :
    List String → List WorkflowEdge → Adjacency → Result GraphError Adjacency
unfolding push_edge
collect_edges ids [] adjacency = ok adjacency
collect_edges ids (e ∷ es) adjacency =
    let rest = collect_edges ids es (push_edge e.from e.to adjacency) in
    if not (contains e.from ids) || not (contains e.to ids)
    then err (dangling_edge e.from e.to)
    else if e.from == e.to
    then err (self_loop e.from)
    else rest

unfoldable pub first_missing : List String → List String → Option String
first_missing [] reachable = none
first_missing (id ∷ ids) reachable =
    let rest = first_missing ids reachable in if contains id reachable then rest else some id

abbrev pub color_verdict : List String → Option Visit → Option (Result GraphError (Unit {0}))
color_verdict reachable none = none
color_verdict reachable (some cyclic) = some (err (cycle reachable))
color_verdict reachable (some fine) = some (ok tt)

abbrev pub missing_verdict :
    List String
    → Option String
    → Option (Result GraphError (Unit {0}))
    → Option (Result GraphError (Unit {0}))
missing_verdict reachable (some id) colors = some (err (unreachable_node id))
missing_verdict reachable none colors = colors

abbrev pub reach_verdict :
    List String
    → (String → List String)
    → ℕ
    → Option (List String)
    → Option (Result GraphError (Unit {0}))
reach_verdict ids next fuel none = none
reach_verdict ids next fuel (some reachable) =
    missing_verdict reachable (first_missing ids reachable)
      (color_verdict reachable (color_starts next fuel ids []))

abbrev pub search_verdict :
    WorkflowGraph → Result GraphError Adjacency → Option (Result GraphError (Unit {0}))
search_verdict g (err e) = some (err e)
search_verdict g (ok adjacency) =
    let next = successors adjacency in
    let fuel = fuel_for next (node_ids g) in
    reach_verdict (node_ids g) next fuel (reach_loop next fuel (g.entry_node ∷ []) [])

abbrev pub entry_verdict :
    WorkflowGraph → Result GraphError (List String) → Option (Result GraphError (Unit {0}))
entry_verdict g (err e) = some (err e)
entry_verdict g (ok ids) =
    if not (contains g.entry_node ids)
    then some (err (missing_entry_node g.entry_node))
    else search_verdict g (collect_edges ids g.edges [])

abbrev pub nodes_verdict : WorkflowGraph → List WorkflowNode → Option (Result GraphError (Unit {0}))
nodes_verdict g [] = some (err empty)
nodes_verdict g (n ∷ ns) = entry_verdict g (collect_ids (node_ids g) [])

-- `none` would say that a loop ran out of fuel, which does not happen (see `Valid`).
unfoldable pub validate : WorkflowGraph → Option (Result GraphError (Unit {0}))
unfolding collect_ids collect_edges successors first_missing reach_loop color_starts fuel_for
validate g = nodes_verdict g g.nodes
