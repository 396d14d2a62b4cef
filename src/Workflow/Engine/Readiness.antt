-- ===== src/Workflow/Engine/Readiness.antt =====
-- The ids that `ready_nodes` returns.
use aura_launcher.Common.{
  ◌≡◌, ◌↔◌, refl, String, Bool, true, false, not, ◌&&◌, ◌||◌, List, [], ◌∷◌, arith, string_eq, ◌==◌,
  eq→path, eq_self, map, any, all, filter, All, Bool-cases, ◌⊎◌, inl, inr,
}
use aura_launcher.Common.Ids.{contains}
use aura_launcher.Workflow.Graph.{WorkflowEdge, WorkflowGraph, WorkflowNode, node_ids}
use aura_launcher.Workflow.Engine.{
  insert_sorted, ready_among, ready_nodes, is_ready, is_over, is_empty, incoming,
}

contains-insert_sorted :
    (u id : String) (ids : List String)
    → contains u (insert_sorted id ids) ≡ ((id == u) || contains u ids)
unfolding contains insert_sorted
contains-insert_sorted u id [] = refl
contains-insert_sorted u id (x ∷ xs) = ground (arith, contains-insert_sorted u id xs)

contains-ready_among :
    (ready : String → Bool) (u : String) (nodes : List WorkflowNode)
    → contains u (ready_among ready nodes) ≡ (contains u (map (λ n. n.node_id) nodes) && ready u)
unfolding contains ready_among
contains-ready_among ready u [] = refl
contains-ready_among ready u (n ∷ nodes) = ground (
  arith,
  contains-ready_among ready u nodes,
  eq→path n.node_id u,
  contains-insert_sorted u n.node_id (ready_among ready nodes),
)

pub contains-ready_nodes :
    (graph : WorkflowGraph) (finished skipped : List String) (u : String)
    → contains u (ready_nodes graph finished skipped)
      ≡ (contains u (node_ids graph) && is_ready graph finished skipped u)
unfolding ready_nodes
contains-ready_nodes graph finished skipped u =
    contains-ready_among (is_ready graph finished skipped) u graph.nodes

-- Whether some edge leads to the node.
abbrev pub leads_to : WorkflowGraph → String → Bool
leads_to graph u = any (λ e. e.to == u) graph.edges

-- Each edge that leads to `u` comes from a node that is finished or skipped.
abbrev pub PredecessorsOver : List String → List String → String → List WorkflowEdge → Type 0
PredecessorsOver finished skipped u edges =
    All (λ e. e.to ≡ u → (contains e.from finished ≡ true) ⊎ (contains e.from skipped ≡ true)) edges

-- A node that is neither finished nor skipped, and that is the entry node without a predecessor,
-- or has predecessors, all of them over.
abbrev pub IsReady : WorkflowGraph → List String → List String → String → Type 0
IsReady graph finished skipped u =
    (contains u (node_ids graph) ≡ true)
    × (contains u finished ≡ false)
    × (contains u skipped ≡ false)
    × (((leads_to graph u ≡ false) × (graph.entry_node ≡ u))
        ⊎ ((leads_to graph u ≡ true) × PredecessorsOver finished skipped u graph.edges))

is_empty-incoming :
    (u : String) (edges : List WorkflowEdge)
    → is_empty (filter (λ e. e.to == u) edges) ≡ not (any (λ e. e.to == u) edges)
is_empty-incoming u [] = refl
is_empty-incoming u (e ∷ edges) = ground (arith, is_empty-incoming u edges)

module _ (finished skipped : List String) (u : String) where
  all_over :
      (edges : List WorkflowEdge)
      → all (λ e. is_over finished skipped e.from) (filter (λ e. e.to == u) edges) ≡ true
      → PredecessorsOver finished skipped u edges
  all_over [] h = tt
  all_over (e ∷ edges) h = elim (Bool-cases (e.to == u)) [
    | inl leads ↦ (
      λ same. elim (Bool-cases (contains e.from finished)) [
        | inl f ↦ inl f
        | inr g ↦ inr (ground arith)
      ],
      all_over edges (ground arith),
    )
    | inr other ↦ (λ same. absurd (ground (arith, eq_self u)), all_over edges (ground arith))
  ]

  over_all :
      (edges : List WorkflowEdge)
      → PredecessorsOver finished skipped u edges
      → all (λ e. is_over finished skipped e.from) (filter (λ e. e.to == u) edges) ≡ true
  over_all [] h = refl
  over_all (e ∷ edges) h = elim (Bool-cases (e.to == u)) [
    | inl leads ↦
        let rest = over_all edges h.1 in
        elim (h.0 (eq→path e.to u leads)) [ inl f ↦ ground arith | inr k ↦ ground arith ]
    | inr other ↦ let rest = over_all edges h.1 in ground arith
  ]

  returned-IsReady :
      (graph : WorkflowGraph)
      → contains u (ready_nodes graph finished skipped) ≡ true
      → IsReady graph finished skipped u
  returned-IsReady graph h =
      let is = rw (contains-ready_nodes graph finished skipped u) at h in
      unfold is_ready in
      unfold incoming in
      let empty = is_empty-incoming u graph.edges in
      (
        ground arith,
        ground arith,
        ground arith,
        elim (Bool-cases (any (λ e. e.to == u) graph.edges)) [
          | inl some_edge ↦ inr (some_edge, all_over graph.edges (ground arith))
          | inr no_edge ↦ inl (no_edge, eq→path graph.entry_node u (ground arith))
        ],
      )

  IsReady-returned :
      (graph : WorkflowGraph)
      → IsReady graph finished skipped u
      → contains u (ready_nodes graph finished skipped) ≡ true
  IsReady-returned graph h = rw (contains-ready_nodes graph finished skipped u) (
      unfold is_ready in
      unfold incoming in
      let empty = is_empty-incoming u graph.edges in
      elim h.3 [
        | inl first ↦ ground (arith, eq_self u)
        | inr over ↦ let done = over_all graph.edges over.1 in ground arith
      ])

-- `ready_nodes` returns exactly the nodes of the graph that are neither finished nor skipped, and
-- of which all predecessors are finished or skipped; a node without predecessors only if it is
-- the entry node.
pub ready_nodes_iff :
    (graph : WorkflowGraph) (finished skipped : List String) (u : String)
    → (contains u (ready_nodes graph finished skipped) ≡ true) ↔ IsReady graph finished skipped u
ready_nodes_iff graph finished skipped u =
    (returned-IsReady finished skipped u graph, IsReady-returned finished skipped u graph)
