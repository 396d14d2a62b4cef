-- ===== src/Workflow/Graph/Valid.antt =====
-- What `validate` (graph.rs) accepts, and what each of its errors says of the graph.
use aura_launcher.Common.{
  ℕ, zero, suc, ◌+◌, ◌≤◌, ◌≡◌, refl, String, true, false, ◌&&◌, ◌||◌, Option, none, some, List, [],
  ◌∷◌, ◌++◌, arith, string_eq, eq_self, eq→path, Result, ok, err, Bool-cases, All, inl, inr, ◌⊎◌,
  sym, subst, ◌∙◌, some-inj, ◌↔◌, ap, map, ◌<◌,
}
use aura_launcher.Common.Map.{lookup}
use aura_launcher.Common.Ids.{contains, Distinct}
use aura_launcher.Workflow.Graph.{
  WorkflowGraph, WorkflowNode, WorkflowEdge, node_ids, GraphError, duplicate_node,
  missing_entry_node, multiple_entry, dangling_edge, self_loop, cycle, unreachable_node, empty,
  Adjacency, push_edge, collect_ids, successors, collect_edges, first_missing, validate,
  nodes_verdict, entry_verdict, search_verdict, reach_verdict, missing_verdict, color_verdict,
}
use aura_launcher.Workflow.Graph.Search.{
  Reachable, here, Within, Explored, reach_loop, reach_loop_total, reach_loop-Explored,
  Covered-Reachable, fuel_for, budget,
}
use aura_launcher.Workflow.Graph.Colors.{Visit, fine, cyclic, color_starts}
use aura_launcher.Workflow.Graph.Acyclic.{Walk, edge, onward, nothing_inside, Ordered-acyclic, Good}
use aura_launcher.Workflow.Graph.Visits.{color_starts-fine, color_starts-cyclic, color_starts_total}
use aura_launcher.Workflow.Graph.Edges.{
  targets, EdgeOk, EdgesOutcome, collect_edges_outcome, IdsOutcome, collect_ids_outcome,
  MissingOutcome, first_missing_outcome,
}

pub record IsValid (g : WorkflowGraph) : Type 0 where
  pub distinct : Distinct (node_ids g)
  pub entry : contains g.entry_node (node_ids g) ≡ true
  pub edges : All (EdgeOk (node_ids g)) g.edges
  pub reached :
      (u : String) → contains u (node_ids g) ≡ true → Reachable (targets g.edges) g.entry_node u
  pub acyclic : (u : String) → contains u (node_ids g) ≡ true → ¬ Walk (targets g.edges) u u

-- What each error says of the graph.
abbrev pub Defect : WorkflowGraph → GraphError → Type 0
Defect g empty = g.nodes ≡ []
Defect g (duplicate_node u) = (contains u (node_ids g) ≡ true) × ¬ Distinct (node_ids g)
Defect g (missing_entry_node u) = (u ≡ g.entry_node) × (contains u (node_ids g) ≡ false)
Defect g (multiple_entry us) = ⊥
Defect g (dangling_edge f t) =
    (contains t (targets g.edges f) ≡ true)
    × ((contains f (node_ids g) && contains t (node_ids g)) ≡ false)
Defect g (self_loop u) = contains u (targets g.edges u) ≡ true
Defect g (cycle us) = (u : String) × Walk (targets g.edges) u u
Defect g (unreachable_node u) =
    (contains u (node_ids g) ≡ true) × ¬ Reachable (targets g.edges) g.entry_node u

abbrev pub Outcome : WorkflowGraph → Result GraphError (Unit {0}) → Type 0
Outcome g (ok _) = IsValid g
Outcome g (err e) = Defect g e

-- A verdict that is reached and right.
abbrev Settled : WorkflowGraph → Option (Result GraphError (Unit {0})) → Type 0
Settled g v = (r : Result GraphError (Unit {0})) × (v ≡ some r) × Outcome g r

-- What the structural checks have shown when the searches start.
record Structured (g : WorkflowGraph) : Type 0 where
  distinct : Distinct (node_ids g)
  entry : contains g.entry_node (node_ids g) ≡ true
  edges : All (EdgeOk (node_ids g)) g.edges

edges_within :
    (ids : List String) (es : List WorkflowEdge)
    → All (EdgeOk ids) es
    → (u v : String) → contains v (targets es u) ≡ true
    → contains v ids ≡ true
unfolding targets contains
edges_within ids [] good u v h = cc
edges_within ids (e ∷ es) good u v h =
    ground (arith, edges_within ids es good.1 u v, good.0.1, eq→path e.to v)

Structured-Within : (g : WorkflowGraph) → Structured g → Within (targets g.edges) (node_ids g)
Structured-Within g s u v hu hv = edges_within (node_ids g) g.edges s.edges u v hv

Good-start : (g : WorkflowGraph) → Good (targets g.edges) [] [] []
unfolding lookup contains
Good-start g = record {
  matches = λ u. refl;
  ordered = tt;
  pending = tt;
  gray = λ u h. cc;
  chained = tt;
}

visit-cases : (v : Visit) → (v ≡ fine) ⊎ (v ≡ cyclic)
visit-cases fine = inl refl
visit-cases cyclic = inr refl

settle_colors :
    (g : WorkflowGraph) (reachable : List String) (fuel : ℕ)
    → Structured g
    → fuel_for (targets g.edges) (node_ids g) ≤ fuel
    → ((u : String) → contains u (node_ids g) ≡ true → Reachable (targets g.edges) g.entry_node u)
    → Settled g (color_verdict reachable (color_starts (targets g.edges) fuel (node_ids g) []))
settle_colors g reachable fuel s enough reached =
    let next = targets g.edges in
    let run =
      color_starts_total next (node_ids g) fuel (node_ids g) [] (Structured-Within g s) (λ u hu. hu)
        enough in
    elim (visit-cases run.0) [
      | inl good ↦
          let stop : color_starts next fuel (node_ids g) [] ≡ some fine = run.1 ∙ ap some good in
          let swept = color_starts-fine next fuel (node_ids g) [] [] stop (Good-start g) in
          rw stop (
            ok tt,
            refl,
            record {
              distinct = s.distinct;
              entry = s.entry;
              edges = s.edges;
              reached = reached;
              acyclic = λ u hu.
                  Ordered-acyclic next swept.result u swept.ordered
                    (swept.kept u (unfold contains in hu));
            },
          )
      | inr bad ↦
          let stop : color_starts next fuel (node_ids g) [] ≡ some cyclic = run.1 ∙ ap some bad in
          rw stop (
            err (cycle reachable),
            refl,
            color_starts-cyclic next fuel (node_ids g) [] [] stop (Good-start g),
          )
    ]

contradict : (u : String) (ids : List String) → contains u ids ≡ true → contains u ids ≡ false → ⊥
contradict u ids h h' = cc

settle_missing :
    (g : WorkflowGraph) (reachable : List String) (missing : Option String)
    (colors : Option (Result GraphError (Unit {0})))
    → MissingOutcome (node_ids g) reachable missing
    → ((u : String) → Reachable (targets g.edges) g.entry_node u → contains u reachable ≡ true)
    → (((u : String) → contains u (node_ids g) ≡ true → contains u reachable ≡ true)
        → Settled g colors)
    → Settled g (missing_verdict reachable missing colors)
settle_missing g reachable none colors m all_in go_on = go_on m
settle_missing g reachable (some u) colors m all_in go_on =
    (err (unreachable_node u), refl, (m.0, λ r. contradict u reachable (all_in u r) m.1))

settle_reach :
    (g : WorkflowGraph) (fuel : ℕ) (reachable : List String)
    → Structured g
    → fuel_for (targets g.edges) (node_ids g) ≤ fuel
    → Explored (targets g.edges) g.entry_node (g.entry_node ∷ []) [] reachable
    → Settled g (reach_verdict (node_ids g) (targets g.edges) fuel (some reachable))
settle_reach g fuel reachable s enough x =
    let next = targets g.edges in
    settle_missing g reachable (first_missing (node_ids g) reachable)
      (color_verdict reachable (color_starts next fuel (node_ids g) []))
      (first_missing_outcome (node_ids g) reachable)
      (Covered-Reachable next g.entry_node reachable x.covered
        (x.kept g.entry_node (unfold contains in ground (arith, eq_self g.entry_node))))
      (λ inside. settle_colors g reachable fuel s enough (λ u hu. x.sound u (inside u hu)))

only_entry :
    (g : WorkflowGraph) (P : String → Type 0)
    → P g.entry_node
    → (u : String) → contains u (g.entry_node ∷ []) ≡ true
    → P u
unfolding contains
only_entry g P p u h = subst P (eq→path g.entry_node u (ground arith)) p

start_enough :
    (next : String → List String) (ids : List String)
    → suc zero + budget next (λ u. contains u []) ids < fuel_for next ids
unfolding fuel_for contains
start_enough next ids = omega arith

settle_search :
    (g : WorkflowGraph)
    → Structured g
    → Settled g (
        reach_verdict (node_ids g) (targets g.edges) (fuel_for (targets g.edges) (node_ids g)) (
          reach_loop
            (targets g.edges)
            (fuel_for (targets g.edges) (node_ids g))
            (g.entry_node ∷ [])
            []))
settle_search g s =
    let next = targets g.edges in
    let fuel = fuel_for next (node_ids g) in
    let run =
      reach_loop_total next (node_ids g) fuel (g.entry_node ∷ []) [] (Structured-Within g s)
        (only_entry g (λ u. contains u (node_ids g) ≡ true) s.entry)
        (start_enough next (node_ids g)) in
    rw (run.1) (
      settle_reach g fuel run.0 s (omega arith) (
        reach_loop-Explored next g.entry_node fuel (g.entry_node ∷ []) [] run.0 run.1
          (λ u v hu. unfold contains in cc) (only_entry g (λ u. Reachable next g.entry_node u) here)
          (λ u hu. unfold contains in cc)))

successors-targets :
    (es : List WorkflowEdge) (adjacency : Adjacency)
    → ((u : String) → successors adjacency u ≡ successors [] u ++ targets es u)
    → successors adjacency ≡ targets es
unfolding successors lookup
successors-targets es adjacency h = λ i u. h u i

settle_edges :
    (g : WorkflowGraph) (r : Result GraphError Adjacency)
    → Distinct (node_ids g)
    → contains g.entry_node (node_ids g) ≡ true
    → EdgesOutcome (node_ids g) g.edges [] r
    → Settled g (search_verdict g r)
settle_edges g (ok adjacency) d n o =
    rw (successors-targets g.edges adjacency o.1)
      (settle_search g (record { distinct = d; entry = n; edges = o.0 }))
settle_edges g (err (dangling_edge f t)) d n o = (err (dangling_edge f t), refl, o)
settle_edges g (err (self_loop u)) d n o = (err (self_loop u), refl, o)
settle_edges g (err (duplicate_node _)) d n o = absurd o
settle_edges g (err (missing_entry_node _)) d n o = absurd o
settle_edges g (err (multiple_entry _)) d n o = absurd o
settle_edges g (err (cycle _)) d n o = absurd o
settle_edges g (err (unreachable_node _)) d n o = absurd o
settle_edges g (err empty) d n o = absurd o

-- Only which ids a set contains matters for the edges.
same_ids :
    (ids ids' : List String) (es : List WorkflowEdge) (adjacency : Adjacency)
    → ((u : String) → contains u ids ≡ contains u ids')
    → collect_edges ids es adjacency ≡ collect_edges ids' es adjacency
unfolding collect_edges
same_ids ids ids' [] adjacency same = refl
same_ids ids ids' (e ∷ es) adjacency same =
    ground
      (arith, same e.from, same e.to, same_ids ids ids' es (push_edge e.from e.to adjacency) same)

settle_entry :
    (g : WorkflowGraph) (ids : List String)
    → Distinct (node_ids g)
    → ((u : String) → contains u ids ≡ contains u (node_ids g))
    → Settled g (entry_verdict g (ok ids))
settle_entry g ids d same = elim (Bool-cases (contains g.entry_node ids)) [
  | inl inside ↦
      rw (inside, same_ids ids (node_ids g) g.edges [] same)
        (settle_edges g (collect_edges (node_ids g) g.edges []) d (sym (same g.entry_node) ∙ inside)
          (collect_edges_outcome (node_ids g) g.edges []))
  | inr outside ↦
      rw outside
        (err (missing_entry_node g.entry_node), refl, (refl, sym (same g.entry_node) ∙ outside))
]

nothing_twice : (u : String) (ids : List String) → (contains u ids && contains u []) ≡ true → ⊥
unfolding contains
nothing_twice u ids h = ground arith

only_listed : (u : String) (ids : List String) → (contains u ids || contains u []) ≡ contains u ids
unfolding contains
only_listed u ids = ground arith

settle_ids :
    (g : WorkflowGraph) (r : Result GraphError (List String))
    → IdsOutcome (node_ids g) [] r
    → Settled g (entry_verdict g r)
settle_ids g (ok ids) o = settle_entry g ids o.0 (λ u. o.1 u ∙ only_listed u (node_ids g))
settle_ids g (err (duplicate_node u)) o =
    (err (duplicate_node u), refl, (o.0, λ d. let v = o.1 d in nothing_twice v.0 (node_ids g) v.1))
settle_ids g (err (missing_entry_node _)) o = absurd o
settle_ids g (err (multiple_entry _)) o = absurd o
settle_ids g (err (cycle _)) o = absurd o
settle_ids g (err (unreachable_node _)) o = absurd o
settle_ids g (err (dangling_edge _ _)) o = absurd o
settle_ids g (err (self_loop _)) o = absurd o
settle_ids g (err empty) o = absurd o

settle_nodes :
    (g : WorkflowGraph) (nodes : List WorkflowNode)
    → g.nodes ≡ nodes
    → Settled g (nodes_verdict g nodes)
settle_nodes g [] h = (err empty, refl, h)
settle_nodes g (n ∷ ns) h =
    settle_ids g (collect_ids (node_ids g) []) (collect_ids_outcome (node_ids g) [])

-- `validate` comes to an end on every graph. It accepts only a graph whose ids are distinct,
-- whose entry is a node, whose edges join different nodes, whose nodes are all reached from the
-- entry and lie on no cycle; and each error it returns names a defect that the graph has.
pub validate_lem :
    (g : WorkflowGraph) → (r : Result GraphError (Unit {0})) × (validate g ≡ some r) × Outcome g r
unfolding validate
validate_lem g = settle_nodes g g.nodes refl

edges_from :
    (ids : List String) (es : List WorkflowEdge)
    → All (EdgeOk ids) es
    → (u v : String) → contains v (targets es u) ≡ true
    → contains u ids ≡ true
unfolding targets contains
edges_from ids [] good u v h = cc
edges_from ids (e ∷ es) good u v h =
    ground (arith, edges_from ids es good.1 u v, good.0.0, eq→path e.from u)

walk_within :
    (ids : List String) (es : List WorkflowEdge) (u v : String)
    → All (EdgeOk ids) es
    → Walk (targets es) u v
    → contains v ids ≡ true
walk_within ids es u v good (edge h) = edges_within ids es good u v h
walk_within ids es u v good (onward {v = w} path h) = edges_within ids es good w v h

IsValid-no_Defect : (g : WorkflowGraph) (e : GraphError) → IsValid g → Defect g e → ⊥
IsValid-no_Defect g empty v d =
    nothing_inside g.entry_node
      (subst (λ ns. contains g.entry_node (map (λ n. n.node_id) ns) ≡ true) d v.entry)
IsValid-no_Defect g (duplicate_node u) v d = d.1 v.distinct
IsValid-no_Defect g (missing_entry_node u) v d =
    contradict u (node_ids g) (subst (λ x. contains x (node_ids g) ≡ true) (sym d.0) v.entry) d.1
IsValid-no_Defect g (multiple_entry us) v d = d
IsValid-no_Defect g (dangling_edge f t) v d = ground (
  arith,
  edges_from (node_ids g) g.edges v.edges f t d.0,
  edges_within (node_ids g) g.edges v.edges f t d.0,
)
IsValid-no_Defect g (self_loop u) v d =
    v.acyclic u (edges_within (node_ids g) g.edges v.edges u u d) (edge d)
IsValid-no_Defect g (cycle us) v d =
    v.acyclic d.0 (walk_within (node_ids g) g.edges d.0 d.0 v.edges d.1) d.1
IsValid-no_Defect g (unreachable_node u) v d = d.1 (v.reached u d.0)

settled_ok :
    (g : WorkflowGraph) (r : Result GraphError (Unit {0}))
    → validate g ≡ some r
    → Outcome g r
    → IsValid g
    → validate g ≡ some (ok tt)
settled_ok g (ok tt) run o v = run
settled_ok g (err e) run o v = absurd (IsValid-no_Defect g e v o)

-- A graph is accepted exactly when it is valid.
pub validate-ok_iff : (g : WorkflowGraph) → (validate g ≡ some (ok tt)) ↔ IsValid g
validate-ok_iff g = (
  (λ h. let r = validate_lem g in subst (λ x. Outcome g x) (some-inj (sym r.1 ∙ h)) r.2),
  λ v. let r = validate_lem g in settled_ok g r.0 r.1 r.2 v,
)
