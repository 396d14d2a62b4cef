-- ===== src/Workflow/Scheduler/Gating.antt =====
-- The approval gate deals with every runnable node: it runs it, skips it or waits for it.
use aura_launcher.Common.{
  ℕ, ◌≡◌, refl, String, Bool, true, false, ◌||◌, Option, none, some, List, [], ◌∷◌, ◌++◌, map,
  arith, string_eq, ◌==◌, eq_self, eq→path, if◌then◌else◌,
}
use aura_launcher.Common.Ids.{contains, contains-insert}
use aura_launcher.Workflow.Graph.{WorkflowNode, WorkflowGraph}
use aura_launcher.Workflow.Engine.{Json}
use aura_launcher.Workflow.Scheduler.{
  Host, Gate, ApprovalStatus, pending, approved, rejected, gate_decision, gate_node, gate_all,
}
use aura_launcher.Workflow.Scheduler.Sets.{Grows, insert-Grows}

abbrev pub is_some {ℓ} : {A : Type ℓ} → Option A → Bool
is_some none = false
is_some (some x) = true

module _ (J : Json) (host : Host J) (graph : WorkflowGraph) where
  abbrev pub ids : List WorkflowNode → List String
  ids nodes = map (λ n. n.node_id) nodes

  -- The gate has dealt with an id.
  abbrev pub gated : Gate J → String → Bool
  gated g u = is_some g.gated_pending || contains u g.skipped_ids || contains u (ids g.to_execute)

  ids_snoc :
      (nodes : List WorkflowNode) (n : WorkflowNode) (u : String)
      → contains u (ids (nodes ++ n ∷ [])) ≡ (contains u (ids nodes) || (n.node_id == u))
  unfolding contains
  ids_snoc [] n u = ground arith
  ids_snoc (m ∷ nodes) n u = ground (arith, ids_snoc nodes n u)

  abbrev GateOk : WorkflowNode → Gate J → Gate J → Type 0
  GateOk n g g' =
      Grows g.skipped_ids g'.skipped_ids
      × ((u : String) → gated g u ≡ true → gated g' u ≡ true)
      × (gated g' n.node_id ≡ true)
      × ((u : String)
          → contains u (ids g'.to_execute) ≡ true
          → (contains u (ids g.to_execute) || (n.node_id == u)) ≡ true)

  gate_execute :
      (n : WorkflowNode) (g : Gate J)
      → GateOk n g (record g { to_execute = g.to_execute ++ n ∷ [] })
  gate_execute n g = (
    (λ u h. h),
    (λ u h. ground (arith, ids_snoc g.to_execute n u)),
    ground (arith, ids_snoc g.to_execute n n.node_id, eq_self n.node_id),
    λ u h. ground (arith, ids_snoc g.to_execute n u),
  )

  gate_decision_ok :
      (n : WorkflowNode) (d : Option ApprovalStatus) (g : Gate J)
      → GateOk n g (gate_decision J host graph n d g)
  unfolding gate_decision
  gate_decision_ok n (some approved) g = gate_execute n g
  gate_decision_ok n (some rejected) g = (
    insert-Grows n.node_id g.skipped_ids,
    (λ u h. ground (arith, insert-Grows n.node_id g.skipped_ids u)),
    ground (arith, contains-insert n.node_id n.node_id g.skipped_ids, eq_self n.node_id),
    λ u h. ground arith,
  )
  gate_decision_ok n (some pending) g = ((λ u h. h), (λ u h. refl), refl, λ u h. ground arith)
  gate_decision_ok n none g = ((λ u h. h), (λ u h. refl), refl, λ u h. ground arith)

  gate_either :
      (n : WorkflowNode) (g : Gate J) (b : Bool) (decided : Gate J)
      → GateOk n g decided
      → GateOk n g (if b then decided else record g { to_execute = g.to_execute ++ n ∷ [] })
  gate_either n g true decided good = good
  gate_either n g false decided good = gate_execute n g

  gate_node_ok :
      (round : ℕ) (n : WorkflowNode) (g : Gate J) → GateOk n g (gate_node J host graph round n g)
  unfolding gate_node
  gate_node_ok round n g =
      gate_either n g n.approval
        (gate_decision J host graph n
          (if host.has_approvals then host.decision_for round n.node_id else none) g)
        (gate_decision_ok n (if host.has_approvals then host.decision_for round n.node_id else none)
          g)

  abbrev pub GatesOk : List WorkflowNode → Gate J → Gate J → Type 0
  GatesOk nodes g g' =
      Grows g.skipped_ids g'.skipped_ids
      × ((u : String) → (gated g u || contains u (ids nodes)) ≡ true → gated g' u ≡ true)
      × ((u : String)
          → contains u (ids g'.to_execute) ≡ true
          → (contains u (ids g.to_execute) || contains u (ids nodes)) ≡ true)

  gates_cons :
      (n : WorkflowNode) (nodes : List WorkflowNode) (g g' g'' : Gate J)
      → GateOk n g g'
      → GatesOk nodes g' g''
      → GatesOk (n ∷ nodes) g g''
  unfolding contains
  gates_cons n nodes g g' g'' a b = (
    (λ u h. b.0 u (a.0 u h)),
    (λ u h. b.1 u (ground (arith, a.1 u, a.2, eq→path n.node_id u))),
    λ u h. ground (arith, b.2 u h, a.3 u),
  )

  pub gate_all_ok :
      (round : ℕ) (nodes : List WorkflowNode) (g : Gate J)
      → GatesOk nodes g (gate_all J host graph round nodes g)
  unfolding gate_all
  gate_all_ok round [] g =
      unfold contains in ((λ u h. h), (λ u h. ground arith), λ u h. ground arith)
  gate_all_ok round (n ∷ nodes) g =
      gates_cons n nodes g (gate_node J host graph round n g)
        (gate_all J host graph round nodes (gate_node J host graph round n g))
        (gate_node_ok round n g) (gate_all_ok round nodes (gate_node J host graph round n g))
