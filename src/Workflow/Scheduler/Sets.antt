-- ===== src/Workflow/Scheduler/Sets.antt =====
-- How the finished and skipped sets of a run grow, and the ids that are still outside of them.
use aura_launcher.Common.{
  ℕ, suc, ◌≤◌, ◌<◌, ◌≡◌, refl, String, Bool, true, false, ◌&&◌, ◌||◌, not, some, List, [], ◌∷◌, map,
  length, arith, string_eq, ◌==◌, eq_self, eq→path, if◌then◌else◌, Bool-cases, inl, inr, find?,
}
use aura_launcher.Common.Ids
use aura_launcher.Common.Ids.{contains, contains-insert}
use aura_launcher.Workflow.Graph.{WorkflowNode}
use aura_launcher.Workflow.Engine.{Json, VariableStore}
use aura_launcher.Workflow.Scheduler.{condition_holds, mark_condition_skips}

-- The ids of a list that a set lacks.
unfoldable pub lacking : List String → List WorkflowNode → ℕ
lacking set [] = 0
lacking set (n ∷ nodes) =
    let rest = lacking set nodes in if contains n.node_id set then rest else suc rest

abbrev pub Grows : List String → List String → Type 0
Grows set set' = (u : String) → contains u set ≡ true → contains u set' ≡ true

pub lacking_mono :
    (set set' : List String) (nodes : List WorkflowNode)
    → Grows set set'
    → lacking set' nodes ≤ lacking set nodes
unfolding lacking
lacking_mono set set' [] g = omega arith
lacking_mono set set' (n ∷ nodes) g = ground (arith, lacking_mono set set' nodes g, g n.node_id)

pub lacking_drop :
    (set set' : List String) (nodes : List WorkflowNode) (u : String)
    → Grows set set'
    → contains u (map (λ n. n.node_id) nodes) ≡ true
    → contains u set ≡ false
    → contains u set' ≡ true
    → lacking set' nodes < lacking set nodes
unfolding lacking contains
lacking_drop set set' [] u g inside before after = cc
lacking_drop set set' (n ∷ nodes) u g inside before after = ground (
  arith,
  lacking_drop set set' nodes u g,
  lacking_mono set set' nodes g,
  g n.node_id,
  eq→path n.node_id u,
)

pub lacking_le : (set : List String) (nodes : List WorkflowNode) → lacking set nodes ≤ length nodes
unfolding lacking
lacking_le set [] = omega arith
lacking_le set (n ∷ nodes) = ground (arith, lacking_le set nodes)

pub insert-Grows : (u : String) (set : List String) → Grows set (Ids.insert u set)
insert-Grows u set v h = ground (arith, contains-insert u v set)

-- A node's id is found among the nodes.
pub find-node :
    (u : String) (nodes : List WorkflowNode)
    → contains u (map (λ n. n.node_id) nodes) ≡ true
    → (n : WorkflowNode) × (find? (λ n. n.node_id == u) nodes ≡ some n)
unfolding contains
find-node u [] h = cc
find-node u (n ∷ nodes) h = elim (Bool-cases (n.node_id == u)) [
  | inl same ↦ rw same (n, refl)
  | inr other ↦ rw other (find-node u nodes (ground arith))
]

module _ (J : Json) where
  -- Marking skips only adds ids.
  pub mark-Grows :
      (nodes : List WorkflowNode) (vars : VariableStore J) (skipped : List String)
      → Grows skipped (mark_condition_skips J nodes vars skipped).0
  unfolding mark_condition_skips
  mark-Grows [] vars skipped = λ u h. h
  mark-Grows (n ∷ nodes) vars skipped = λ u h. ground (
    arith,
    mark-Grows nodes vars skipped u,
    mark-Grows nodes vars (Ids.insert n.node_id skipped) u,
    insert-Grows n.node_id skipped u,
  )

  -- Marking reports progress only with a node that it has added.
  pub mark_progress :
      (nodes : List WorkflowNode) (vars : VariableStore J) (skipped : List String)
      → (mark_condition_skips J nodes vars skipped).1 ≡ true
      → (u : String) × (contains u (map (λ n. n.node_id) nodes) ≡ true)
        × (contains u skipped ≡ false)
        × (contains u (mark_condition_skips J nodes vars skipped).0 ≡ true)
  unfolding mark_condition_skips contains
  mark_progress [] vars skipped h = cc
  mark_progress (n ∷ nodes) vars skipped h =
      elim (Bool-cases (contains n.node_id skipped || condition_holds J n.condition vars)) [
        | inl kept ↦
            let rest = mark_progress nodes vars skipped (rw kept at h) in
            rw kept (rest.0, ground (arith, rest.1), rest.2, rest.3)
        | inr marked ↦ rw marked (
          n.node_id,
          ground (arith, eq_self n.node_id),
          ground arith,
          mark-Grows nodes vars (Ids.insert n.node_id skipped) n.node_id
              (ground (arith, contains-insert n.node_id n.node_id skipped, eq_self n.node_id)),
        )
      ]

  -- A node of that id has a condition that is false.
  abbrev pub fails : List WorkflowNode → VariableStore J → String → Bool
  fails [] vars u = false
  fails (n ∷ nodes) vars u =
      (n.node_id == u) && not (condition_holds J n.condition vars) || fails nodes vars u

  -- `mark_condition_skips` adds exactly the ids of the nodes whose condition is false under the
  -- current variables, whether their predecessors have run or not.
  pub mark_condition_skips-all :
      (nodes : List WorkflowNode) (vars : VariableStore J) (skipped : List String) (u : String)
      → contains u (mark_condition_skips J nodes vars skipped).0
        ≡ (contains u skipped || fails nodes vars u)
  unfolding mark_condition_skips
  mark_condition_skips-all [] vars skipped u = ground arith
  mark_condition_skips-all (n ∷ nodes) vars skipped u = ground (
    arith,
    mark_condition_skips-all nodes vars skipped u,
    mark_condition_skips-all nodes vars (Ids.insert n.node_id skipped) u,
    contains-insert n.node_id u skipped,
    eq→path n.node_id u,
  )
