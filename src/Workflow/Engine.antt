-- ===== src/Workflow/Engine.antt =====
-- Variables, conditions and readiness (crates/launcher-workflow/src/engine.rs). What the code
-- uses of serde_json is the record `Json`.
pub mod Readiness
use aura_launcher.Common.{
  ℕ, ◌≡◌, String, Bool, true, false, ◌&&◌, ◌||◌, not, Option, none, some, List, [], ◌∷◌, ◌++◌, any,
  all, filter, length, string_eq, ◌==◌, if◌then◌else◌, str_lt, strip_dollar,
}
use aura_launcher.Common.Map.{lookup, insert}
use aura_launcher.Common.Ids.{contains}
use aura_launcher.Workflow.Graph.{
  ConditionOp, eq, ne, gt, lt, ConditionExpr, WorkflowNode, WorkflowEdge, WorkflowGraph,
}

-- `serde_json::Value` and `f64`: `text` is a string's own text, and `to_string` of any other value.
pub record Json : Type 1 where
  pub Value : Type 0
  pub Float : Type 0
  pub null : Value
  pub string : String → Value
  pub is_null : Value → Bool
  pub as_f64 : Value → Option Float
  pub text : Value → String
  pub float_eq : Float → Float → Bool
  pub float_lt : Float → Float → Bool

-- The edges that lead to a node.
unfoldable pub incoming : WorkflowGraph → String → List WorkflowEdge
incoming graph id = filter (λ e. e.to == id) graph.edges

abbrev pub is_empty {ℓ} : {A : Type ℓ} → List A → Bool
is_empty [] = true
is_empty (x ∷ xs) = false

-- The test that the loop of `ready_nodes` makes on one node.
abbrev pub is_over : List String → List String → String → Bool
is_over finished skipped id = contains id finished || contains id skipped

unfoldable pub is_ready : WorkflowGraph → List String → List String → String → Bool
unfolding incoming
is_ready graph finished skipped id =
    if is_over finished skipped id
    then false
    else if is_empty (incoming graph id)
    then graph.entry_node == id
    else all (λ e. is_over finished skipped e.from) (incoming graph id)

-- Insertion into an ascending list: `sort` of the ids that are ready.
unfoldable pub insert_sorted : String → List String → List String
insert_sorted id [] = id ∷ []
insert_sorted id (x ∷ xs) =
    let rest = insert_sorted id xs in if str_lt x id then x ∷ rest else id ∷ x ∷ xs

unfoldable pub ready_among : (String → Bool) → List WorkflowNode → List String
unfolding insert_sorted
ready_among ready [] = []
ready_among ready (n ∷ nodes) =
    let rest = ready_among ready nodes in
    if ready n.node_id then insert_sorted n.node_id rest else rest

unfoldable pub ready_nodes : WorkflowGraph → List String → List String → List String
unfolding ready_among is_ready
ready_nodes graph finished skipped = ready_among (is_ready graph finished skipped) graph.nodes

module _ (J : Json) where
  abbrev pub VariableStore : Type 0
  VariableStore = List (String × J.Value)

  unfoldable pub set : String → J.Value → VariableStore → VariableStore
  set name value vars = insert name value vars

  unfoldable pub get : String → VariableStore → Option J.Value
  get name vars = lookup name vars

  -- Every entry of a snapshot, set in turn.
  unfoldable pub restore : VariableStore → VariableStore → VariableStore
  unfolding set
  restore [] vars = vars
  restore ((k, v) ∷ snapshot) vars = restore snapshot (set k v vars)

  abbrev or_null : Option J.Value → J.Value
  or_null none = J.null
  or_null (some v) = v

  abbrev resolve_from : String → VariableStore → Option String → J.Value
  resolve_from operand vars (some name) = or_null (lookup name vars)
  resolve_from operand vars none = J.string operand

  -- A reference `$name` or a literal.
  unfoldable pub resolve : String → VariableStore → J.Value
  resolve operand vars = resolve_from operand vars (strip_dollar operand)

  abbrev pub float_test : ConditionOp → J.Float → J.Float → Bool
  float_test eq l r = J.float_eq l r
  float_test ne l r = not (J.float_eq l r)
  float_test gt l r = J.float_lt r l
  float_test lt l r = J.float_lt l r

  abbrev pub text_test : ConditionOp → String → String → Bool
  text_test eq l r = l == r
  text_test ne l r = not (l == r)
  text_test gt l r = str_lt r l
  text_test lt l r = str_lt l r

  abbrev pub compare_values :
      ConditionOp → J.Value → J.Value → Option J.Float → Option J.Float → Bool
  compare_values op l r (some x) (some y) = float_test op x y
  compare_values op l r (some x) none = text_test op (J.text l) (J.text r)
  compare_values op l r none y = text_test op (J.text l) (J.text r)

  unfoldable pub evaluate : ConditionExpr → VariableStore → Bool
  unfolding resolve
  evaluate cond vars =
      let left = resolve cond.left vars in
      let right = resolve cond.right vars in
      if J.is_null left || J.is_null right
      then false
      else compare_values cond.op left right (J.as_f64 left) (J.as_f64 right)
