-- ===== src/Workflow/Validation/Total.antt =====
-- The check of a definition comes to an end.
use aura_launcher.Common.{
  ◌≡◌, refl, String, Bool, true, false, not, Option, none, some, List, [], ◌∷◌, ◌++◌, string_eq,
  ◌==◌, Result, ok, err, All, All-map, arith, Bool-cases, inl, inr, eq_self, length-filter-le,
}
use aura_launcher.Common.Map.{lookup}
use aura_launcher.Common.Ids.{contains, contains-append}
use aura_launcher.Domain.Expr.{Std, Expr, ExprError}
use aura_launcher.Domain.Expr.Total.{parse_expr_total}
use aura_launcher.Domain.Definition.{Condition, WorkflowStep, WorkflowDefinition, expression}
use aura_launcher.Workflow.Validation.{
  Adjacency, Colors, DefinitionError, targets_of, bind, dfs, mark, all_targets, rounds, entry_id,
  adjacency, step_errors, condition_error, expression_error, searched, validate_graph, id_set,
}
use aura_launcher.Workflow.Validation.Dfs.{Closed, seen_in, Done-some, dfs_done}
use aura_launcher.Workflow.Validation.Marks.{found_in, Reached-some, mark_reached}

-- The names that the searches can meet.
abbrev names_of : String → Adjacency → List String
names_of entry adj = entry ∷ all_targets adj

behind : (t : String) (xs ys : List String) → contains t ys ≡ true → contains t (xs ++ ys) ≡ true
behind t xs ys h = ground (arith, contains-append t xs ys, h)

behind_one : (t x : String) (ys : List String) → contains t ys ≡ true → contains t (x ∷ ys) ≡ true
unfolding contains
behind_one t x ys h = ground (arith, h)

entry_in : (entry : String) (adj : Adjacency) → contains entry (names_of entry adj) ≡ true
unfolding contains
entry_in entry adj = ground (arith, eq_self entry)

in_front :
    (ts xs ys : List String)
    → ((t : String) → contains t ts ≡ true → contains t xs ≡ true)
    → All (λ t. contains t (xs ++ ys) ≡ true) ts
unfolding contains
in_front [] xs ys g = tt
in_front (t ∷ ts) xs ys g = (
  ground (arith, contains-append t xs ys, g t (ground (arith, eq_self t))),
  in_front ts xs ys (λ u h. g u (behind_one u t ts h)),
)

targets_listed :
    (node : String) (adj : Adjacency)
    → All (λ t. contains t (all_targets adj) ≡ true) (targets_of (lookup node adj))
unfolding lookup
targets_listed node [] = tt
targets_listed node ((k, ts) ∷ adj) = elim (Bool-cases (k == node)) [
  | inl here ↦ rw here (in_front ts ts (all_targets adj) (λ t h. h))
  | inr there ↦ rw there (
      All-map (λ t. contains t (all_targets adj) ≡ true)
        (λ t. contains t (ts ++ all_targets adj) ≡ true) (targets_of (lookup node adj))
        (λ t h. behind t ts (all_targets adj) h) (targets_listed node adj))
]

closed_names : (entry : String) (adj : Adjacency) → Closed adj (names_of entry adj)
closed_names entry adj node =
    All-map (λ t. contains t (all_targets adj) ≡ true) (λ t. contains t (names_of entry adj) ≡ true)
      (targets_of (lookup node adj)) (λ t h. behind_one t entry (all_targets adj) h)
      (targets_listed node adj)

-- A search of a definition ends.
dfs_ends :
    (entry : String) (adj : Adjacency)
    → (r : Colors × Bool) × (dfs adj (rounds entry adj) entry [] false ≡ some r)
unfolding lookup
dfs_ends entry adj =
    Done-some adj (names_of entry adj) (dfs adj (rounds entry adj) entry [] false) (
      dfs_done adj (names_of entry adj) (rounds entry adj) (closed_names entry adj) entry [] false
        (entry_in entry adj) refl
        (omega (
          arith,
          length-filter-le (λ u. not (seen_in adj (names_of entry adj) [] u)) (names_of entry adj),
        )))

mark_ends :
    (entry : String) (adj : Adjacency)
    → (r : List String) × (mark adj (rounds entry adj) entry [] ≡ some r)
mark_ends entry adj = Reached-some adj (names_of entry adj) (mark adj (rounds entry adj) entry []) (
    mark_reached adj (names_of entry adj) (rounds entry adj) (closed_names entry adj) entry []
      (entry_in entry adj)
      (omega (
        arith,
        length-filter-le (λ u. not (found_in adj (names_of entry adj) [] u)) (names_of entry adj),
      )))

bind-some {ℓ κ} :
    {A : Type ℓ} {B : Type κ} (o : Option A) (next : A → Option B) (a : A)
    → o ≡ some a
    → (b : B) × (next a ≡ some b)
    → (b : B) × (bind o next ≡ some b)
bind-some o next a h found = (found.0, rw h found.1)

module _ (S : Std) where
  expression_error_ends :
      (id : String) (o : Option (Result ExprError (Expr S.Float)))
      (r : Result ExprError (Expr S.Float))
      → o ≡ some r
      → (es : List DefinitionError) × (expression_error S id o ≡ some es)
  expression_error_ends id none r h = cc
  expression_error_ends id (some (ok e)) r h = (_, refl)
  expression_error_ends id (some (err x)) r h = (_, refl)

  condition_error_ends :
      (id : String) (c : Option Condition)
      → (es : List DefinitionError) × (condition_error S id c ≡ some es)
  unfolding condition_error expression
  condition_error_ends id none = (_, refl)
  condition_error_ends id (some c) =
      let (r, total) = parse_expr_total S c.expression in
      expression_error_ends id (expression S c) r total

  module _ {N : Type 0} where
    step_errors_end :
        (ids : List String) (steps : List (WorkflowStep N))
        → (es : List DefinitionError) × (step_errors S ids steps ≡ some es)
    unfolding step_errors
    step_errors_end ids [] = (_, refl)
    step_errors_end ids (s ∷ steps) =
        let (bad, at_bad) = condition_error_ends s.step_id s.condition in
        let (rest, at_rest) = step_errors_end ids steps in
        bind-some (condition_error S s.step_id s.condition) _ bad at_bad
          (bind-some (step_errors S ids steps) _ rest at_rest (_, refl))

    searched_ends :
        (def : WorkflowDefinition N) (errors : List DefinitionError) (adj : Adjacency)
        → (r : Result {0, 0} (List DefinitionError) Unit) × (searched S def errors adj ≡ some r)
    unfolding searched
    searched_ends def errors adj =
        let (d, at_d) = dfs_ends (entry_id def) adj in
        let (seen, at_seen) = mark_ends (entry_id def) adj in
        bind-some (dfs adj (rounds (entry_id def) adj) (entry_id def) [] false) _ d at_d (
          bind-some (mark adj (rounds (entry_id def) adj) (entry_id def) []) _ seen at_seen
            (_, refl))

    -- The check of a definition comes to an end.
    pub validate_graph_total :
        (def : WorkflowDefinition N)
        → (r : Result {0, 0} (List DefinitionError) Unit) × (validate_graph S def ≡ some r)
    unfolding validate_graph
    validate_graph_total def =
        let (errors, at_errors) = step_errors_end (id_set def.steps) def.steps in
        let (r, at_r) = searched_ends def errors (adjacency def.steps []) in (r, rw at_errors at_r)
