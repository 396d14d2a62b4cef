-- ===== src/Workflow/Validation.antt =====
-- The check of a definition's control flow (`validate_graph` of crates/launcher-workflow/src/v2.rs).
-- `none` is a search that is out of rounds.
pub mod Fresh
pub mod Dfs
pub mod Marks
pub mod Total
use aura_launcher.Common.{
  ℕ, zero, suc, ◌+◌, ◌≡◌, String, Bool, true, false, ◌&&◌, not, Option, none, some, List, [], ◌∷◌,
  ◌++◌, length, nat_eqb, string_eq, ◌==◌, Result, ok, err, if◌then◌else◌, filter,
}
use aura_launcher.Common.Map as Map
use aura_launcher.Common.Map.{lookup}
use aura_launcher.Common.Ids as Ids
use aura_launcher.Common.Ids.{contains}
use aura_launcher.Domain.Expr.{Std, Expr, ExprError}
use aura_launcher.Domain.Definition.{Condition, WorkflowStep, WorkflowDefinition, expression}

pub data DefinitionError : Type 0 where
  duplicate_step_id unknown_step cycle_detected unreachable_step entry_not_found
        invalid_expression :
      String → DefinitionError

abbrev pub Adjacency : Type 0
Adjacency = List (String × List String)

-- The nodes that the search has met: `true` while it is at work on them.
abbrev pub Colors : Type 0
Colors = List (String × Bool)

abbrev pub targets_of : Option (List String) → List String
targets_of none = []
targets_of (some ts) = ts

abbrev pub bind {ℓ κ} : {A : Type ℓ} {B : Type κ} → Option A → (A → Option B) → Option B
bind none next = none
bind (some a) next = next a

unfoldable pub finished : String → Colors × Bool → Option (Colors × Bool)
unfolding Map.insert
finished node (colors, cycle) = some (Map.insert node false colors, cycle)

-- What a color decides: go on, with a cycle if the target is at work, or visit it.
abbrev pub met :
    Option Bool
    → (Bool → Option (Colors × Bool))
    → (Unit {0} → Option (Colors × Bool))
    → Bool
    → Option (Colors × Bool)
met (some true) later visit cycle = later true
met (some false) later visit cycle = later cycle
met none later visit cycle = visit tt

-- The loop of `dfs` over the targets of a node.
unfoldable pub dfs_all :
    (String → Colors → Bool → Option (Colors × Bool))
    → List String
    → Colors
    → Bool
    → Option (Colors × Bool)
unfolding lookup
dfs_all visit [] colors cycle = some (colors, cycle)
dfs_all visit (t ∷ ts) colors cycle =
    met (lookup t colors) (λ c. dfs_all visit ts colors c)
      (λ u. bind (visit t colors cycle) (λ r. dfs_all visit ts r.0 r.1)) cycle

unfoldable pub dfs : Adjacency → ℕ → String → Colors → Bool → Option (Colors × Bool)
unfolding lookup Map.insert finished dfs_all
dfs adj zero node colors cycle = none
dfs adj (suc fuel) node colors true = some (colors, true)
dfs adj (suc fuel) node colors false =
    bind
      (dfs_all (λ t c b. dfs adj fuel t c b) (targets_of (lookup node adj))
        (Map.insert node true colors) false)
      (λ r. finished node r)

-- The loop of `mark`, which passes over "end".
unfoldable pub mark_all :
    (String → List String → Option (List String)) → List String → List String → Option (List String)
mark_all visit [] seen = some seen
mark_all visit (t ∷ ts) seen =
    if t == "end"
    then mark_all visit ts seen
    else bind (visit t seen) (λ found. mark_all visit ts found)

unfoldable pub mark : Adjacency → ℕ → String → List String → Option (List String)
unfolding lookup contains mark_all
mark adj zero node seen = none
mark adj (suc fuel) node seen =
    if contains node seen
    then some seen
    else mark_all (λ t found. mark adj fuel t found) (targets_of (lookup node adj)) (node ∷ seen)

abbrev listed : Option String → List String
listed none = []
listed (some t) = t ∷ []

abbrev pub or_next : List String → List String → List String
or_next [] next = next
or_next (t ∷ ts) next = t ∷ ts

unfoldable pub target_error : List String → Option String → List DefinitionError
unfolding contains
target_error ids none = []
target_error ids (some t) =
    if not (t == "end") && not (contains t ids) then unknown_step t ∷ [] else []

abbrev entry_or : Option String → String → String
entry_or none d = d
entry_or (some e) d = e

module _ {N : Type 0} where
  abbrev pub first_id : List (WorkflowStep N) → String
  first_id [] = ""
  first_id (s ∷ steps) = s.step_id

  abbrev next_id : List (WorkflowStep N) → List String
  next_id [] = []
  next_id (s ∷ steps) = s.step_id ∷ []

  -- Where a step leads when nothing fails.
  abbrev pub step_targets : WorkflowStep N → List (WorkflowStep N) → List String
  step_targets s rest = or_next (listed s.on_success ++ listed s.on_condition_false) (next_id rest)

  unfoldable pub adjacency : List (WorkflowStep N) → Adjacency → Adjacency
  unfolding Map.insert
  adjacency [] adj = adj
  adjacency (s ∷ steps) adj = adjacency steps (Map.insert s.step_id (step_targets s steps) adj)

  unfoldable pub id_set : List (WorkflowStep N) → List String
  unfolding Ids.insert
  id_set [] = []
  id_set (s ∷ steps) = Ids.insert s.step_id (id_set steps)

  abbrev pub entry_id : WorkflowDefinition N → String
  entry_id def = entry_or def.entry_step (first_id def.steps)

  unfoldable pub unreached : List String → List (WorkflowStep N) → List DefinitionError
  unfolding contains
  unreached seen [] = []
  unreached seen (s ∷ steps) =
      let rest = unreached seen steps in
      if contains s.step_id seen then rest else unreachable_step s.step_id ∷ rest

abbrev pub all_targets : Adjacency → List String
all_targets [] = []
all_targets ((k, ts) ∷ adj) = ts ++ all_targets adj

-- A round for each name that the searches can meet, and one more.
abbrev pub rounds : String → Adjacency → ℕ
rounds entry adj = suc (suc (length (all_targets adj)))

abbrev pub verdict : List DefinitionError → Result {0, 0} (List DefinitionError) Unit
verdict [] = ok tt
verdict (e ∷ es) = err (e ∷ es)

abbrev pub when : Bool → DefinitionError → List DefinitionError
when true e = e ∷ []
when false e = []

module _ (S : Std) where
  abbrev pub expression_error :
      String → Option (Result ExprError (Expr S.Float)) → Option (List DefinitionError)
  expression_error id none = none
  expression_error id (some (ok e)) = some []
  expression_error id (some (err x)) = some (invalid_expression id ∷ [])

  unfoldable pub condition_error : String → Option Condition → Option (List DefinitionError)
  unfolding expression
  condition_error id none = some []
  condition_error id (some c) = expression_error id (expression S c)

module _ (S : Std) {N : Type 0} where
  unfoldable pub step_errors : List String → List (WorkflowStep N) → Option (List DefinitionError)
  unfolding condition_error target_error
  step_errors ids [] = some []
  step_errors ids (s ∷ steps) = bind (condition_error S s.step_id s.condition) (λ bad.
      bind (step_errors ids steps) (λ rest. some (
        (target_error ids s.on_success
          ++ target_error ids s.on_failure
          ++ target_error ids s.on_condition_false
          ++ bad)
        ++ rest)))

  unfoldable pub searched :
      WorkflowDefinition N
      → List DefinitionError
      → Adjacency
      → Option (Result {0, 0} (List DefinitionError) Unit)
  unfolding dfs mark unreached id_set contains
  searched def errors adj = bind (dfs adj (rounds (entry_id def) adj) (entry_id def) [] false) (λ d.
      bind (mark adj (rounds (entry_id def) adj) (entry_id def) []) (λ seen. some (
        verdict (
          (when (not (nat_eqb (length (id_set def.steps)) (length def.steps)))
              (duplicate_step_id "(see steps)")
            ++ when (not (contains (entry_id def) (id_set def.steps)))
                (entry_not_found (entry_id def)))
          ++ errors
          ++ when d.1 (cycle_detected (entry_id def))
          ++ unreached seen def.steps))))

  unfoldable pub validate_graph :
      WorkflowDefinition N → Option (Result {0, 0} (List DefinitionError) Unit)
  unfolding step_errors searched adjacency id_set
  validate_graph def =
      bind (step_errors (id_set def.steps) def.steps)
        (λ errors. searched def errors (adjacency def.steps []))
