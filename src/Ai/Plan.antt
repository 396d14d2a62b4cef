-- ===== src/Ai/Plan.antt =====
-- What an agent proposes to do (crates/launcher-ai/src/plan.rs; `PlanStep` of agent_contract.rs). `Value` is
-- `serde_json::Value`, which validation does not look at.
pub mod Validity
use Prim.Native.String.{len, ◌++◌ as ◌append◌}
use aura_launcher.Common.{
  ℕ, ◌≡◌, String, Bool, true, false, ◌||◌, not, Option, none, some, List, [], ◌∷◌, length,
  string_eq, ◌==◌, nat_eqb, ltb, Result, ok, err, if◌then◌else◌, is_blank,
}
use aura_launcher.Common.Ids
use aura_launcher.Common.Ids.{contains}

pub record PlanStep (Value : Type 0) : Type 0 where
  pub step_id : String
  pub action_ref : String
  pub input : Value
  pub rationale : Option String
  pub requires_approval : Bool

abbrev pub plan_schema_version : ℕ
plan_schema_version = 1

pub record PlanDocument (Value : Type 0) : Type 0 where
  pub schema_version : ℕ
  pub proposal_id : String
  pub session_id : String
  pub user_goal : String
  pub steps : List (PlanStep Value)

pub data PlanDocumentError : Type 0 where
  unknown_version : ℕ → ℕ → PlanDocumentError
  invalid : String → PlanDocumentError

-- The tests on one string: `is_empty() || len() > bound`, and its variant on a trimmed text.
abbrev pub bad_id : ℕ → String → Bool
bad_id bound s = nat_eqb (len s) 0 || ltb bound (len s)

abbrev pub bad_text : ℕ → String → Bool
bad_text bound s = is_blank s || ltb bound (len s)

module _ {Value : Type 0} where
  unfoldable pub validate_steps :
      List (PlanStep Value) → List String → Result PlanDocumentError (Unit {0})
  validate_steps [] seen = ok tt
  validate_steps (s ∷ steps) seen =
      let rest = validate_steps steps (Ids.insert s.step_id seen) in
      if bad_id 128 s.step_id
      then err (invalid ("invalid step_id: " append s.step_id))
      else if contains s.step_id seen
      then err (invalid ("duplicate step_id: " append s.step_id))
      else if bad_text 256 s.action_ref
      then err (invalid ("invalid action_ref: " append s.action_ref))
      else rest

  abbrev pub is_empty : List (PlanStep Value) → Bool
  is_empty [] = true
  is_empty (s ∷ steps) = false

  unfoldable pub validate : PlanDocument Value → Result PlanDocumentError (Unit {0})
  unfolding validate_steps
  validate doc =
      if not (nat_eqb doc.schema_version plan_schema_version)
      then err (unknown_version doc.schema_version plan_schema_version)
      else if bad_id 128 doc.proposal_id
      then err (invalid "invalid proposal_id")
      else if bad_id 128 doc.session_id
      then err (invalid "invalid session_id")
      else if bad_text 4096 doc.user_goal
      then err (invalid "invalid user_goal")
      else if is_empty doc.steps
      then err (invalid "plan must have at least one step")
      else if ltb 64 (length doc.steps)
      then err (invalid "plan exceeds 64 steps")
      else validate_steps doc.steps []
