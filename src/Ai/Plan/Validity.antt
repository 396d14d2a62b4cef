-- ===== src/Ai/Plan/Validity.antt =====
-- What `PlanDocument::validate` accepts.
use Prim.Native.String.{len}
use aura_launcher.Common.{
  ℕ, ◌≤◌, ◌≡◌, refl, String, true, false, ◌&&◌, List, [], ◌∷◌, map, length, arith, string_eq,
  nat_eqb, nat_eqb_iff, ltb, ltb→le, ok, is_blank, All, ◌≢◌, eq_self, eq→path,
}
use aura_launcher.Common.Ids
use aura_launcher.Common.Ids.{contains, contains-insert, Distinct}
use aura_launcher.Ai.Plan.{
  PlanStep, PlanDocument, validate, validate_steps, bad_id, bad_text, is_empty, plan_schema_version,
}

abbrev pub IdOk : ℕ → String → Type 0
IdOk bound s = (len s ≢ 0) × (len s ≤ bound)

id_ok : (bound : ℕ) (s : String) → bad_id bound s ≡ false → IdOk bound s
id_ok bound s h = (ground (arith, nat_eqb_iff (len s) 0), ground (arith, ltb→le bound (len s)))

text_ok :
    (bound : ℕ) (s : String) → bad_text bound s ≡ false → (is_blank s ≡ false) × (len s ≤ bound)
text_ok bound s h = (ground arith, ground (arith, ltb→le bound (len s)))

module _ {Value : Type 0} where
  abbrev pub StepOk : PlanStep Value → Type 0
  StepOk s = IdOk 128 s.step_id × (is_blank s.action_ref ≡ false) × (len s.action_ref ≤ 256)

  abbrev pub step_ids : List (PlanStep Value) → List String
  step_ids steps = map (λ s. s.step_id) steps

  abbrev StepsOk : List String → List (PlanStep Value) → Type 0
  StepsOk seen steps =
      All (λ s. StepOk s) steps
      × Distinct (step_ids steps)
      × ((u : String) → (contains u (step_ids steps) && contains u seen) ≡ false)

  steps_cons :
      (s : PlanStep Value) (steps : List (PlanStep Value)) (seen : List String)
      → bad_id 128 s.step_id ≡ false
      → contains s.step_id seen ≡ false
      → bad_text 256 s.action_ref ≡ false
      → StepsOk (Ids.insert s.step_id seen) steps
      → StepsOk seen (s ∷ steps)
  unfolding contains
  steps_cons s steps seen i c t o =
      let text = text_ok 256 s.action_ref t in
      (
        ((id_ok 128 s.step_id i, text.0, text.1), o.0),
        (
          ground
              (arith, contains-insert s.step_id s.step_id seen, eq_self s.step_id, o.2 s.step_id),
          o.1,
        ),
        λ u. ground (arith, contains-insert s.step_id u seen, o.2 u, eq→path s.step_id u),
      )

  steps_ok :
      (steps : List (PlanStep Value)) (seen : List String)
      → validate_steps steps seen ≡ ok tt
      → StepsOk seen steps
  unfolding validate_steps
  steps_ok [] seen h = unfold contains in (tt, tt, λ u. refl)
  steps_ok (s ∷ steps) seen h =
      steps_cons s steps seen (ground arith) (ground arith) (ground arith)
        (steps_ok steps (Ids.insert s.step_id seen) (ground arith))

  pub record IsValid (doc : PlanDocument Value) : Type 0 where
    pub version : doc.schema_version ≡ plan_schema_version
    pub proposal : IdOk 128 doc.proposal_id
    pub session : IdOk 128 doc.session_id
    pub goal : (is_blank doc.user_goal ≡ false) × (len doc.user_goal ≤ 4096)
    pub some_step : doc.steps ≢ []
    pub few_steps : length doc.steps ≤ 64
    pub each_step : All (λ s. StepOk s) doc.steps
    pub distinct : Distinct (step_ids doc.steps)

  checks :
      (doc : PlanDocument Value)
      → validate doc ≡ ok tt
      → (nat_eqb doc.schema_version plan_schema_version ≡ true)
        × (bad_id 128 doc.proposal_id ≡ false)
        × (bad_id 128 doc.session_id ≡ false)
        × (bad_text 4096 doc.user_goal ≡ false)
        × (is_empty doc.steps ≡ false)
        × (ltb 64 (length doc.steps) ≡ false)
        × (validate_steps doc.steps [] ≡ ok tt)
  unfolding validate
  checks doc h = (
    ground arith,
    ground arith,
    ground arith,
    ground arith,
    ground arith,
    ground arith,
    ground arith,
  )

  not_empty : (steps : List (PlanStep Value)) → is_empty steps ≡ false → steps ≢ []
  not_empty [] h = λ e. cc
  not_empty (s ∷ steps) h = λ e. cc

  -- A plan document that `validate` accepts has the current schema version, bounded non-empty
  -- ids, a goal that is not blank, and one to 64 steps, each with a bounded id of its own and a
  -- bounded action reference that is not blank.
  pub validate-IsValid : (doc : PlanDocument Value) → validate doc ≡ ok tt → IsValid doc
  validate-IsValid doc h =
      let c = checks doc h in
      let s = steps_ok doc.steps [] c.6 in
      record {
        version = (nat_eqb_iff doc.schema_version plan_schema_version).0 c.0;
        proposal = id_ok 128 doc.proposal_id c.1;
        session = id_ok 128 doc.session_id c.2;
        goal = text_ok 4096 doc.user_goal c.3;
        some_step = not_empty doc.steps c.4;
        few_steps = ltb→le 64 (length doc.steps) c.5;
        each_step = s.0;
        distinct = s.1;
      }
