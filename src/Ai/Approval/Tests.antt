-- ===== src/Ai/Approval/Tests.antt =====
-- Runs of the approval gate.
use aura_launcher.Common.{
  ℕ, ◌≡◌, ◌≢◌, refl, String, true, false, none, some, [], ◌∷◌, ok, err, ◌≤◌, ◌+◌, arith,
}
use aura_launcher.Common.{decimal}
use aura_launcher.Common.Ids
use aura_launcher.Common.Text.{decimal_go, digit, is_blank, is_whitespace}
use aura_launcher.Ai.Plan.{PlanStep, PlanDocument, validate, validate_steps}
use aura_launcher.Ai.Approval.{
  ApprovalRequest, ApprovalGate, unknown, default_ttl_ms, new, mint, request, decide, cancel,
  approve, approve_edited, reject, pending_request, Decision,
}
use aura_launcher.Ai.Approval.SingleUse.{
  IsRefused, Runs, decide-decide, decide-ok, decide-request, decide-cancel,
}

abbrev copy_step : PlanStep ℕ
copy_step = record {
  step_id = "a";
  action_ref = "p|c|a";
  input = 0;
  rationale = none;
  requires_approval = true;
}

-- An edited plan, without its only step's need for an approval.
abbrev edited : PlanDocument ℕ
edited = record {
  schema_version = 1;
  proposal_id = "p1";
  session_id = "s1";
  user_goal = "g";
  steps = (record copy_step { step_id = "b"; requires_approval = false }) ∷ [];
}

abbrev gate : ApprovalGate ℕ
unfolding new
gate = new default_ttl_ms

abbrev asked : ApprovalGate ℕ
unfolding request gate
asked = (request "s1" "g" (copy_step ∷ []) 0 gate).1

first_id : (mint "s1" "g" (copy_step ∷ []) 0 gate).request_id ≡ "apr-s1-1"
unfolding mint gate new decimal decimal_go digit
first_id = refl

decide-decide_example :
    IsRefused (decide "apr-s1-1" approve 2 (decide "apr-s1-1" reject 1 asked).1).0
decide-decide_example = decide-decide "apr-s1-1" reject approve 1 2 asked

edited_run : (decide "apr-s1-1" (approve_edited edited) 5 asked).0 ≡ ok edited.steps
unfolding decide asked request gate mint new decimal decimal_go digit validate validate_steps
    is_blank is_whitespace Ids.contains
edited_run = refl

decide-ok_example :
    (r : ApprovalRequest ℕ) × (pending_request 5 asked ≡ some r)
    × (r.request_id ≡ "apr-s1-1")
    × Runs r (approve_edited edited) edited.steps
decide-ok_example = decide-ok "apr-s1-1" (approve_edited edited) 5 asked edited.steps edited_run

in_time : 7 ≤ 0 + gate.ttl_ms
unfolding gate new
in_time = omega arith

decide-request_example :
    (decide
      (mint "s1" "g" (copy_step ∷ []) 0 gate).request_id
      approve
      7
      (request "s1" "g" (copy_step ∷ []) 0 gate).1).0
    ≡ ok (copy_step ∷ [])
decide-request_example = decide-request "s1" "g" (copy_step ∷ []) 0 7 gate refl in_time

first_request : pending_request 1 asked ≡ some (mint "s1" "g" (copy_step ∷ []) 0 gate)
unfolding pending_request asked request gate new
first_request = refl

decide-cancel_example :
    let r = mint "s1" "g" (copy_step ∷ []) 0 gate in
    ((cancel r.request_id asked).0 ≡ ok tt)
    × ("apr-nope" ≢ r.request_id → (cancel "apr-nope" asked).0 ≡ err unknown)
    × (pending_request 1 (cancel "apr-nope" asked).1 ≡ none)
    × ((id : String) (d : Decision ℕ) (later : ℕ)
        → (decide id d later (cancel "apr-nope" asked).1).0 ≡ err unknown)
decide-cancel_example =
    decide-cancel "apr-nope" 1 asked (mint "s1" "g" (copy_step ∷ []) 0 gate) first_request
