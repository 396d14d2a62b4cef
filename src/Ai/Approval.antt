-- ===== src/Ai/Approval.antt =====
-- The approval gate (crates/launcher-ai/src/approval.rs). Times are milliseconds that do not
-- overflow an `i64`; the sequence number is a `u64`.
pub mod SingleUse
pub mod Tests
use Prim.Native.String.{◌++◌ as ◌append◌}
use aura_launcher.Common.{
  ℕ, suc, ◌+◌, ◌*◌, ◌%◌, ◌^◌, ◌≡◌, String, Bool, true, false, ◌&&◌, not, Option, none, some, List,
  [], ◌∷◌, any, string_eq, ◌==◌, ltb, leb, Result, ok, err, if◌then◌else◌, decimal,
}
use aura_launcher.Ai.Plan.{PlanStep, PlanDocument, PlanDocumentError, validate}

abbrev pub default_ttl_ms : ℕ
default_ttl_ms = 5 * 60 * 1000

pub data ApprovalError : Type 0 where
  unknown expired already_decided : ApprovalError
  invalid_plan : PlanDocumentError → ApprovalError

pub record ApprovalRequest (Value : Type 0) : Type 0 where
  pub request_id : String
  pub session_id : String
  pub user_goal : String
  pub steps : List (PlanStep Value)
  pub created_at_ms : ℕ
  pub expires_at_ms : ℕ

pub data Decision (Value : Type 0) : Type 0 where
  approve : (Decision Value)
  approve_edited : PlanDocument Value → (Decision Value)
  reject : (Decision Value)

pub record Pending (Value : Type 0) : Type 0 where
  pub request : ApprovalRequest Value
  pub decided : Bool

pub record ApprovalGate (Value : Type 0) : Type 0 where
  pub ttl_ms : ℕ
  pub seq : ℕ
  pub pending : Option (Pending Value)

module _ {Value : Type 0} where
  unfoldable pub new : ℕ → (ApprovalGate Value)
  new ttl_ms = record { ttl_ms = ttl_ms; seq = 0; pending = none }

  -- The request of the next sequence number.
  unfoldable pub mint :
      String → String → (List (PlanStep Value)) → ℕ → (ApprovalGate Value) → (ApprovalRequest Value)
  mint session_id user_goal steps now_ms gate = record {
    request_id = "apr-" append session_id append "-" append decimal ((gate.seq + 1) % 2 ^ 64);
    session_id = session_id;
    user_goal = user_goal;
    steps = steps;
    created_at_ms = now_ms;
    expires_at_ms = now_ms + gate.ttl_ms;
  }

  unfoldable pub request :
      String
      → String
      → (List (PlanStep Value))
      → ℕ
      → (ApprovalGate Value)
      → Option (ApprovalRequest Value) × (ApprovalGate Value)
  unfolding mint
  request session_id user_goal steps now_ms gate =
      if not (any (λ s. s.requires_approval) steps) then (none, gate) else (
        some (mint session_id user_goal steps now_ms gate),
        record gate {
          seq = (gate.seq + 1) % 2 ^ 64;
          pending =
              some
                (record { request = mint session_id user_goal steps now_ms gate; decided = false });
        },
      )

  abbrev pub checked :
      (List (PlanStep Value))
      → Result PlanDocumentError (Unit {0})
      → Result ApprovalError (List (PlanStep Value))
  checked steps (ok _) = ok steps
  checked steps (err e) = err (invalid_plan e)

  -- The plan that a decision in time puts into effect.
  abbrev pub effective :
      (ApprovalRequest Value) → (Decision Value) → Result ApprovalError (List (PlanStep Value))
  effective r approve = ok r.steps
  effective r (approve_edited doc) = checked doc.steps (validate doc)
  effective r reject = ok []

  abbrev pub decide_pending :
      String
      → (Decision Value)
      → ℕ
      → (ApprovalGate Value)
      → Option (Pending Value)
      → Result ApprovalError (List (PlanStep Value)) × (ApprovalGate Value)
  decide_pending request_id decision now_ms gate none = (err unknown, gate)
  decide_pending request_id decision now_ms gate (some p) =
      if not (p.request.request_id == request_id)
      then (err unknown, gate)
      else if p.decided
      then (err already_decided, gate)
      else if ltb p.request.expires_at_ms now_ms
      then (err expired, record gate { pending = some (record p { decided = true }) })
      else (
        effective p.request decision,
        record gate { pending = some (record p { decided = true }) },
      )

  unfoldable pub decide :
      String
      → (Decision Value)
      → ℕ
      → (ApprovalGate Value)
      → Result ApprovalError (List (PlanStep Value)) × (ApprovalGate Value)
  decide request_id decision now_ms gate =
      decide_pending request_id decision now_ms gate gate.pending

  abbrev pub cancel_pending : String → Option (Pending Value) → Result ApprovalError (Unit {0})
  cancel_pending request_id none = err unknown
  cancel_pending request_id (some p) =
      if (p.request.request_id == request_id) && not p.decided then ok tt else err unknown

  -- The pending request is taken out before its id is compared.
  unfoldable pub cancel :
      String → (ApprovalGate Value) → Result ApprovalError (Unit {0}) × (ApprovalGate Value)
  cancel request_id gate = (cancel_pending request_id gate.pending, record gate { pending = none })

  abbrev pub live : ℕ → Option (Pending Value) → Option (ApprovalRequest Value)
  live now_ms none = none
  live now_ms (some p) =
      if not p.decided && leb now_ms p.request.expires_at_ms then some p.request else none

  unfoldable pub pending_request : ℕ → (ApprovalGate Value) → Option (ApprovalRequest Value)
  pending_request now_ms gate = live now_ms gate.pending
