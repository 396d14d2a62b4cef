-- ===== src/Ai/Approval/SingleUse.antt =====
-- Decisions are single-use and fail closed.
use aura_launcher.Common.{
  ℕ, ◌+◌, ◌≤◌, ◌≡◌, ◌≢◌, refl, [], String, true, Option, none, some, List, any, arith, ltb→le,
  ltb→lt, leb→lt, string_eq, ◌==◌, eq_self, eq→path, Result, ok, err, ◌⊎◌, inl, inr, Bool-cases,
}
use aura_launcher.Ai.Plan.{PlanStep, PlanDocument, PlanDocumentError, validate}
use aura_launcher.Ai.Plan.Validity.{IsValid, validate-IsValid}
use aura_launcher.Ai.Approval.{
  ApprovalError, unknown, already_decided, ApprovalRequest, Decision, approve, approve_edited,
  reject, Pending, ApprovalGate, mint, request, effective, decide_pending, decide, cancel, live,
  pending_request, cancel_pending, checked,
}

module _ {Value : Type 0} where
  abbrev pub IsRefused : Result ApprovalError ((List (PlanStep Value))) → Type 0
  IsRefused r = (r ≡ err unknown) ⊎ (r ≡ err already_decided)

  decided-IsRefused :
      (id : String) (d : (Decision Value)) (now : ℕ) (gate : (ApprovalGate Value))
      (p : (Pending Value))
      → p.decided ≡ true
      → IsRefused (decide_pending id d now gate (some p)).0
  decided-IsRefused id d now gate p h = elim (Bool-cases (p.request.request_id == id)) [
    | inl same ↦ inr (ground arith)
    | inr other ↦ inl (ground arith)
  ]

  pending_twice :
      (id : String) (d d' : (Decision Value)) (now now' : ℕ) (gate : (ApprovalGate Value))
      (o : Option (Pending Value))
      → gate.pending ≡ o
      → IsRefused (decide id d' now' (decide_pending id d now gate o).1).0
  unfolding decide
  pending_twice id d d' now now' gate none same = inl (ground arith)
  pending_twice id d d' now now' gate (some p) same =
      elim (Bool-cases (p.request.request_id == id)) [
        | inl mine ↦ inr (ground arith)
        | inr other ↦ inl (ground arith)
      ]

  -- After a decision on an id, whatever it was and whatever became of it, a further decision on
  -- that id is refused, whatever it is and whenever it comes.
  pub decide-decide :
      (id : String) (d d' : (Decision Value)) (now now' : ℕ) (gate : (ApprovalGate Value))
      → IsRefused (decide id d' now' (decide id d now gate).1).0
  decide-decide id d d' now now' gate =
      unfold decide in pending_twice id d d' now now' gate gate.pending refl

  effective_pending :
      (id : String) (d : (Decision Value)) (now : ℕ) (gate : (ApprovalGate Value))
      (o : Option (Pending Value)) (steps : (List (PlanStep Value)))
      → (decide_pending id d now gate o).0 ≡ ok steps
      → (r : (ApprovalRequest Value)) × (live now o ≡ some r)
        × (r.request_id ≡ id)
        × (effective r d ≡ ok steps)
  effective_pending id d now gate none steps h = cc
  effective_pending id d now gate (some p) steps h = (
    p.request,
    ground (arith, ltb→le p.request.expires_at_ms now, leb→lt now p.request.expires_at_ms),
    eq→path p.request.request_id id (ground arith),
    ground arith,
  )

  -- What a decision on a request puts into effect: its own steps, those of the edited document,
  -- which has to be valid, or none.
  abbrev pub Runs : (ApprovalRequest Value) → (Decision Value) → (List (PlanStep Value)) → Type 0
  Runs r approve steps = steps ≡ r.steps
  Runs r (approve_edited doc) steps = (steps ≡ doc.steps) × IsValid doc
  Runs r reject steps = steps ≡ []

  edited-Runs :
      (doc : PlanDocument Value) (v : Result PlanDocumentError (Unit {0}))
      → validate doc ≡ v
      → (steps : (List (PlanStep Value))) → checked doc.steps v ≡ ok steps
      → (steps ≡ doc.steps) × IsValid doc
  edited-Runs doc (ok _) accepted steps h = (cc, validate-IsValid doc accepted)
  edited-Runs doc (err e) refused steps h = absurd (cc)

  effective-Runs :
      (r : (ApprovalRequest Value)) (d : (Decision Value)) (steps : (List (PlanStep Value)))
      → effective r d ≡ ok steps
      → Runs r d steps
  effective-Runs r approve steps h = cc
  effective-Runs r (approve_edited doc) steps h = edited-Runs doc (validate doc) refl steps h
  effective-Runs r reject steps h = cc

  -- A decision gives steps to run only for the live pending request of that id, and they are the
  -- request's own steps on an approval, those of the edited plan on an edited approval, which is
  -- then a valid plan, and none on a rejection.
  pub decide-ok :
      (id : String) (d : (Decision Value)) (now : ℕ) (gate : (ApprovalGate Value))
      (steps : (List (PlanStep Value)))
      → (decide id d now gate).0 ≡ ok steps
      → (r : (ApprovalRequest Value)) × (pending_request now gate ≡ some r)
        × (r.request_id ≡ id)
        × Runs r d steps
  unfolding decide pending_request
  decide-ok id d now gate steps h =
      let (r, is_live, mine, effect) = effective_pending id d now gate gate.pending steps h in
      (r, is_live, mine, effective-Runs r d steps effect)

  -- A request that was minted and is approved within its time to live gives exactly the steps it
  -- was minted for.
  pub decide-request :
      (session_id user_goal : String) (steps : (List (PlanStep Value))) (now now' : ℕ)
      (gate : (ApprovalGate Value))
      → any (λ s. s.requires_approval) steps ≡ true
      → now' ≤ now + gate.ttl_ms
      → (decide
          (mint session_id user_goal steps now gate).request_id
          approve
          now'
          (request session_id user_goal steps now gate).1).0
        ≡ ok steps
  unfolding decide request mint
  decide-request session_id user_goal steps now now' gate asked in_time = ground (
    arith,
    ltb→lt (now + gate.ttl_ms) now',
    eq_self (mint session_id user_goal steps now gate).request_id,
  )

  cancel_wrong :
      (cancelled : String) (now : ℕ) (o : Option (Pending Value)) (r : (ApprovalRequest Value))
      → live now o ≡ some r
      → cancelled ≢ r.request_id
      → cancel_pending cancelled o ≡ err unknown
  cancel_wrong cancelled now none r there other = refl
  cancel_wrong cancelled now (some p) r there other =
      elim (Bool-cases (p.request.request_id == cancelled)) [
        | inl same ↦
            let e = eq→path p.request.request_id cancelled same in
            let q : p.request ≡ r = ground arith in absurd (other (cc))
        | inr differs ↦ ground arith
      ]

  cancel_own :
      (now : ℕ) (o : Option (Pending Value)) (r : (ApprovalRequest Value))
      → live now o ≡ some r
      → cancel_pending r.request_id o ≡ ok tt
  cancel_own now none r there = absurd (cc)
  cancel_own now (some p) r there =
      let q : p.request ≡ r = ground arith in ground (arith, eq_self r.request_id)

  -- While a request is live, cancelling its own id succeeds, and cancelling any other id, also one
  -- that was never issued, returns an error; but after either no request is live, and every
  -- decision on any id, that of the request included, is refused as unknown.
  pub decide-cancel :
      (cancelled : String) (now : ℕ) (gate : (ApprovalGate Value)) (r : (ApprovalRequest Value))
      → pending_request now gate ≡ some r
      → ((cancel r.request_id gate).0 ≡ ok tt)
        × (cancelled ≢ r.request_id → (cancel cancelled gate).0 ≡ err unknown)
        × (pending_request now (cancel cancelled gate).1 ≡ none)
        × ((id : String) (d : (Decision Value)) (later : ℕ)
            → (decide id d later (cancel cancelled gate).1).0 ≡ err unknown)
  unfolding decide cancel pending_request
  decide-cancel cancelled now gate r there = (
    cancel_own now gate.pending r there,
    λ other. cancel_wrong cancelled now gate.pending r there other,
    refl,
    λ id d later. refl,
  )
