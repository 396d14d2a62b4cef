-- ===== src/Domain/Semantics.antt =====
-- Outcomes, effects and retries (crates/launcher-domain/src/execution_semantics.rs).
use aura_launcher.Common.{◌≡◌, refl, Bool, true, false, if◌then◌else◌, ◌↔◌, ◌≢◌}

pub data CommandResult : Type 0 where
  succeeded failed rejected cancelled timeout unknown : CommandResult

pub data EffectState : Type 0 where
  not_started started completed effect_failed effect_unknown : EffectState

pub data StepStatus : Type 0 where
  pending executing step_succeeded step_failed step_cancelled step_unknown skipped : StepStatus

pub data RetryDecision : Type 0 where
  allowed forbidden : RetryDecision

abbrev pub timeout_outcome : CommandResult × EffectState
timeout_outcome = (timeout, effect_unknown)

unfoldable pub retry_decision : CommandResult → EffectState → Bool → RetryDecision
retry_decision result completed idempotent = forbidden
retry_decision result started idempotent = forbidden
retry_decision result effect_unknown idempotent = if idempotent then allowed else forbidden
retry_decision succeeded not_started idempotent = forbidden
retry_decision succeeded effect_failed idempotent = forbidden
retry_decision _ not_started idempotent = allowed
retry_decision _ effect_failed idempotent = allowed

pub data RecoveryRoute : Type 0 where
  queryable policy_retry explicit_recovery_required : RecoveryRoute

unfoldable pub recovery_route : Bool → Bool → RecoveryRoute
recovery_route idempotent can_query =
    if can_query then queryable else if idempotent then policy_retry else explicit_recovery_required

unfoldable pub replan_may_execute : StepStatus → Bool
replan_may_execute pending = true
replan_may_execute step_failed = true
replan_may_execute skipped = true
replan_may_execute _ = false

-- The effect may have happened, or may still.
abbrev pub may_have_effect : EffectState → Bool
may_have_effect not_started = false
may_have_effect effect_failed = false
may_have_effect _ = true

other_result :
    (result : CommandResult) (effect : EffectState)
    → result ≢ succeeded
    → (retry_decision result effect false ≡ allowed)
      ↔ ((may_have_effect effect ≡ false) × (result ≢ succeeded))
unfolding retry_decision
other_result succeeded effect n = absurd (n refl)
other_result result completed n = ((λ h. cc), λ h. cc)
other_result result started n = ((λ h. cc), λ h. cc)
other_result result effect_unknown n = ((λ h. cc), λ h. cc)
other_result failed not_started n = ((λ h. (refl, n)), λ h. refl)
other_result rejected not_started n = ((λ h. (refl, n)), λ h. refl)
other_result cancelled not_started n = ((λ h. (refl, n)), λ h. refl)
other_result timeout not_started n = ((λ h. (refl, n)), λ h. refl)
other_result unknown not_started n = ((λ h. (refl, n)), λ h. refl)
other_result failed effect_failed n = ((λ h. (refl, n)), λ h. refl)
other_result rejected effect_failed n = ((λ h. (refl, n)), λ h. refl)
other_result cancelled effect_failed n = ((λ h. (refl, n)), λ h. refl)
other_result timeout effect_failed n = ((λ h. (refl, n)), λ h. refl)
other_result unknown effect_failed n = ((λ h. (refl, n)), λ h. refl)

-- For an effect that is not idempotent, a retry is allowed exactly when the effect is known not to
-- have happened and the command did not succeed.
pub retry_safe :
    (result : CommandResult) (effect : EffectState)
    → (retry_decision result effect false ≡ allowed)
      ↔ ((may_have_effect effect ≡ false) × (result ≢ succeeded))
unfolding retry_decision
retry_safe succeeded not_started = ((λ h. cc), λ h. absurd (h.1 refl))
retry_safe succeeded effect_failed = ((λ h. cc), λ h. absurd (h.1 refl))
retry_safe succeeded started = ((λ h. cc), λ h. cc)
retry_safe succeeded completed = ((λ h. cc), λ h. cc)
retry_safe succeeded effect_unknown = ((λ h. cc), λ h. cc)
retry_safe failed effect = other_result failed effect (λ h. cc)
retry_safe rejected effect = other_result rejected effect (λ h. cc)
retry_safe cancelled effect = other_result cancelled effect (λ h. cc)
retry_safe timeout effect = other_result timeout effect (λ h. cc)
retry_safe unknown effect = other_result unknown effect (λ h. cc)
