-- ===== src/Domain/Tests.antt =====
-- The retry rule and the failure policies at concrete values.
use aura_launcher.Common.{◌≡◌, false, none, some, ◌↔◌, ◌≢◌}
use aura_launcher.Domain.Semantics.{
  timeout, effect_unknown, succeeded, retry_decision, allowed, may_have_effect, retry_safe,
}
use aura_launcher.Domain.Policy.{StepFailurePolicy, WorkflowFailurePolicy, skip, max_attempts}
use aura_launcher.Domain.Policy.Matrix.{no_override}

retry_safe_example :
    (retry_decision timeout effect_unknown false ≡ allowed)
    ↔ ((may_have_effect effect_unknown ≡ false) × (timeout ≢ succeeded))
retry_safe_example = retry_safe timeout effect_unknown

abbrev strict : WorkflowFailurePolicy
strict = record {
  capability_denied = none;
  stale_context = none;
  timeout = some (record { max_attempts = 3 });
  business_error = none;
  protocol_violation = none;
  invalid_input = none;
  plugin_unavailable = none;
  command_not_found = none;
}

abbrev lenient : StepFailurePolicy
lenient = record no_override { business_error = some skip }
