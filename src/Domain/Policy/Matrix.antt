-- ===== src/Domain/Policy/Matrix.antt =====
-- The default failure matrix and its overrides.
use aura_launcher.Common.{◌≡◌, refl, Option, none, some}
use aura_launcher.Domain.Policy.{
  stop, retry, RetryPolicy, StepFailurePolicy, WorkflowFailurePolicy, on_timeout,
  on_confirmation_required, or_default, as_retry, action_for,
}

-- A step policy over a definition policy, field by field.
abbrev pub or_else {ℓ} : {A : Type ℓ} → Option A → Option A → Option A
or_else (some a) d = some a
or_else none d = d

unfoldable pub merged : WorkflowFailurePolicy → StepFailurePolicy → WorkflowFailurePolicy
merged w s = record {
  capability_denied = or_else s.capability_denied w.capability_denied;
  stale_context = or_else s.stale_context w.stale_context;
  timeout = or_else s.timeout w.timeout;
  business_error = or_else s.business_error w.business_error;
  protocol_violation = or_else s.protocol_violation w.protocol_violation;
  invalid_input = or_else s.invalid_input w.invalid_input;
  plugin_unavailable = or_else s.plugin_unavailable w.plugin_unavailable;
  command_not_found = or_else s.command_not_found w.command_not_found;
}

abbrev pub no_override : StepFailurePolicy
no_override = record {
  capability_denied = none;
  stale_context = none;
  timeout = none;
  business_error = none;
  protocol_violation = none;
  invalid_input = none;
  plugin_unavailable = none;
  command_not_found = none;
}

timeout_either : (s w : Option RetryPolicy) → or_default (as_retry s) (as_retry w) retry ≡ retry
timeout_either none none = refl
timeout_either none (some p) = refl
timeout_either (some p) w = refl

-- A timeout is always retried, and a confirmation never is: no policy changes either.
pub timeout_retries :
    (w : WorkflowFailurePolicy) (s : StepFailurePolicy)
    → (action_for w s on_timeout ≡ retry) × (action_for w s on_confirmation_required ≡ stop)
unfolding action_for
timeout_retries w s = (timeout_either s.timeout w.timeout, refl)
