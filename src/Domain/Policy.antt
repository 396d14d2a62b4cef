-- ===== src/Domain/Policy.antt =====
-- Failure policies of a workflow (crates/launcher-domain/src/workflow.rs).
pub mod Matrix
use aura_launcher.Common.{ℕ, ◌≡◌, String, Bool, true, false, Option, none, some}

pub data FailureAction : Type 0 where
  stop retry skip re_resolve : FailureAction

pub record RetryPolicy : Type 0 where
  pub max_attempts : ℕ

abbrev pub default_max_attempts : ℕ
default_max_attempts = 2

abbrev pub default_retry : RetryPolicy
default_retry = record { max_attempts = default_max_attempts }

pub record StepFailurePolicy : Type 0 where
  pub capability_denied : Option FailureAction
  pub stale_context : Option FailureAction
  pub timeout : Option RetryPolicy
  pub business_error : Option FailureAction
  pub protocol_violation : Option FailureAction
  pub invalid_input : Option FailureAction
  pub plugin_unavailable : Option FailureAction
  pub command_not_found : Option FailureAction

pub record WorkflowFailurePolicy : Type 0 where
  pub capability_denied : Option FailureAction
  pub stale_context : Option FailureAction
  pub timeout : Option RetryPolicy
  pub business_error : Option FailureAction
  pub protocol_violation : Option FailureAction
  pub invalid_input : Option FailureAction
  pub plugin_unavailable : Option FailureAction
  pub command_not_found : Option FailureAction

pub data WorkflowFailureClass : Type 0 where
  on_capability_denied on_invalid_input on_stale_context on_timeout on_business_error :
      WorkflowFailureClass
  on_protocol_violation on_plugin_unavailable on_command_not_found : WorkflowFailureClass
  on_confirmation_required : WorkflowFailureClass

-- `step_override.or(def_override).unwrap_or(default)`
abbrev pub or_default {ℓ} : {A : Type ℓ} → Option A → Option A → A → A
or_default (some a) d default = a
or_default none (some d) default = d
or_default none none default = default

-- `as_ref().map(|_| FailureAction::Retry)`
abbrev pub as_retry : Option RetryPolicy → Option FailureAction
as_retry none = none
as_retry (some p) = some retry

abbrev pub attempts : Option RetryPolicy → Option ℕ
attempts none = none
attempts (some p) = some p.max_attempts

unfoldable pub action_for :
    WorkflowFailurePolicy → StepFailurePolicy → WorkflowFailureClass → FailureAction
action_for w s on_capability_denied = or_default s.capability_denied w.capability_denied stop
action_for w s on_invalid_input = or_default s.invalid_input w.invalid_input stop
action_for w s on_stale_context = or_default s.stale_context w.stale_context re_resolve
action_for w s on_timeout = or_default (as_retry s.timeout) (as_retry w.timeout) retry
action_for w s on_business_error = or_default s.business_error w.business_error stop
action_for w s on_protocol_violation = or_default s.protocol_violation w.protocol_violation stop
action_for w s on_plugin_unavailable = or_default s.plugin_unavailable w.plugin_unavailable retry
action_for w s on_command_not_found = or_default s.command_not_found w.command_not_found stop
action_for w s on_confirmation_required = or_default none none stop

unfoldable pub max_attempts : WorkflowFailurePolicy → StepFailurePolicy → ℕ
max_attempts w s = or_default (attempts s.timeout) (attempts w.timeout) default_max_attempts
