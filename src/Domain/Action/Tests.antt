-- ===== src/Domain/Action/Tests.antt =====
-- The resolver on one descriptor of a plugin.
use aura_launcher.Common.{ℕ, ◌≡◌, ◌≢◌, ◌↔◌, refl, String, true, none, some, [], ◌∷◌}
use aura_launcher.Domain.Expr.{object, end}
use aura_launcher.Domain.Capability.{plugin_invoke, process_spawn}
use aura_launcher.Domain.Action.{
  Action, plugin_invoke_kind, json, ActionDescriptor, resolve_descriptor_for, owns_plugin_namespace,
}
use aura_launcher.Domain.Action.Authority.{Allowed, Based, resolve_descriptor_for-ok}
use aura_launcher.Domain.Action.Namespace.{Owned, owns_plugin_namespace_iff}

abbrev export : ActionDescriptor ℕ
export = record {
  id = "export";
  title = none;
  action_type = "plugin.calc.export";
  input = object end;
  requires = process_spawn ∷ [];
  shortcut = none;
  confirmation = none;
}

abbrev invocation : Action ℕ
invocation = record {
  kind = plugin_invoke_kind;
  payload = some (json (object end));
  id = none;
  title = none;
  disabled_reason = none;
  shortcut = none;
  confirmation_required = true;
}

resolve_descriptor_for-ok_example :
    Allowed export (plugin_invoke ∷ process_spawn ∷ []) (some "calc") × Based export invocation
unfolding resolve_descriptor_for
resolve_descriptor_for-ok_example =
    resolve_descriptor_for-ok export (plugin_invoke ∷ process_spawn ∷ []) (some "calc") invocation
      refl

abbrev calc : String
calc = "calc"

abbrev empty : String
empty = ""

not_empty : calc ≢ empty
not_empty h = cc

owns_plugin_namespace_iff_example :
    (owns_plugin_namespace "calc" "calculator" ≡ true) ↔ Owned "calc" "calculator"
owns_plugin_namespace_iff_example = owns_plugin_namespace_iff "calc" "calculator" not_empty
