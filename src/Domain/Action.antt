-- ===== src/Domain/Action.antt =====
-- Actions and the resolver of descriptors (crates/launcher-domain/src/lib.rs). JSON values are
-- those of Domain.Expr, over a type of numbers that the code here does not look at.
pub mod Namespace
pub mod Authority
pub mod Tests
use aura_launcher.Domain.Capability.{
  Capability, capability_eq, filesystem_read, filesystem_write, clipboard_read, clipboard_write,
  network, shell_execute, process_spawn, notifications, ui_render, context_process_read,
  context_window_read, context_location_read, context_selection_read, store_read, store_write,
  plugin_invoke, mcp_invoke,
}
use Prim.Native.String as Text
use Prim.Native.Char.{code}
use aura_launcher.Common.{
  ℕ, ◌≡◌, refl, get_elem?, String, Bool, true, false, ◌&&◌, ◌||◌, not, Option, none, some, List, [],
  ◌∷◌, ◌++◌, any, filter, Eq, ◌==◌, string_eq, nat_eqb, Result, ok, err, if◌then◌else◌, ap, sym,
  ◌∙◌, ◌↔◌, nat_eqb_iff,
}
use aura_launcher.Common.Ids.{contains}
use aura_launcher.Domain.Expr.{Value, null, bool, number, string, array, object, get_field}

pub data ActionKind : Type 0 where
  open_target copy reveal open_terminal_here execute paste plugin_invoke_kind run_as_admin :
      ActionKind

-- `i64`
pub data ℤ : Type 0 where
  pos negsuc : ℕ → ℤ

pub data ActionPayload (N : Type 0) : Type 0 where
  path text command_line : String → ActionPayload N
  hwnd : ℤ → ActionPayload N
  json : Value N → ActionPayload N
  no_payload : ActionPayload N

pub record Action (N : Type 0) : Type 0 where
  pub kind : ActionKind
  pub payload : Option (ActionPayload N)
  pub id : Option String
  pub title : Option String
  pub disabled_reason : Option String
  pub shortcut : Option String
  pub confirmation_required : Bool

pub record ActionDescriptor (N : Type 0) : Type 0 where
  pub id : String
  pub title : Option String
  pub action_type : String
  pub input : Value N
  pub requires : List Capability
  pub shortcut : Option String
  pub confirmation : Option String

pub data DescriptorError : Type 0 where
  unknown_action_type invalid_input : String → DescriptorError
  capability_denied : List Capability → DescriptorError

-- `str::strip_prefix`
unfoldable pub strip_prefix : String → String → Option String
strip_prefix Text.[] s = some s
strip_prefix (Text.◌∷◌ c p) Text.[] = none
strip_prefix (Text.◌∷◌ c p) (Text.◌∷◌ d s) =
    let rest = strip_prefix p s in if nat_eqb (code c) (code d) then rest else none

abbrev pub is_some {ℓ} : {A : Type ℓ} → Option A → Bool
is_some none = false
is_some (some a) = true

abbrev pub is_empty : String → Bool
is_empty Text.[] = true
is_empty (Text.◌∷◌ c s) = false

abbrev pub starts_with_dot : String → Bool
starts_with_dot Text.[] = false
starts_with_dot (Text.◌∷◌ c s) = nat_eqb (code c) 46

abbrev pub at_dot : Option String → Bool
at_dot none = false
at_dot (some rest) = starts_with_dot rest

unfoldable pub owns_plugin_namespace : String → String → Bool
unfolding strip_prefix
owns_plugin_namespace owner target =
    if is_empty owner || is_empty target
    then false
    else target == owner || at_dot (strip_prefix owner target)

-- `effective_requires.push(c)` if it is not there.
abbrev pub also : Capability → List Capability → List Capability
also c required = if contains c required then required else required ++ c ∷ []

-- What `match d.action_type.as_str()` tells apart.
pub data Route : Type 0 where
  to_copy to_open to_reveal to_terminal to_execute to_paste to_plugin to_nothing : Route

unfoldable pub route : String → Route
unfolding strip_prefix
route t =
    if t == "system.copy_to_clipboard"
    then to_copy
    else if t == "system.open"
    then to_open
    else if t == "system.reveal"
    then to_reveal
    else if t == "system.open_terminal_here"
    then to_terminal
    else if t == "system.execute"
    then to_execute
    else if t == "system.paste"
    then to_paste
    else if is_some (strip_prefix "plugin." t)
    then to_plugin
    else to_nothing

abbrev is_confirm : Option String → Bool
is_confirm none = false
is_confirm (some c) = c == "confirm"

-- The capabilities that ask for a confirmation.
abbrev pub is_dangerous : Capability → Bool
is_dangerous c = c == shell_execute || c == process_spawn

abbrev pub missing : List Capability → List Capability → List Capability
missing granted required = filter (λ c. not (contains c granted)) required

module _ {N : Type 0} where
  abbrev as_str : Option (Value N) → Option String
  as_str (some (string s)) = some s
  as_str _ = none

  -- `input.get(key)`
  abbrev pub get : String → Value N → Option (Value N)
  get key (object o) = get_field key o
  get key _ = none

  abbrev pub get_str : String → Value N → Option String
  get_str key input = as_str (get key input)

  abbrev pub is_object : Value N → Bool
  is_object (object o) = true
  is_object _ = false

  abbrev pub base : ActionDescriptor N → ActionKind → Option (ActionPayload N) → Action N
  base d kind payload = record {
    kind = kind;
    payload = payload;
    id = none;
    title = none;
    disabled_reason = none;
    shortcut = d.shortcut;
    confirmation_required = is_confirm d.confirmation || any is_dangerous d.requires;
  }

  abbrev pub with_text :
      ActionDescriptor N
      → ActionKind
      → (String → ActionPayload N)
      → Option String
      → Result DescriptorError (Action N)
  with_text d kind make none = err (invalid_input d.action_type)
  with_text d kind make (some s) = ok (base d kind (some (make s)))

  abbrev pub resolve_route : Route → ActionDescriptor N → Result DescriptorError (Action N)
  resolve_route to_copy d = with_text d copy text (get_str "text" d.input)
  resolve_route to_open d = with_text d open_target path (get_str "target" d.input)
  resolve_route to_reveal d = with_text d reveal path (get_str "path" d.input)
  resolve_route to_terminal d = with_text d open_terminal_here path (get_str "path" d.input)
  resolve_route to_execute d = with_text d execute command_line (get_str "command_line" d.input)
  resolve_route to_paste d = ok (base d paste none)
  resolve_route to_plugin d =
      if is_object d.input
      then ok (base d plugin_invoke_kind (some (json d.input)))
      else err (invalid_input d.action_type)
  resolve_route to_nothing d = err (unknown_action_type d.action_type)

  abbrev pub unless_missing :
      List Capability → Result DescriptorError (Action N) → Result DescriptorError (Action N)
  unless_missing [] r = r
  unless_missing (c ∷ cs) r = err (capability_denied (c ∷ cs))

  unfoldable pub resolve_system :
      ActionDescriptor N → List Capability → List Capability → Result DescriptorError (Action N)
  unfolding route contains
  resolve_system d granted required =
      unless_missing (missing granted required) (resolve_route (route d.action_type) d)

  -- The message of a denied cross-plugin action is left out.
  unfoldable pub resolve_owned :
      ActionDescriptor N
      → List Capability
      → Option String
      → Option String
      → Result DescriptorError (Action N)
  unfolding resolve_system owns_plugin_namespace contains
  resolve_owned d granted none own = resolve_system d granted d.requires
  resolve_owned d granted (some rest) none = err (unknown_action_type d.action_type)
  resolve_owned d granted (some rest) (some own) =
      if owns_plugin_namespace own rest
      then resolve_system d granted (also plugin_invoke d.requires)
      else err (invalid_input "cross-plugin action denied")

  unfoldable pub resolve_descriptor_for :
      ActionDescriptor N → List Capability → Option String → Result DescriptorError (Action N)
  unfolding resolve_system owns_plugin_namespace contains strip_prefix resolve_owned
  resolve_descriptor_for d granted own =
      if d.action_type == "plugin.mcp.invoke"
      then resolve_system d granted (also mcp_invoke d.requires)
      else resolve_owned d granted (strip_prefix "plugin." d.action_type) own

  unfoldable pub resolve_descriptor :
      ActionDescriptor N → List Capability → Result DescriptorError (Action N)
  unfolding resolve_descriptor_for
  resolve_descriptor d granted = resolve_descriptor_for d granted none

  abbrev differ : (Value N → Value N → Bool) → Option (Value N) → Option (Value N) → Bool
  differ eq (some a) (some b) = not (eq a b)
  differ eq _ _ = false

  -- The identity fields on which two payloads differ; `eq` is the equality of `serde_json::Value`.
  unfoldable pub identity_mismatch : (Value N → Value N → Bool) → Value N → Value N → List String
  identity_mismatch eq projected runtime =
      filter (λ f. differ eq (get f projected) (get f runtime)) ("server_id" ∷ "tool_name" ∷ [])
