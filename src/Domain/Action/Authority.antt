-- ===== src/Domain/Action/Authority.antt =====
-- What a resolved action may do.
use aura_launcher.Common.{
  ◌≡◌, refl, String, Bool, true, false, not, Option, none, some, List, [], ◌∷◌, any, filter, Eq,
  ◌==◌, string_eq, Result, ok, err, if◌then◌else◌, sym, ◌∙◌, inl, inr, arith, Bool-cases, eq→path,
  ne_of_eq, if_true, if_false, subst, ◌≢◌,
}
use aura_launcher.Common.Ids.{contains, contains-append}
use aura_launcher.Domain.Capability.{Capability, capability_eq, plugin_invoke, mcp_invoke}
use aura_launcher.Domain.Action.{
  Action, ActionKind, plugin_invoke_kind, ActionDescriptor, DescriptorError, Route, to_copy,
  to_open, to_reveal, to_terminal, to_execute, to_paste, to_plugin, to_nothing, route, strip_prefix,
  is_some, owns_plugin_namespace, also, is_confirm, is_dangerous, missing, resolve_route,
  resolve_system, resolve_owned, resolve_descriptor_for, base, with_text, unless_missing, get_str,
  is_object, copy, open_target, reveal, open_terminal_here, execute, paste, text, path,
  command_line, json, ActionPayload, invalid_input,
}

abbrev pub Granted : List Capability → List Capability → Type 0
Granted required granted = (c : Capability) → contains c required ≡ true → contains c granted ≡ true

filtered_out {ℓ} :
    {A : Type ℓ} ⦃e : Eq A⦄ (c : A) (granted required : List A)
    → filter (λ x. not (contains x granted)) required ≡ []
    → contains c required ≡ true
    → contains c granted ≡ true
unfolding contains
filtered_out c granted [] h k = cc
filtered_out ⦃e⦄ c granted (x ∷ xs) h k = ground (arith, filtered_out c granted xs, e.beq_iff x c)

also_has : (c : Capability) (required : List Capability) → contains c (also c required) ≡ true
unfolding contains
also_has c required = ground (arith, contains-append c required (c ∷ []), capability_eq.beq_iff c c)

also_keeps :
    (c x : Capability) (required : List Capability)
    → contains x required ≡ true
    → contains x (also c required) ≡ true
unfolding contains
also_keeps c x required h = ground (arith, contains-append x required (c ∷ []))

some_path : (x y : String) → some x ≡ some y → x ≡ y
some_path x y h = cc

route_plugin : (t : String) → route t ≡ to_plugin → is_some (strip_prefix "plugin." t) ≡ true
unfolding route
route_plugin t h = ground arith

module _ {N : Type 0} where
  ok_path : (x y : Action N) → Path (Result DescriptorError (Action N)) (ok x) (ok y) → x ≡ y
  ok_path x y h = cc

  -- What holds of every action that a descriptor resolves to, whatever it was granted.
  pub record Based (d : ActionDescriptor N) (a : Action N) : Type 0 where
    pub asks : any is_dangerous d.requires ≡ true → a.confirmation_required ≡ true
    pub confirms : is_confirm d.confirmation ≡ true → a.confirmation_required ≡ true
    pub routed : a.kind ≡ plugin_invoke_kind → is_some (strip_prefix "plugin." d.action_type) ≡ true

  base-Based :
      (d : ActionDescriptor N) (kind : ActionKind) (p : Option (ActionPayload N))
      → (kind ≡ plugin_invoke_kind → is_some (strip_prefix "plugin." d.action_type) ≡ true)
      → Based d (base d kind p)
  base-Based d kind p h = record {
    asks = λ k. ground (arith, k);
    confirms = λ k. ground (arith, k);
    routed = h;
  }

  text_Based :
      (d : ActionDescriptor N) (a : Action N) (kind : ActionKind) (make : String → ActionPayload N)
      (o : Option String)
      → (kind ≡ plugin_invoke_kind → is_some (strip_prefix "plugin." d.action_type) ≡ true)
      → with_text d kind make o ≡ ok a
      → Based d a
  text_Based d a kind make none g h = cc
  text_Based d a kind make (some s) g h =
      subst (Based d) (ok_path _ a h) (base-Based d kind (some (make s)) g)

  plugin_Based :
      (d : ActionDescriptor N) (a : Action N)
      → route d.action_type ≡ to_plugin
      → (b : Bool)
      → (if b
          then ok (base d plugin_invoke_kind (some (json d.input)))
          else err (invalid_input d.action_type))
        ≡ ok a
      → Based d a
  plugin_Based d a e true h =
      subst (Based d) (ok_path _ a h)
        (base-Based d plugin_invoke_kind (some (json d.input)) (λ k. route_plugin d.action_type e))
  plugin_Based d a e false h = cc

  not_denied {ℓ} :
      {T : Type ℓ} (e : DescriptorError) (a : Action N)
      → Path (Result DescriptorError (Action N)) (err e) (ok a)
      → T
  not_denied e a h = cc

  route-Based :
      (d : ActionDescriptor N) (a : Action N) (r : Route)
      → route d.action_type ≡ r
      → resolve_route r d ≡ ok a
      → Based d a
  route-Based d a to_copy e h = text_Based d a copy text (get_str "text" d.input) (λ k. cc) h
  route-Based d a to_open e h =
      text_Based d a open_target path (get_str "target" d.input) (λ k. cc) h
  route-Based d a to_reveal e h = text_Based d a reveal path (get_str "path" d.input) (λ k. cc) h
  route-Based d a to_terminal e h =
      text_Based d a open_terminal_here path (get_str "path" d.input) (λ k. cc) h
  route-Based d a to_execute e h =
      text_Based d a execute command_line (get_str "command_line" d.input) (λ k. cc) h
  route-Based d a to_paste e h = subst (Based d) (ok_path _ a h) (base-Based d paste none (λ k. cc))
  route-Based d a to_plugin e h = plugin_Based d a e (is_object d.input) h
  route-Based d a to_nothing e h = cc

  -- Which capabilities a descriptor asks for and, if a plugin owns its type, which plugin.
  abbrev pub Allowed : ActionDescriptor N → List Capability → Option String → Type 0
  Allowed d granted own =
      Granted d.requires granted
      × (d.action_type ≡ "plugin.mcp.invoke" → contains mcp_invoke granted ≡ true)
      × ((rest : String)
          → d.action_type ≢ "plugin.mcp.invoke"
          → strip_prefix "plugin." d.action_type ≡ some rest
          → (o : String) × (own ≡ some o)
            × (owns_plugin_namespace o rest ≡ true)
            × (contains plugin_invoke granted ≡ true))

  system_ok :
      (d : ActionDescriptor N) (granted required : List Capability) (a : Action N)
      (m : List Capability)
      → missing granted required ≡ m
      → unless_missing m (resolve_route (route d.action_type) d) ≡ ok a
      → Granted required granted × Based d a
  system_ok d granted required a [] e h =
      (λ c k. filtered_out c granted required e k, route-Based d a (route d.action_type) refl h)
  system_ok d granted required a (c ∷ cs) e h = cc

  system-Granted :
      (d : ActionDescriptor N) (granted required : List Capability) (a : Action N)
      → resolve_system d granted required ≡ ok a
      → Granted required granted × Based d a
  unfolding resolve_system
  system-Granted d granted required a h =
      system_ok d granted required a (missing granted required) refl h

  owned_ok :
      (d : ActionDescriptor N) (granted : List Capability) (o own : Option String) (a : Action N)
      → strip_prefix "plugin." d.action_type ≡ o
      → d.action_type ≢ "plugin.mcp.invoke"
      → resolve_owned d granted o own ≡ ok a
      → Allowed d granted own × Based d a
  unfolding resolve_owned
  owned_ok d granted none own a e n h =
      let (g, b) = system-Granted d granted d.requires a h in
      ((g, λ k. absurd (n k), λ rest m k. cc), b)
  owned_ok d granted (some rest) none a e n h = cc
  owned_ok d granted (some rest) (some own) a e n h =
      elim (Bool-cases (owns_plugin_namespace own rest)) [
        | inl owns ↦
            let (g, b) =
              system-Granted d granted (also plugin_invoke d.requires) a (if_true _ _ _ _ owns h) in
            (
              (
                λ c k. g c (also_keeps plugin_invoke c d.requires k),
                λ k. absurd (n k),
                λ other m k. (
                  own,
                  refl,
                  subst (λ x. owns_plugin_namespace own x ≡ true) (some_path rest other (sym e ∙ k))
                      owns,
                  g plugin_invoke (also_has plugin_invoke d.requires),
                ),
              ),
              b,
            )
        | inr stranger ↦ not_denied _ a (if_false _ _ _ _ stranger h)
      ]

  -- A descriptor resolves to an action only if each capability that it requires is granted, and
  -- `mcp.invoke` too if it is an MCP invocation; any other `plugin.` type must belong to the
  -- producing plugin, to which `plugin.invoke` is granted. Only a `plugin.` type resolves to a
  -- plugin's action, and the action asks for a confirmation whenever the descriptor does or
  -- requires the shell or a process.
  pub resolve_descriptor_for-ok :
      (d : ActionDescriptor N) (granted : List Capability) (own : Option String) (a : Action N)
      → resolve_descriptor_for d granted own ≡ ok a
      → Allowed d granted own × Based d a
  unfolding resolve_descriptor_for
  resolve_descriptor_for-ok d granted own a h =
      elim (Bool-cases (d.action_type == "plugin.mcp.invoke")) [
        | inl mcp ↦
            let (g, b) =
              system-Granted d granted (also mcp_invoke d.requires) a (if_true _ _ _ _ mcp h) in
            (
              (
                λ c k. g c (also_keeps mcp_invoke c d.requires k),
                λ k. g mcp_invoke (also_has mcp_invoke d.requires),
                λ rest n k. absurd (n (eq→path d.action_type "plugin.mcp.invoke" mcp)),
              ),
              b,
            )
        | inr other ↦
            owned_ok d granted (strip_prefix "plugin." d.action_type) own a refl
              (ne_of_eq d.action_type "plugin.mcp.invoke" other) (if_false _ _ _ _ other h)
      ]
