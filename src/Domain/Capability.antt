-- ===== src/Domain/Capability.antt =====
-- Capabilities and their equality (crates/launcher-domain/src/lib.rs).
use aura_launcher.Common.{
  ℕ, ◌≡◌, refl, get_elem?, true, some, List, [], ◌∷◌, Eq, string_eq, nat_eqb, ap, sym, ◌∙◌, ◌↔◌,
  nat_eqb_iff,
}

pub data Capability : Type 0 where
  filesystem_read filesystem_write clipboard_read clipboard_write network shell_execute
        process_spawn :
      Capability
  notifications ui_render context_process_read context_window_read context_location_read :
      Capability
  context_selection_read store_read store_write plugin_invoke mcp_invoke : Capability

abbrev pub ordinal : Capability → ℕ
ordinal filesystem_read = 0
ordinal filesystem_write = 1
ordinal clipboard_read = 2
ordinal clipboard_write = 3
ordinal network = 4
ordinal shell_execute = 5
ordinal process_spawn = 6
ordinal notifications = 7
ordinal ui_render = 8
ordinal context_process_read = 9
ordinal context_window_read = 10
ordinal context_location_read = 11
ordinal context_selection_read = 12
ordinal store_read = 13
ordinal store_write = 14
ordinal plugin_invoke = 15
ordinal mcp_invoke = 16

some_injective : (x y : Capability) → some x ≡ some y → x ≡ y
some_injective x y h = cc

abbrev capabilities : List Capability
capabilities =
    filesystem_read ∷ filesystem_write ∷ clipboard_read ∷ clipboard_write ∷ network ∷ shell_execute
    ∷ process_spawn ∷ notifications ∷ ui_render ∷ context_process_read ∷ context_window_read
    ∷ context_location_read ∷ context_selection_read ∷ store_read ∷ store_write ∷ plugin_invoke
    ∷ mcp_invoke ∷ []

capability_at : (c : Capability) → get_elem? capabilities (ordinal c) ≡ some c
capability_at filesystem_read = refl
capability_at filesystem_write = refl
capability_at clipboard_read = refl
capability_at clipboard_write = refl
capability_at network = refl
capability_at shell_execute = refl
capability_at process_spawn = refl
capability_at notifications = refl
capability_at ui_render = refl
capability_at context_process_read = refl
capability_at context_window_read = refl
capability_at context_location_read = refl
capability_at context_selection_read = refl
capability_at store_read = refl
capability_at store_write = refl
capability_at plugin_invoke = refl
capability_at mcp_invoke = refl

same_ordinal : (x y : Capability) → ordinal x ≡ ordinal y → x ≡ y
same_ordinal x y h =
    some_injective x y (sym (capability_at x) ∙ ap (get_elem? capabilities) h ∙ capability_at y)

pub same_capability : (x y : Capability) → (nat_eqb (ordinal x) (ordinal y) ≡ true) ↔ (x ≡ y)
same_capability x y = (
  λ h. same_ordinal x y ((nat_eqb_iff (ordinal x) (ordinal y)).0 h),
  λ h. (nat_eqb_iff (ordinal x) (ordinal y)).1 (ap ordinal h),
)

instance abbrev pub capability_eq : Eq Capability
capability_eq = record { beq = λ x y. nat_eqb (ordinal x) (ordinal y); beq_iff = same_capability }
