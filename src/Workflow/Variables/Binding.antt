-- ===== src/Workflow/Variables/Binding.antt =====
-- The paths of variables, and what a store holds after a variable was put into it.
use Prim.Native.Char.{Char, char}
use Prim.Native.String as Text
use Prim.Native.String.{◌++◌ as ◌append◌}
use text.Mathlib.TextLemmas.{nil-append, cons-append}
use aura_launcher.Common.{
  ◌≡◌, refl, String, Bool, true, false, ◌||◌, some, [], ◌∷◌, leb, string_eq, ◌==◌, eq_self, Result,
  ok, err, if◌then◌else◌, arith, Bool-cases, inl, inr,
}
use aura_launcher.Domain.Expr.{
  Value, Fields, null, bool, number, string, array, object, end, field, get_field, fields_len,
}
use aura_launcher.Domain.Definition.{max_variables}
use aura_launcher.Workflow.Variables.{
  is_char, has_dot, segments, json_walk, set_field, VariableStore, insert_var,
}

abbrev pub dot : Char
dot = char 46 tt

pub dot_there : (a b : Bool) → a ≡ true → (a || b) ≡ false → ⊥
dot_there true b h k = cc
dot_there false b h k = cc

pub after_dot : (a b : Bool) → (a || b) ≡ false → b ≡ false
after_dot true b h = cc
after_dot false b h = h

pub segments_plain : (r : String) → has_dot r ≡ false → segments r ≡ r ∷ []
unfolding segments
segments_plain Text.[] h = refl
segments_plain (Text.◌∷◌ c s) h = elim (Bool-cases (is_char 46 c)) [
  | inl is_dot ↦ absurd (dot_there (is_char 46 c) (has_dot s) is_dot h)
  | inr other ↦ rw (other, segments_plain s (after_dot (is_char 46 c) (has_dot s) h)) refl
]

-- The segments of a text that starts with an undotted one.
pub segments_cons :
    (p r : String) → has_dot p ≡ false → segments (p append ("." append r)) ≡ p ∷ segments r
unfolding segments
segments_cons Text.[] r h =
    rw (nil-append ("." append r), cons-append dot Text.[] r, nil-append r) refl
segments_cons (Text.◌∷◌ c s) r h = elim (Bool-cases (is_char 46 c)) [
  | inl is_dot ↦ absurd (dot_there (is_char 46 c) (has_dot s) is_dot h)
  | inr other ↦
      rw
        (
          cons-append c s ("." append r),
          other,
          segments_cons s r (after_dot (is_char 46 c) (has_dot s) h),
        )
        refl
]

module _ {N : Type 0} where
  pub get_field-set_field :
      (k : String) (v : Value N) (o : Fields N) → get_field k (set_field k v o) ≡ some v
  get_field-set_field k v end = ground (arith, eq_self k)
  get_field-set_field k v (field j w o) = elim (Bool-cases (j == k)) [
    | inl same ↦ rw same (ground (arith, eq_self k))
    | inr other ↦ rw other (ground (arith, other, get_field-set_field k v o))
  ]

  walk_var :
      (name : String) (v : Value N) (m o : Fields N)
      → has_dot name ≡ false
      → json_walk
          (object (set_field "var" (object (set_field name v m)) o))
          ("var" append ("." append name))
        ≡ some v
  unfolding json_walk
  walk_var name v m o h =
      rw
        (
          segments_cons "var" name refl,
          segments_plain name h,
          get_field-set_field "var" (object (set_field name v m)) o,
          get_field-set_field name v m,
        )
        refl

  under_limit :
      (name : String) (v : Value N) (root m : Fields N) (store : VariableStore N) (b : Bool)
      → if◌then◌else◌ {A = Result String (VariableStore N)} b
          (err "too many variables")
          (ok (record { root = object (set_field "var" (object (set_field name v m)) root) }))
        ≡ ok store
      → store ≡ record { root = object (set_field "var" (object (set_field name v m)) root) }
  under_limit name v root m store true k = cc
  under_limit name v root m store false k = cc

  pub inserted :
      (name : String) (v : Value N) (root : Fields N) (y : Value N) (store : VariableStore N)
      → insert_var name v root y ≡ ok store
      → (m : Fields N) × (y ≡ object m)
        × (store ≡ record { root = object (set_field "var" (object (set_field name v m)) root) })
  inserted name v root (object m) store h =
      (m, refl, under_limit name v root m store (leb max_variables (fields_len m)) h)
  inserted name v root null store h = cc
  inserted name v root (bool b) store h = cc
  inserted name v root (number n) store h = cc
  inserted name v root (string s) store h = cc
  inserted name v root (array a) store h = cc
