-- ===== src/Workflow/Variables/Refine.antt =====
-- The variable store as a map from the names of variables to their values.
use Prim.Native.String as Text
use Prim.Native.String.{◌++◌ as ◌append◌}
use text.Mathlib.TextLemmas.{nil-append, cons-append}
use aura_launcher.Common.{
  ◌≡◌, refl, sym, ap, ◌∙◌, String, Bool, true, false, ◌||◌, not, Option, none, some, [], ◌∷◌,
  string_eq, ◌==◌, eq→path, Result, ok, err, and_then, if◌then◌else◌, Bool-cases, inl, inr,
  ne_of_eq,
}
use aura_launcher.Domain.Expr.{
  Std, Value, Fields, null, bool, number, string, array, object, end, field, get_field,
}
use aura_launcher.Domain.Action.{get, is_empty}
use aura_launcher.Workflow.Variables.{
  Serde, is_char, has_dot, split_dot, json_walk, walk, walk_from, set_field, split_ns,
  VariableStore, insert_var, set_in, set, get_var, get_in, converted, fields_of, or_object,
}
use aura_launcher.Workflow.Variables.Binding.{
  get_field-set_field, inserted, segments_cons, segments_plain, dot, dot_there, after_dot,
}

cases_same {ℓ} :
    {A : Type ℓ} (b : Bool) (x y z : A)
    → (if b then x else z) ≡ (if b then x else if b then y else z)
cases_same true x y z = refl
cases_same false x y z = refl

apart {ℓ} :
    {A : Type ℓ} (j k other : String) (x y z : A)
    → (j == k) ≡ false
    → (if j == other then y else if k == other then x else z)
      ≡ (if k == other then x else if j == other then y else z)
apart j k other x y z d = elim (Bool-cases (j == other)) [
  | inl a ↦ elim (Bool-cases (k == other)) [
    | inl b ↦ absurd (ne_of_eq j k d (eq→path j other a ∙ sym (eq→path k other b)))
    | inr b ↦ rw (a, b) refl
  ]
  | inr a ↦ rw a refl
]

split_undotted :
    (p r : String) → has_dot p ≡ false → split_dot (p append ("." append r)) ≡ some (p, r)
unfolding split_dot
split_undotted Text.[] r h =
    rw (nil-append ("." append r), cons-append dot Text.[] r, nil-append r) refl
split_undotted (Text.◌∷◌ c s) r h = elim (Bool-cases (is_char 46 c)) [
  | inl is_dot ↦ absurd (dot_there (is_char 46 c) (has_dot s) is_dot h)
  | inr other ↦
      rw
        (
          cons-append c s ("." append r),
          other,
          split_undotted s r (after_dot (is_char 46 c) (has_dot s) h),
        )
        refl
]

-- The abstract store.
abbrev pub Vars : Type 0 → Type 0
Vars N = String → Option (Value N)

module _ {N : Type 0} where
  abbrev field_of : String → Option (Value N) → Option (Value N)
  field_of name none = none
  field_of name (some v) = get name v

  abbrev pub vars : VariableStore N → Vars N
  vars store name = field_of name (get "var" store.root)

  abbrev pub updated : String → Value N → Vars N → Vars N
  updated name v m other = if name == other then some v else m other

  set_field_lookup :
      (k other : String) (v : Value N) (o : Fields N)
      → get_field other (set_field k v o) ≡ (if k == other then some v else get_field other o)
  set_field_lookup k other v end = refl
  set_field_lookup k other v (field j w o) = elim (Bool-cases (j == k)) [
    | inl same ↦
        rw (same, eq→path j k same) (cases_same (k == other) (some v) (some w) (get_field other o))
    | inr differs ↦
        rw (differs, set_field_lookup k other v o)
          (apart j k other (some v) (some w) (get_field other o) differs)
  ]

  -- A store that a variable was put into.
  inserted_vars :
      (name : String) (v : Value N) (root : Fields N) (y : Value N) (store : VariableStore N)
      → insert_var name v root y ≡ ok store
      → (other : String) → vars store other ≡ (if name == other then some v else get other y)
  inserted_vars name v root y store h other =
      let (m, is_object, form) = inserted name v root y store h in
      rw (form, is_object, get_field-set_field "var" (object (set_field name v m)) root)
        (set_field_lookup name other v m)

  before_field :
      (o : Option (Value N)) (other : String) → get other (or_object o) ≡ field_of other o
  before_field none other = refl
  before_field (some v) other = refl

  -- The variables before, as `or_object` passes them on.
  before_vars :
      (root : Value N) (other : String)
      → get other (or_object (get_field "var" (fields_of root))) ≡ field_of other (get "var" root)
  before_vars (object o) other = before_field (get_field "var" o) other
  before_vars null other = refl
  before_vars (bool b) other = refl
  before_vars (number n) other = refl
  before_vars (string s) other = refl
  before_vars (array a) other = refl

  -- A store after a variable was set, by the checks of its path.
  set_in_vars :
      (path : String) (v : Value N) (ns name : String) (old store : VariableStore N)
      (isvar empty dotted : Bool)
      → (ns == "var") ≡ isvar
      → if◌then◌else◌ {A = Result String (VariableStore N)}
          (not isvar)
          (err "namespace is read-only; variables live under var.*")
          (if empty || dotted
            then err "use a single-segment var.<name> in v0.2"
            else insert_var name v
                (fields_of old.root)
                (or_object (get_field "var" (fields_of old.root))))
        ≡ ok store
      → (ns ≡ "var") × ((other : String) → vars store other ≡ updated name v (vars old) other)
  set_in_vars path v ns name old store false e d p h = cc
  set_in_vars path v ns name old store true true d p h = cc
  set_in_vars path v ns name old store true false true p h = cc
  set_in_vars path v ns name old store true false false p h = (
    eq→path ns "var" p,
    λ other.
        inserted_vars name v (fields_of old.root) (or_object (get_field "var" (fields_of old.root)))
          store h other
        ∙ ap (λ x. if name == other then some v else x) (before_vars old.root other),
  )

  split_vars :
      (path : String) (v : Value N) (old store : VariableStore N)
      (o : Result String (String × String))
      → and_then o (λ p. set_in path v p old) ≡ ok store
      → (name : String) × (o ≡ ok ("var", name))
        × ((other : String) → vars store other ≡ updated name v (vars old) other)
  split_vars path v old store (err e) h = cc
  split_vars path v old store (ok (ns, name)) h =
      let (same, after) =
        set_in_vars path v ns name old store (ns == "var") (is_empty name) (has_dot name) refl h in
      (name, ap (λ n. ok (n, name)) same, after)

  -- A successful `set` names a variable, and does to the store what an update does to a map.
  pub set-vars :
      (path : String) (v : Value N) (old store : VariableStore N)
      → set path v old ≡ ok store
      → (name : String) × (split_ns path ≡ ok ("var", name))
        × (vars store ≡ updated name v (vars old))
  unfolding set
  set-vars path v old store h =
      let (name, named, after) = split_vars path v old store (split_ns path) h in
      (name, named, λ i other. after other i)

  last_segment : (o : Option (Value N)) → walk_from o (λ w. walk [] w) ≡ o
  last_segment none = refl
  last_segment (some v) = refl

  walked_from :
      (name : String) (o : Option (Value N))
      → walk_from o (λ w. walk (name ∷ []) w) ≡ field_of name o
  walked_from name none = refl
  walked_from name (some v) = last_segment (get name v)

module _ (S : Std) (J : Serde S) where
  walked :
      (name : String) (root : Value J.Number)
      → walk ("var" ∷ name ∷ []) root ≡ field_of name (get "var" root)
  walked name root = walked_from name (get "var" root)

  -- Every variable reads as the value that the map holds.
  pub get_var-vars :
      (name : String) (store : VariableStore J.Number)
      → is_empty name ≡ false
      → has_dot name ≡ false
      → get_var S J ("var" append ("." append name)) store ≡ ok (converted S J (vars store name))
  unfolding get_var get_in split_ns json_walk
  get_var-vars name store full plain =
      rw
        (
          split_undotted "var" name refl,
          full,
          segments_cons "var" name refl,
          segments_plain name plain,
          walked name store.root,
        )
        refl
