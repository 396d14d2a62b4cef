-- ===== src/Workflow/Variables.antt =====
-- The variables of a run and the templates of a step's input (crates/launcher-workflow/src/v2.rs),
-- with the conversions of Value (crates/launcher-domain/src/expr.rs). `Serde` holds what the code
-- uses of the numbers of serde_json; the other variants of its values are those of `Value`.
pub mod Binding
pub mod Identity
pub mod Refine
use Prim.Native.Char.{Char, code}
use Prim.Native.String as Text
use Prim.Native.String.{◌++◌ as ◌append◌}
use aura_launcher.Common.{
  ℕ, ◌≡◌, String, Bool, true, false, ◌&&◌, ◌||◌, not, Option, none, some, List, [], ◌∷◌, nat_eqb,
  leb, string_eq, ◌==◌, Result, ok, err, and_then, if◌then◌else◌, is_whitespace,
}
use aura_launcher.Domain.Expr.{
  Std, Value, Values, Fields, null, bool, number, string, array, object, nil, cons, end, field,
  get_field, fields_len,
}
use aura_launcher.Domain.Action.{get, strip_prefix, is_object, is_empty, is_some}
use aura_launcher.Domain.Definition.{max_variables}

pub record Serde (S : Std) : Type 1 where
  pub Number : Type 0
  pub as_f64 : Number → Option S.Float
  pub from_f64 : S.Float → Option Number
  pub zero_number : Number
  pub zero_float : S.Float
  pub float_text : S.Float → String
  pub json_eq : Value Number → Value Number → Bool

abbrev pub is_char : ℕ → Char → Bool
is_char n c = nat_eqb (code c) n

abbrev under_first : Char → Option (String × String) → Option (String × String)
under_first c none = none
under_first c (some (a, b)) = some (Text.◌∷◌ c a, b)

-- `path.split_once('.')`
unfoldable pub split_dot : String → Option (String × String)
split_dot Text.[] = none
split_dot (Text.◌∷◌ c s) =
    let later = split_dot s in if is_char 46 c then some ("", s) else under_first c later

abbrev pub onto_first : Char → List String → List String
onto_first c [] = Text.◌∷◌ c Text.[] ∷ []
onto_first c (a ∷ parts) = Text.◌∷◌ c a ∷ parts

-- `path.split('.')`
unfoldable pub segments : String → List String
segments Text.[] = "" ∷ []
segments (Text.◌∷◌ c s) =
    let later = segments s in if is_char 46 c then "" ∷ later else onto_first c later

abbrev pub has_dot : String → Bool
has_dot Text.[] = false
has_dot (Text.◌∷◌ c s) = is_char 46 c || has_dot s

module _ {N : Type 0} where
  abbrev pub walk_from {ℓ} : {A : Type ℓ} → Option (Value N) → (Value N → Option A) → Option A
  walk_from none next = none
  walk_from (some v) next = next v

  abbrev pub walk : List String → Value N → Option (Value N)
  walk [] v = some v
  walk (seg ∷ segs) v = walk_from (get seg v) (λ w. walk segs w)

  unfoldable pub json_walk : Value N → String → Option (Value N)
  unfolding segments
  json_walk root path = walk (segments path) root

  -- `Map::insert`
  abbrev pub set_field : String → Value N → Fields N → Fields N
  set_field k v end = field k v end
  set_field k v (field j w rest) = if j == k then field k v rest else field j w (set_field k v rest)

abbrev pub namespace_of : Option (String × String) → Result String (String × String)
namespace_of none = err "bare variable forbidden; use var.*/input.*"
namespace_of (some p) = ok p

unfoldable pub split_ns : String → Result String (String × String)
unfolding split_dot
split_ns path = namespace_of (split_dot path)

unfoldable pub trim_start : String → String
unfolding is_whitespace
trim_start Text.[] = Text.[]
trim_start (Text.◌∷◌ c s) =
    let later = trim_start s in if is_whitespace c then later else Text.◌∷◌ c s

unfoldable pub trim_end : String → String
unfolding is_whitespace
trim_end Text.[] = Text.[]
trim_end (Text.◌∷◌ c s) =
    let later = trim_end s in
    if is_empty later && is_whitespace c then Text.[] else Text.◌∷◌ c later

abbrev under_char : Char → Option String → Option String
under_char c none = none
under_char c (some s) = some (Text.◌∷◌ c s)

-- `strip_suffix('}')`
abbrev pub strip_brace : String → Option String
strip_brace Text.[] = none
strip_brace (Text.◌∷◌ c s) =
    let later = strip_brace s in
    if is_empty s then (if is_char 125 c then some "" else none) else under_char c later

abbrev pub inner_of : Option String → Option String
inner_of none = none
inner_of (some rest) = strip_brace rest

-- What a whole-field template refers to.
unfoldable pub whole_template : String → Option String
unfolding is_whitespace strip_prefix trim_end trim_start
whole_template s = inner_of (strip_prefix "${" (trim_end (trim_start s)))

-- `s.contains("${")`
unfoldable pub has_template : String → Bool
unfolding strip_prefix
has_template Text.[] = false
has_template (Text.◌∷◌ c s) = is_some (strip_prefix "${" (Text.◌∷◌ c s)) || has_template s

abbrev pick {ℓ} : {A : Type ℓ} → Bool → (Unit {0} → A) → (Unit {0} → A) → A
pick true x y = x tt
pick false x y = y tt

-- `VariableStore`: its root.
pub record VariableStore (N : Type 0) : Type 0 where
  pub root : Value N

module _ {N : Type 0} where
  abbrev object_or_empty : Value N → Value N
  object_or_empty (object o) = object o
  object_or_empty _ = object end

  unfoldable pub from_snapshot : Option (Value N) → VariableStore N
  from_snapshot none = record { root = object end }
  from_snapshot (some v) = record { root = object_or_empty v }

  abbrev nonempty : Value N → Option (Value N)
  nonempty (object end) = none
  nonempty other = some other

  unfoldable pub snapshot : VariableStore N → Option (Value N)
  snapshot store = nonempty store.root

  abbrev pub fields_of : Value N → Fields N
  fields_of (object o) = o
  fields_of _ = end

  abbrev pub or_object : Option (Value N) → Value N
  or_object none = object end
  or_object (some v) = v

  -- `m.insert(rest, value)` under the limit, `m` the object of `var`.
  abbrev pub insert_var : String → Value N → Fields N → Value N → Result String (VariableStore N)
  insert_var name value root (object m) =
      if leb max_variables (fields_len m)
      then err "too many variables"
      else ok (record { root = object (set_field "var" (object (set_field name value m)) root) })
  insert_var name value root _ = err "variable namespace is not an object"

  abbrev pub set_in :
      String → Value N → String × String → VariableStore N → Result String (VariableStore N)
  set_in path value (ns, rest) store =
      if not (ns == "var")
      then err "namespace is read-only; variables live under var.*"
      else if is_empty rest || has_dot rest
      then err "use a single-segment var.<name> in v0.2"
      else insert_var rest value (fields_of store.root)
          (or_object (get_field "var" (fields_of store.root)))

  -- A store that is refused a variable is dropped by the caller.
  unfoldable pub set : String → Value N → VariableStore N → Result String (VariableStore N)
  unfolding split_dot split_ns
  set path value store = and_then (split_ns path) (λ p. set_in path value p store)

module _ (S : Std) (J : Serde S) where
  abbrev or_zero_float : Option S.Float → S.Float
  or_zero_float none = J.zero_float
  or_zero_float (some x) = x

  abbrev or_zero_number : Option J.Number → J.Number
  or_zero_number none = J.zero_number
  or_zero_number (some x) = x

  unfoldable mutual
    pub from_json : Value J.Number → Value S.Float
    from_json null = null
    from_json (bool b) = bool b
    from_json (number n) = number (or_zero_float (J.as_f64 n))
    from_json (string s) = string s
    from_json (array a) = array (from_json_items a)
    from_json (object o) = object (from_json_fields o)

    pub from_json_items : Values J.Number → Values S.Float
    from_json_items nil = nil
    from_json_items (cons v a) = cons (from_json v) (from_json_items a)

    pub from_json_fields : Fields J.Number → Fields S.Float
    from_json_fields end = end
    from_json_fields (field k v o) = field k (from_json v) (from_json_fields o)

  unfoldable mutual
    pub to_json : Value S.Float → Value J.Number
    to_json null = null
    to_json (bool b) = bool b
    to_json (number x) = number (or_zero_number (J.from_f64 x))
    to_json (string s) = string s
    to_json (array a) = array (to_json_items a)
    to_json (object o) = object (to_json_fields o)

    pub to_json_items : Values S.Float → Values J.Number
    to_json_items nil = nil
    to_json_items (cons v a) = cons (to_json v) (to_json_items a)

    pub to_json_fields : Fields S.Float → Fields J.Number
    to_json_fields end = end
    to_json_fields (field k v o) = field k (to_json v) (to_json_fields o)

  abbrev pub Store : Type 0
  Store = VariableStore J.Number

  unfoldable pub converted : Option (Value J.Number) → Option (Value S.Float)
  unfolding from_json
  converted none = none
  converted (some v) = some (from_json v)

  unfoldable pub get_in : String × String → Store → Result String (Option (Value S.Float))
  unfolding json_walk from_json converted
  get_in (ns, rest) store =
      if ns == "var" || ns == "input"
      then if is_empty rest
        then ok (converted (get ns store.root))
        else ok (converted (json_walk store.root (ns append ("." append rest))))
      else if ns == "workflow" || ns == "step"
      then ok (some null)
      else err "unknown variable namespace"

  unfoldable pub get_var : String → Store → Result String (Option (Value S.Float))
  unfolding json_walk from_json split_dot split_ns get_in
  get_var path store = and_then (split_ns path) (λ p. get_in p store)

  abbrev known : Option (Value S.Float) → Result String (Value S.Float)
  known none = err "unknown variable reference"
  known (some v) = ok v

  abbrev reference_value : String → Store → Result String (Value S.Float)
  unfolding get_var
  reference_value path store = and_then (get_var path store) known

  abbrev shown : Value S.Float → Result String String
  shown (string t) = ok t
  shown (number x) = ok (J.float_text x)
  shown (bool b) = ok (if b then "true" else "false")
  shown _ = err "variable is not string-interpolatable"

  abbrev then_text : String → Result String String → Result String String
  then_text t (ok s) = ok (t append s)
  then_text t (err e) = err e

  -- The text outside of templates, and the text after `${`, whose reference is read so far.
  unfoldable mutual
    unfolding get_var reference_value

    pub interpolate : Store → String → Result String String
    interpolate store Text.[] = ok ""
    interpolate store (Text.◌∷◌ c Text.[]) = ok (Text.◌∷◌ c Text.[])
    interpolate store (Text.◌∷◌ c (Text.◌∷◌ d s)) =
        pick (is_char 36 c && is_char 123 d) (λ _. in_template store "" s)
          (λ _. then_text (Text.◌∷◌ c Text.[]) (interpolate store (Text.◌∷◌ d s)))

    pub in_template : Store → String → String → Result String String
    in_template store path Text.[] = err "unterminated template"
    in_template store path (Text.◌∷◌ c s) =
        pick (is_char 125 c)
          (λ _.
            and_then (reference_value path store)
              (λ v. and_then (shown v) (λ t. then_text t (interpolate store s))))
          (λ _. in_template store (path append (Text.◌∷◌ c Text.[])) s)

  abbrev as_text : Result String String → Result String (Value J.Number)
  as_text (ok s) = ok (string s)
  as_text (err e) = err e

  unfoldable pub string_from : Option String → String → Store → Result String (Value J.Number)
  unfolding to_json interpolate has_template get_var reference_value
  string_from (some inner) s store = and_then (reference_value inner store) (λ v. ok (to_json v))
  string_from none s store = if has_template s then as_text (interpolate store s) else ok (string s)

  unfoldable pub materialize_string : String → Store → Result String (Value J.Number)
  unfolding to_json interpolate has_template whole_template get_var string_from
  materialize_string s store = string_from (whole_template s) s store

  unfoldable pub is_identity_template : String → Value J.Number → Bool
  unfolding has_template
  is_identity_template k (string s) = (k == "server_id" || k == "tool_name") && has_template s
  is_identity_template k _ = false

  unfoldable mutual
    unfolding materialize_string has_template is_identity_template

    pub materialize_input : Value J.Number → Store → Result String (Value J.Number)
    materialize_input (string s) store = materialize_string s store
    materialize_input (array a) store = and_then (materialize_items a store) (λ b. ok (array b))
    materialize_input (object o) store = and_then (materialize_fields o store) (λ b. ok (object b))
    materialize_input null store = ok null
    materialize_input (bool b) store = ok (bool b)
    materialize_input (number n) store = ok (number n)

    pub materialize_items : Values J.Number → Store → Result String (Values J.Number)
    materialize_items nil store = ok nil
    materialize_items (cons v a) store =
        and_then (materialize_input v store)
          (λ w. and_then (materialize_items a store) (λ b. ok (cons w b)))

    pub materialize_fields : Fields J.Number → Store → Result String (Fields J.Number)
    materialize_fields end store = ok end
    materialize_fields (field k v o) store =
        if is_identity_template k v
        then err "identity field must be definition-bound; templates forbidden"
        else and_then (materialize_input v store)
            (λ w. and_then (materialize_fields o store) (λ b. ok (field k w b)))
