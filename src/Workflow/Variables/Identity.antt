-- ===== src/Workflow/Variables/Identity.antt =====
-- Templates cannot change the identity of an action.
use Prim.Native.Char.{Char, code}
use Prim.Native.String as Text
use aura_launcher.Common.{
  ◌≡◌, refl, sym, ap, ◌∙◌, ◌⊎◌, String, Bool, true, false, ◌&&◌, ◌||◌, Option, none, some, nat_eqb,
  string_eq, ◌==◌, eq→path, Result, ok, err, and_then, if◌then◌else◌, if_true, if_false, Bool-cases,
  inl, inr, is_whitespace,
}
use aura_launcher.Domain.Expr.{Std, Value, Fields, string, object, end, field, get_field}
use aura_launcher.Domain.Action.{strip_prefix, is_some, is_empty}
use aura_launcher.Workflow.Variables.{
  Serde, Store, trim_start, trim_end, inner_of, whole_template, has_template, string_from,
  materialize_string, is_identity_template, materialize_input, materialize_fields,
}

-- What a text with a first character is, if it is not cut to nothing.
cut :
    (c d : Char) (p s r : String) (b same : Bool)
    → nat_eqb (code c) (code d) ≡ same
    → strip_prefix p r ≡ (if same then none else strip_prefix p r)
    → strip_prefix (Text.◌∷◌ c p) (if b then Text.[] else Text.◌∷◌ d r) ≡ none
unfolding strip_prefix
cut c d p s r true same e k = refl
cut c d p s r false true e k = rw e k
cut c d p s r false false e k = rw e refl

rest_none : (b : Bool) (o : Option String) → b ≡ true → (if b then o else none) ≡ none → o ≡ none
rest_none true o e h = h
rest_none false o e h = cc

-- A prefix of a text without its trailing blanks is a prefix of the text.
strip-trim_end : (p t : String) → strip_prefix p t ≡ none → strip_prefix p (trim_end t) ≡ none
unfolding strip_prefix trim_end
strip-trim_end Text.[] t h = cc
strip-trim_end (Text.◌∷◌ c p) Text.[] h = refl
strip-trim_end (Text.◌∷◌ c p) (Text.◌∷◌ d s) h = elim (Bool-cases (nat_eqb (code c) (code d))) [
  | inl same ↦
      cut c d p s (trim_end s) (is_empty (trim_end s) && is_whitespace d) true same
        (strip-trim_end p s (rest_none (nat_eqb (code c) (code d)) (strip_prefix p s) same h))
  | inr other ↦ cut c d p s (trim_end s) (is_empty (trim_end s) && is_whitespace d) false other refl
]

not_there : (o : Option String) (b : Bool) → (is_some o || b) ≡ false → o ≡ none
not_there none b h = refl
not_there (some s) b h = cc

nor_later : (a b : Bool) → (a || b) ≡ false → b ≡ false
nor_later true b h = cc
nor_later false b h = h

no_template_start : (s : String) → has_template s ≡ false → strip_prefix "${" (trim_end s) ≡ none
unfolding has_template trim_end strip_prefix
no_template_start Text.[] h = refl
no_template_start (Text.◌∷◌ c s) h =
    strip-trim_end "${" (Text.◌∷◌ c s)
      (not_there (strip_prefix "${" (Text.◌∷◌ c s)) (has_template s) h)

has_template-trim_start :
    (s : String) → has_template s ≡ false → has_template (trim_start s) ≡ false
unfolding has_template trim_start
has_template-trim_start Text.[] h = refl
has_template-trim_start (Text.◌∷◌ c s) h = elim (Bool-cases (is_whitespace c)) [
  | inl blank ↦ rw blank (has_template-trim_start s (nor_later _ (has_template s) h))
  | inr other ↦ rw other h
]

whole_template_plain : (s : String) → has_template s ≡ false → whole_template s ≡ none
unfolding whole_template
whole_template_plain s h =
    ap inner_of (no_template_start (trim_start s) (has_template-trim_start s h))

right_false : (a b : Bool) → a ≡ true → (a && b) ≡ false → b ≡ false
right_false true b i h = h
right_false false b i h = cc

same_some {ℓ} : {A : Type ℓ} (x y : A) → some x ≡ some y → x ≡ y
same_some x y h = cc

module _ (S : Std) (J : Serde S) where
  plain_string :
      (s : String) (store : Store S J)
      → has_template s ≡ false
      → materialize_string S J s store ≡ ok (string s)
  unfolding materialize_string string_from
  plain_string s store h = rw (whole_template_plain s h, h) refl

  abbrev is_identity : String → Bool
  is_identity k = k == "server_id" || k == "tool_name"

  same_ok : (x y : Value J.Number) → Path (Result String (Value J.Number)) (ok x) (ok y) → x ≡ y
  same_ok x y h = cc

  kept_string :
      (k s : String) (v : Value J.Number) (store : Store S J)
      → is_identity k ≡ true
      → is_identity_template S J k (string s) ≡ false
      → materialize_input S J (string s) store ≡ ok v
      → v ≡ string s
  unfolding is_identity_template materialize_input
  kept_string k s v store i free h =
      same_ok v (string s)
        (sym h ∙ plain_string s store (right_false (is_identity k) (has_template s) i free))

  free_of :
      (k j s : String) (w : Value J.Number)
      → j ≡ k
      → w ≡ string s
      → is_identity_template S J j w ≡ false
      → is_identity_template S J k (string s) ≡ false
  free_of k j s w same e free =
      ap (λ x. is_identity_template S J k x) (sym e)
      ∙ ap (λ x. is_identity_template S J x w) (sym same)
      ∙ free

  -- The field at the front, if it passed the check.
  kept_first :
      (k j s : String) (w v : Value J.Number) (store : Store S J)
      → is_identity k ≡ true
      → j ≡ k
      → is_identity_template S J j w ≡ false
      → w ≡ string s
      → materialize_input S J w store ≡ ok v
      → v ≡ string s
  unfolding is_identity_template materialize_input
  kept_first k j s w v store i same free e h =
      kept_string k s v store i (free_of k j s w same e free)
        (ap (λ x. materialize_input S J x store) (sym e) ∙ h)

  field_kept :
      (k j s : String) (w v : Value J.Number) (o b : Fields J.Number) (store : Store S J)
      → is_identity k ≡ true
      → is_identity_template S J j w ≡ false
      → materialize_input S J w store ≡ ok v
      → (get_field k o ≡ some (string s) → get_field k b ≡ some (string s))
      → get_field k (field j w o) ≡ some (string s)
      → get_field k (field j v b) ≡ some (string s)
  field_kept k j s w v o b store i free h g found = elim (Bool-cases (j == k)) [
    | inl same ↦
        let here = if_true (j == k) _ _ _ same found in
        rw same (
          ap some
            (kept_first k j s w v store i (eq→path j k same) free (same_some w (string s) here) h))
    | inr other ↦ rw other (g (if_false (j == k) _ _ _ other found))
  ]

  denied {ℓ} :
      {T : Type ℓ} {e : String} (b : Fields J.Number)
      → Path (Result String (Fields J.Number)) (err e) (ok b)
      → T
  denied b h = cc

  -- What a materialized field and the fields after it are.
  joined :
      (j : String) (x : Result String (Value J.Number)) (y : Result String (Fields J.Number))
      (b : Fields J.Number)
      → and_then x (λ w. and_then y (λ rest. ok (field j w rest))) ≡ ok b
      → (w : Value J.Number) × (rest : Fields J.Number) × (x ≡ ok w)
        × (y ≡ ok rest)
        × (b ≡ field j w rest)
  joined j (err e) y b h = cc
  joined j (ok w) (err e) b h = cc
  joined j (ok w) (ok rest) b h = (w, rest, refl, refl, cc)

  an_object :
      (x : Result String (Fields J.Number)) (v : Value J.Number)
      → and_then x (λ b. ok (object b)) ≡ ok v
      → (b : Fields J.Number) × (x ≡ ok b) × (v ≡ object b)
  an_object (err e) v h = cc
  an_object (ok b) v h = (b, refl, cc)

  identity_field : (k : String) → (k ≡ "server_id") ⊎ (k ≡ "tool_name") → is_identity k ≡ true
  identity_field k (inl a) = rw a refl
  identity_field k (inr a) = rw a refl

  fields_kept :
      (k s : String) (store : Store S J) (o b : Fields J.Number)
      → is_identity k ≡ true
      → materialize_fields S J o store ≡ ok b
      → get_field k o ≡ some (string s)
      → get_field k b ≡ some (string s)
  unfolding materialize_input
  fields_kept k s store end b i h found = cc
  fields_kept k s store (field j w o) b i h found =
      elim (Bool-cases (is_identity_template S J j w)) [
        | inl bad ↦ denied b (if_true (is_identity_template S J j w) _ _ _ bad h)
        | inr free ↦
            let (v, rest, at_v, at_rest, form) =
              joined j (materialize_input S J w store) (materialize_fields S J o store) b
                (if_false (is_identity_template S J j w) _ _ _ free h) in
            ap (get_field k) form
            ∙ field_kept k j s w v o rest store i free at_v
                (λ later. fields_kept k s store o rest i at_rest later) found
      ]

  -- The strings that name the server and the tool of an action are what the definition says,
  -- whatever the variables are, if the input can be materialized.
  pub materialize_input-identity :
      (k s : String) (store : Store S J) (o : Fields J.Number) (v : Value J.Number)
      → (k ≡ "server_id") ⊎ (k ≡ "tool_name")
      → get_field k o ≡ some (string s)
      → materialize_input S J (object o) store ≡ ok v
      → (b : Fields J.Number) × (v ≡ object b) × (get_field k b ≡ some (string s))
  unfolding materialize_input
  materialize_input-identity k s store o v i found h =
      let (b, at_b, form) = an_object (materialize_fields S J o store) v h in
      (b, form, fields_kept k s store o b (identity_field k i) at_b found)
