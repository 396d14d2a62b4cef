-- ===== src/Domain/Action/Namespace.antt =====
-- The types of actions that a plugin owns.
use Prim.Native.Char.{Char, char, code}
use Prim.Native.String as Text
use Prim.Native.String.{◌++◌ as ◌append◌}
use text.Mathlib.TextEquality.{Char-path}
use text.Mathlib.TextLemmas.{nil-append, cons-append}
use aura_launcher.Common.{
  ◌≡◌, ◌≢◌, refl, String, Bool, true, false, Option, none, some, ap, sym, ◌∙◌, ◌↔◌, ◌⊎◌, inl, inr,
  arith, nat_eqb, nat_eqb_iff, Bool-cases, ◌==◌, string_eq, eq→path, eq_self, if◌then◌else◌, ◌||◌,
}
use aura_launcher.Domain.Action.{
  strip_prefix, owns_plugin_namespace, is_empty, at_dot, starts_with_dot,
}

same_char : (c d : Char) → nat_eqb (code c) (code d) ≡ true → c ≡ d
same_char c d h = Char-path c d ((nat_eqb_iff (code c) (code d)).0 h)

no_rest :
    (b : Bool) (o : Option String) (r : String) → b ≡ false → (if b then o else none) ≡ some r → ⊥
no_rest true o r e h = cc
no_rest false o r e h = cc

rest_there :
    (b : Bool) (o : Option String) (r : String)
    → b ≡ true
    → (if b then o else none) ≡ some r
    → o ≡ some r
rest_there true o r e h = h
rest_there false o r e h = cc

cons_path :
    (c d : Char) (s p r : String) → c ≡ d → s ≡ p append r → Text.◌∷◌ d s ≡ (Text.◌∷◌ c p) append r
cons_path c d s p r e h =
    sym (cons-append c p r ∙ ap (λ x. Text.◌∷◌ x (p append r)) e ∙ ap (λ x. Text.◌∷◌ d x) (sym h))

some_text : (x y : String) → some x ≡ some y → x ≡ y
some_text x y h = cc

pub strip_prefix_sound : (p s r : String) → strip_prefix p s ≡ some r → s ≡ p append r
unfolding strip_prefix
strip_prefix_sound Text.[] s r h = some_text s r h ∙ sym (nil-append r)
strip_prefix_sound (Text.◌∷◌ c p) Text.[] r h = cc
strip_prefix_sound (Text.◌∷◌ c p) (Text.◌∷◌ d s) r h =
    elim (Bool-cases (nat_eqb (code c) (code d))) [
      | inl same ↦ cons_path c d s p r (same_char c d same) (
          strip_prefix_sound p s r
            (rest_there (nat_eqb (code c) (code d)) (strip_prefix p s) r same h))
      | inr differs ↦ absurd (no_rest (nat_eqb (code c) (code d)) (strip_prefix p s) r differs h)
    ]

pub strip_prefix_append : (p r : String) → strip_prefix p (p append r) ≡ some r
unfolding strip_prefix
strip_prefix_append Text.[] r = ap some (nil-append r)
strip_prefix_append (Text.◌∷◌ c p) r =
    rw (cons-append c p r, (nat_eqb_iff (code c) (code c)).1 refl) (strip_prefix_append p r)

abbrev dot : Char
dot = char 46 tt

-- The text is not empty, and its first character is a dot.
dotted_form : (r : String) → starts_with_dot r ≡ true → (t : String) × (r ≡ "." append t)
dotted_form Text.[] h = cc
dotted_form (Text.◌∷◌ c s) h = (
  s,
  ap (λ d. Text.◌∷◌ d s) (Char-path c dot ((nat_eqb_iff (code c) 46).0 h))
      ∙ sym (cons-append dot Text.[] s ∙ ap (λ x. Text.◌∷◌ dot x) (nil-append s)),
)

at_dot_form :
    (owner target : String) (o : Option String)
    → strip_prefix owner target ≡ o
    → at_dot o ≡ true
    → (t : String) × (target ≡ owner append ("." append t))
at_dot_form owner target none e h = cc
at_dot_form owner target (some r) e h =
    let (t, form) = dotted_form r h in
    (t, strip_prefix_sound owner target r e ∙ ap (λ x. owner append x) form)

-- The target is the owner, or extends it after a dot.
abbrev pub Owned : String → String → Type 0
Owned owner target = (target ≡ owner) ⊎ ((t : String) × (target ≡ owner append ("." append t)))

Owned-from :
    (owner target : String) (same dot : Bool)
    → ((target == owner) ≡ same)
    → (at_dot (strip_prefix owner target) ≡ dot)
    → (same || dot) ≡ true
    → Owned owner target
Owned-from owner target true dot e d h = inl (eq→path target owner e)
Owned-from owner target false true e d h =
    inr (at_dot_form owner target (strip_prefix owner target) refl d)
Owned-from owner target false false e d h = cc

Owned-sound :
    (owner target : String) → owns_plugin_namespace owner target ≡ true → Owned owner target
unfolding owns_plugin_namespace
Owned-sound owner target h =
    Owned-from owner target (target == owner) (at_dot (strip_prefix owner target)) refl refl
      (ground arith)

longer_nonempty :
    (owner target r : String)
    → is_empty owner ≡ false
    → target ≡ owner append r
    → is_empty target ≡ false
longer_nonempty Text.[] target r o form = cc
longer_nonempty (Text.◌∷◌ c s) target r o form = ap is_empty (form ∙ cons-append c s r)

dotted_starts : (t : String) → starts_with_dot ("." append t) ≡ true
dotted_starts t = ap starts_with_dot (cons-append dot Text.[] t)

Owned-complete :
    (owner target : String)
    → is_empty owner ≡ false
    → Owned owner target
    → owns_plugin_namespace owner target ≡ true
unfolding owns_plugin_namespace
Owned-complete owner target o (inl same) = ground (arith, eq_self owner)
Owned-complete owner target o (inr (t, form)) = ground (
  arith,
  longer_nonempty owner target ("." append t) o form,
  ap at_dot (ap (λ x. strip_prefix owner x) form ∙ strip_prefix_append owner ("." append t))
      ∙ dotted_starts t,
)

nonempty : (s : String) → s ≢ "" → is_empty s ≡ false
nonempty Text.[] g = absurd (g refl)
nonempty (Text.◌∷◌ c s) g = refl

-- A plugin that has an id owns exactly the targets that are its id or extend it after a dot.
pub owns_plugin_namespace_iff :
    (owner target : String)
    → owner ≢ ""
    → (owns_plugin_namespace owner target ≡ true) ↔ Owned owner target
owns_plugin_namespace_iff owner target h =
    (Owned-sound owner target, Owned-complete owner target (nonempty owner h))
