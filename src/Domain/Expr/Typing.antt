-- ===== src/Domain/Expr/Typing.antt =====
-- Typed expressions do not go wrong.
use aura_launcher.Domain.Expr.Types.{
  Ty, t_null, t_bool, t_number, t_string, t_array, t_object, ty, Comparable, numbers, strings,
  Searchable, in_string, in_array, in_null, of_null, number_form, string_form, array_form,
  null_form,
}
use aura_launcher.Common.{◌≡◌, refl, String, Bool, Option, none, some, Result, ok, err, and_then}
use Prim.Native.Nat.{Ordering}
use mathlib.Core.Bool.{not as bool_not, ◌&&◌, ◌||◌}
use text.Mathlib.Text.{starts_with as text_starts}
use aura_launcher.Domain.Expr.{
  Std, Val, null, bool, number, string, array, object, Expr, literal, ref, eq, ne, lt, le, gt, ge,
  contains, starts_with, ends_with, exists, not, and, or, ExprError, type_mismatch, expect_bool,
  number_order, contained, text_test, both, both_bools, order_test, values_equal, eval_inner,
  evaluate, is_less, is_greater, text_ends,
}

module _ (S : Std) where
  -- The type of an expression over the types of the references.
  pub data HasType (Γ : String → Option Ty) : Expr S.Float → Ty → Type 0 where
    for_literal : (v : Val S) → HasType Γ (literal v) (ty v)
    for_ref : {r : String} {τ : Ty} → Γ r ≡ some τ → HasType Γ (ref r) τ
    for_exists : (e : Expr S.Float) → HasType Γ (exists e) t_bool
    for_not : {e : Expr S.Float} → HasType Γ e t_bool → HasType Γ (not e) t_bool
    for_and :
        {a b : Expr S.Float} → HasType Γ a t_bool → HasType Γ b t_bool → HasType Γ (and a b) t_bool
    for_or :
        {a b : Expr S.Float} → HasType Γ a t_bool → HasType Γ b t_bool → HasType Γ (or a b) t_bool
    for_eq :
        {a b : Expr S.Float} {σ τ : Ty} → HasType Γ a σ → HasType Γ b τ → HasType Γ (eq a b) t_bool
    for_ne :
        {a b : Expr S.Float} {σ τ : Ty} → HasType Γ a σ → HasType Γ b τ → HasType Γ (ne a b) t_bool
    for_lt :
        {a b : Expr S.Float} {σ τ : Ty}
        → HasType Γ a σ
        → HasType Γ b τ
        → Comparable σ τ
        → HasType Γ (lt a b) t_bool
    for_le :
        {a b : Expr S.Float} {σ τ : Ty}
        → HasType Γ a σ
        → HasType Γ b τ
        → Comparable σ τ
        → HasType Γ (le a b) t_bool
    for_gt :
        {a b : Expr S.Float} {σ τ : Ty}
        → HasType Γ a σ
        → HasType Γ b τ
        → Comparable σ τ
        → HasType Γ (gt a b) t_bool
    for_ge :
        {a b : Expr S.Float} {σ τ : Ty}
        → HasType Γ a σ
        → HasType Γ b τ
        → Comparable σ τ
        → HasType Γ (ge a b) t_bool
    for_contains :
        {a b : Expr S.Float} {σ τ : Ty}
        → HasType Γ a σ
        → HasType Γ b τ
        → Searchable σ τ
        → HasType Γ (contains a b) t_bool
    for_starts_with :
        {a b : Expr S.Float}
        → HasType Γ a t_string
        → HasType Γ b t_string
        → HasType Γ (starts_with a b) t_bool
    for_ends_with :
        {a b : Expr S.Float}
        → HasType Γ a t_string
        → HasType Γ b t_string
        → HasType Γ (ends_with a b) t_bool

  -- A value of the type, or the error of an ordered comparison with a number that is not one.
  abbrev pub IsSafe : Ty → Result ExprError (Val S) → Type 0
  IsSafe τ (ok v) = ty v ≡ τ
  IsSafe τ (err e) = e ≡ type_mismatch "number" "number"

  abbrev TestSafe : Result ExprError Bool → Type 0
  TestSafe (ok b) = Unit
  TestSafe (err e) = e ≡ type_mismatch "number" "number"

  test_safe :
      (r : Result ExprError Bool) → TestSafe r → IsSafe t_bool (and_then r (λ t. ok (bool t)))
  test_safe (ok b) h = refl
  test_safe (err e) h = h

  both-IsSafe :
      (a b : Result ExprError (Val S)) (σ τ : Ty) (test : Val S → Val S → Result ExprError Bool)
      (resolve : String → Option (Val S))
      → IsSafe σ a
      → IsSafe τ b
      → ((x y : Val S) → ty x ≡ σ → ty y ≡ τ → TestSafe (test x y))
      → IsSafe t_bool (both S resolve a b test)
  both-IsSafe (err e) b σ τ test resolve ha hb g = ha
  both-IsSafe (ok x) (err e) σ τ test resolve ha hb g = hb
  both-IsSafe (ok x) (ok y) σ τ test resolve ha hb g = test_safe (test x y) (g x y ha hb)

  bools-IsSafe :
      (a b : Result ExprError (Val S)) (op : Bool → Bool → Bool) (resolve : String → Option (Val S))
      → IsSafe t_bool a
      → IsSafe t_bool b
      → IsSafe t_bool (both_bools S resolve a b op)
  bools-IsSafe (err e) b op resolve ha hb = ha
  bools-IsSafe (ok (bool x)) (err e) op resolve ha hb = hb
  bools-IsSafe (ok (bool x)) (ok (bool y)) op resolve ha hb = refl
  bools-IsSafe (ok (bool x)) (ok null) op resolve ha hb = cc
  bools-IsSafe (ok (bool x)) (ok (number n)) op resolve ha hb = cc
  bools-IsSafe (ok (bool x)) (ok (string s)) op resolve ha hb = cc
  bools-IsSafe (ok (bool x)) (ok (array l)) op resolve ha hb = cc
  bools-IsSafe (ok (bool x)) (ok (object o)) op resolve ha hb = cc
  bools-IsSafe (ok null) b op resolve ha hb = cc
  bools-IsSafe (ok (number n)) b op resolve ha hb = cc
  bools-IsSafe (ok (string s)) b op resolve ha hb = cc
  bools-IsSafe (ok (array l)) b op resolve ha hb = cc
  bools-IsSafe (ok (object o)) b op resolve ha hb = cc

  not-IsSafe :
      (a : Result ExprError (Val S))
      → IsSafe t_bool a
      → IsSafe t_bool (and_then a (λ v. and_then (expect_bool v) (λ b. ok (bool (bool_not b)))))
  not-IsSafe (err e) h = h
  not-IsSafe (ok (bool b)) h = refl
  not-IsSafe (ok null) h = cc
  not-IsSafe (ok (number n)) h = cc
  not-IsSafe (ok (string s)) h = cc
  not-IsSafe (ok (array l)) h = cc
  not-IsSafe (ok (object o)) h = cc

  number_order_safe :
      (test : Ordering → Bool) (o : Option Ordering)
      → TestSafe (and_then (number_order S o) (λ x. ok (test x)))
  number_order_safe test none = refl
  number_order_safe test (some o) = tt

  order_safe :
      (test : Ordering → Bool) (resolve : String → Option (Val S)) (σ τ : Ty) (x y : Val S)
      → Comparable σ τ
      → ty x ≡ σ
      → ty y ≡ τ
      → TestSafe (order_test S resolve test x y)
  order_safe test resolve t_number t_number x y numbers hx hy =
      let (n, ex) = number_form S x hx in
      let (m, ey) = number_form S y hy in rw (ex, ey) (number_order_safe test (S.partial_cmp n m))
  order_safe test resolve t_string t_string x y strings hx hy =
      rw ((string_form S x hx).1, (string_form S y hy).1) tt
  order_safe test resolve t_null τ x y c hx hy = elim c [ ]
  order_safe test resolve t_bool τ x y c hx hy = elim c [ ]
  order_safe test resolve t_number t_null x y c hx hy = elim c [ ]
  order_safe test resolve t_number t_bool x y c hx hy = elim c [ ]
  order_safe test resolve t_number t_string x y c hx hy = elim c [ ]
  order_safe test resolve t_number t_array x y c hx hy = elim c [ ]
  order_safe test resolve t_number t_object x y c hx hy = elim c [ ]
  order_safe test resolve t_string t_null x y c hx hy = elim c [ ]
  order_safe test resolve t_string t_bool x y c hx hy = elim c [ ]
  order_safe test resolve t_string t_number x y c hx hy = elim c [ ]
  order_safe test resolve t_string t_array x y c hx hy = elim c [ ]
  order_safe test resolve t_string t_object x y c hx hy = elim c [ ]
  order_safe test resolve t_array τ x y c hx hy = elim c [ ]
  order_safe test resolve t_object τ x y c hx hy = elim c [ ]

  contained_null : (x : Val S) → TestSafe (contained S x null)
  unfolding contained
  contained_null null = tt
  contained_null (bool b) = tt
  contained_null (number n) = tt
  contained_null (string s) = tt
  contained_null (array l) = tt
  contained_null (object o) = tt

  contained_safe :
      (σ τ : Ty) (x y : Val S) → Searchable σ τ → ty x ≡ σ → ty y ≡ τ → TestSafe (contained S x y)
  unfolding contained
  contained_safe t_string t_string x y in_string hx hy =
      rw ((string_form S x hx).1, (string_form S y hy).1) tt
  contained_safe t_array τ x y (in_array _) hx hy = rw (array_form S x hx).1 tt
  contained_safe t_null τ x y (in_null _) hx hy = rw (null_form S x hx) tt
  contained_safe σ t_null x y (of_null _) hx hy = rw (null_form S y hy) (contained_null x)

  text_safe :
      (test : String → String → Bool) (x y : Val S)
      → ty x ≡ t_string
      → ty y ≡ t_string
      → TestSafe (text_test S test x y)
  text_safe test x y hx hy = rw ((string_form S x hx).1, (string_form S y hy).1) tt

  module _ (Γ : String → Option Ty) (resolve : String → Option (Val S)) where
    -- Every typed reference is set, to a value of its type.
    abbrev pub Resolves : Type 0
    Resolves =
        (r : String) (τ : Ty) → Γ r ≡ some τ → (v : Val S) × (resolve r ≡ some v) × (ty v ≡ τ)

    inner-IsSafe :
        (e : Expr S.Float) (τ : Ty) → Resolves → HasType Γ e τ → IsSafe τ (eval_inner S resolve e)
    unfolding eval_inner
    inner-IsSafe (literal v) _ g (for_literal _) = refl
    inner-IsSafe (ref r) τ g (for_ref h) = let (v, set, t) = g r τ h in rw set t
    inner-IsSafe (exists e) _ g (for_exists _) = refl
    inner-IsSafe (not e) _ g (for_not h) =
        not-IsSafe (eval_inner S resolve e) (inner-IsSafe e t_bool g h)
    inner-IsSafe (and a b) _ g (for_and ha hb) =
        bools-IsSafe (eval_inner S resolve a) (eval_inner S resolve b) (λ x y. x && y) resolve
          (inner-IsSafe a t_bool g ha) (inner-IsSafe b t_bool g hb)
    inner-IsSafe (or a b) _ g (for_or ha hb) =
        bools-IsSafe (eval_inner S resolve a) (eval_inner S resolve b) (λ x y. x || y) resolve
          (inner-IsSafe a t_bool g ha) (inner-IsSafe b t_bool g hb)
    inner-IsSafe (eq a b) _ g (for_eq {σ = σ} {τ = τ} ha hb) =
        both-IsSafe (eval_inner S resolve a) (eval_inner S resolve b) σ τ
          (λ x y. ok (values_equal S x y)) resolve (inner-IsSafe a σ g ha) (inner-IsSafe b τ g hb)
          (λ x y _ _. tt)
    inner-IsSafe (ne a b) _ g (for_ne {σ = σ} {τ = τ} ha hb) =
        both-IsSafe (eval_inner S resolve a) (eval_inner S resolve b) σ τ
          (λ x y. ok (bool_not (values_equal S x y))) resolve (inner-IsSafe a σ g ha)
          (inner-IsSafe b τ g hb) (λ x y _ _. tt)
    inner-IsSafe (lt a b) _ g (for_lt {σ = σ} {τ = τ} ha hb c) =
        both-IsSafe (eval_inner S resolve a) (eval_inner S resolve b) σ τ
          (order_test S resolve (is_less)) resolve (inner-IsSafe a σ g ha) (inner-IsSafe b τ g hb)
          (λ x y hx hy. order_safe (is_less) resolve σ τ x y c hx hy)
    inner-IsSafe (le a b) _ g (for_le {σ = σ} {τ = τ} ha hb c) =
        both-IsSafe (eval_inner S resolve a) (eval_inner S resolve b) σ τ
          (order_test S resolve (λ o. bool_not (is_greater o))) resolve (inner-IsSafe a σ g ha)
          (inner-IsSafe b τ g hb)
          (λ x y hx hy. order_safe (λ o. bool_not (is_greater o)) resolve σ τ x y c hx hy)
    inner-IsSafe (gt a b) _ g (for_gt {σ = σ} {τ = τ} ha hb c) =
        both-IsSafe (eval_inner S resolve a) (eval_inner S resolve b) σ τ
          (order_test S resolve (is_greater)) resolve (inner-IsSafe a σ g ha)
          (inner-IsSafe b τ g hb) (λ x y hx hy. order_safe (is_greater) resolve σ τ x y c hx hy)
    inner-IsSafe (ge a b) _ g (for_ge {σ = σ} {τ = τ} ha hb c) =
        both-IsSafe (eval_inner S resolve a) (eval_inner S resolve b) σ τ
          (order_test S resolve (λ o. bool_not (is_less o))) resolve (inner-IsSafe a σ g ha)
          (inner-IsSafe b τ g hb)
          (λ x y hx hy. order_safe (λ o. bool_not (is_less o)) resolve σ τ x y c hx hy)
    inner-IsSafe (contains a b) _ g (for_contains {σ = σ} {τ = τ} ha hb c) =
        both-IsSafe (eval_inner S resolve a) (eval_inner S resolve b) σ τ (contained S) resolve
          (inner-IsSafe a σ g ha) (inner-IsSafe b τ g hb)
          (λ x y hx hy. contained_safe σ τ x y c hx hy)
    inner-IsSafe (starts_with a b) _ g (for_starts_with ha hb) =
        both-IsSafe (eval_inner S resolve a) (eval_inner S resolve b) t_string t_string
          (text_test S text_starts) resolve (inner-IsSafe a t_string g ha)
          (inner-IsSafe b t_string g hb) (text_safe text_starts)
    inner-IsSafe (ends_with a b) _ g (for_ends_with ha hb) =
        both-IsSafe (eval_inner S resolve a) (eval_inner S resolve b) t_string t_string
          (text_test S text_ends) resolve (inner-IsSafe a t_string g ha)
          (inner-IsSafe b t_string g hb) (text_safe text_ends)

    -- A typed expression, under references that are set as typed, evaluates to a value of its
    -- type; the one error it can return is that of an ordered comparison of two numbers of which
    -- one is not a number.
    pub evaluate-IsSafe :
        (e : Expr S.Float) (τ : Ty) → Resolves → HasType Γ e τ → IsSafe τ (evaluate S resolve e)
    unfolding evaluate
    evaluate-IsSafe e τ g h = inner-IsSafe e τ g h
