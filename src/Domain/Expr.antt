-- ===== src/Domain/Expr.antt =====
-- The condition language of workflows (crates/launcher-domain/src/expr.rs): values, expressions
-- and their evaluation. `Std` holds what the code uses of `f64` and of the Unicode classes of
-- `char`; an object's entries are a list.
pub mod Lexer
pub mod Parser
pub mod Total
pub mod Types
pub mod Typing
pub mod Printing
pub mod Tests
use Prim.Native.Nat.{Ordering}
use Prim.Native.Char.{Char}
use Prim.Native.String.{compare, find as find_text, len}
use text.Mathlib.Text.{starts_with as text_starts}
use mathlib.Core.Bool.{not as bool_not}
use aura_launcher.Common.{
  ℕ, ◌+◌, ◌-◌, ◌≡◌, String, Bool, true, false, ◌&&◌, ◌||◌, Option, none, some, List, [], ◌∷◌,
  string_eq, ◌==◌, nat_eqb, leb, Result, ok, err, and_then, if◌then◌else◌,
}

pub record Std : Type 1 where
  pub Float : Type 0
  pub parse_float : String → Option Float
  pub float_eq : Float → Float → Bool
  pub partial_cmp : Float → Float → Option Ordering
  pub alphabetic : Char → Bool
  pub alphanumeric : Char → Bool
  -- `is_alphanumeric` is `is_alphabetic` or `is_numeric`.
  pub letter : (c : Char) → alphabetic c ≡ true → alphanumeric c ≡ true

mutual
  pub data Value (F : Type 0) : Type 0 where
    null : Value F
    bool : Bool → Value F
    number : F → Value F
    string : String → Value F
    array : Values F → Value F
    object : Fields F → Value F

  pub data Values (F : Type 0) : Type 0 where
    nil : Values F
    cons : Value F → Values F → Values F

  pub data Fields (F : Type 0) : Type 0 where
    end : Fields F
    field : String → Value F → Fields F → Fields F

pub data Expr (F : Type 0) : Type 0 where
  literal : Value F → Expr F
  ref : String → Expr F
  eq ne lt le gt ge : Expr F → Expr F → Expr F
  contains starts_with ends_with : Expr F → Expr F → Expr F
  exists not : Expr F → Expr F
  and or : Expr F → Expr F → Expr F

pub data ExprError : Type 0 where
  parse : String → ExprError
  too_deep : ℕ → ExprError
  type_mismatch : String → String → ExprError
  unknown_ref output_path_not_found : String → ExprError

module _ {F : Type 0} where
  abbrev pub type_name : Value F → String
  type_name null = "null"
  type_name (bool b) = "bool"
  type_name (number n) = "number"
  type_name (string s) = "string"
  type_name (array a) = "array"
  type_name (object o) = "object"

  abbrev pub get_field : String → Fields F → Option (Value F)
  get_field k end = none
  get_field k (field j v rest) = if j == k then some v else get_field k rest

  abbrev pub fields_len : Fields F → ℕ
  fields_len end = 0
  fields_len (field k v rest) = fields_len rest + 1

  abbrev pub expect_bool : Value F → Result ExprError Bool
  expect_bool (bool b) = ok b
  expect_bool null = err (type_mismatch "null" "bool")
  expect_bool (number n) = err (type_mismatch "number" "bool")
  expect_bool (string s) = err (type_mismatch "string" "bool")
  expect_bool (array a) = err (type_mismatch "array" "bool")
  expect_bool (object o) = err (type_mismatch "object" "bool")

-- `h.contains(n)` and `h.ends_with(n)` of `str`.
abbrev pub text_contains : String → String → Bool
text_contains h n = leb (find_text h n) (len h)

abbrev pub text_ends : String → String → Bool
text_ends h n = leb (len n) (len h) && (Prim.Native.String.slice h (len h - len n) (len h) == n)

-- `map(test).unwrap_or(false)`
abbrev pub holds_of {ℓ} : {A : Type ℓ} → (A → Bool) → Option A → Bool
holds_of test none = false
holds_of test (some a) = test a

abbrev pub is_less : Ordering → Bool
is_less Ordering.lt = true
is_less _ = false

abbrev pub is_greater : Ordering → Bool
is_greater Ordering.gt = true
is_greater _ = false

module _ (S : Std) where
  abbrev pub Val : Type 0
  Val = Value S.Float

  unfoldable mutual
    pub values_equal : Value S.Float → Value S.Float → Bool
    values_equal null null = true
    values_equal (bool x) (bool y) = if x then y else bool_not y
    values_equal (number x) (number y) = S.float_eq x y
    values_equal (string x) (string y) = x == y
    values_equal (array x) (array y) = items_equal x y
    values_equal (object x) (object y) = nat_eqb (fields_len x) (fields_len y) && fields_equal x y
    values_equal _ _ = false

    pub items_equal : Values S.Float → Values S.Float → Bool
    items_equal nil nil = true
    items_equal (cons a x) (cons b y) = values_equal a b && items_equal x y
    items_equal _ _ = false

    pub fields_equal : Fields S.Float → Fields S.Float → Bool
    fields_equal end y = true
    fields_equal (field k v x) y =
        holds_of (λ w. values_equal v w) (get_field k y) && fields_equal x y

  abbrev pub number_order : Option Ordering → Result ExprError Ordering
  number_order (some o) = ok o
  number_order none = err (type_mismatch "number" "number")

  abbrev pub ordered : Val → Val → Result ExprError Ordering
  ordered (number x) (number y) = number_order (S.partial_cmp x y)
  ordered (string x) (string y) = ok (compare x y)
  ordered a b = err (type_mismatch (type_name a) (type_name b))

  unfoldable pub any_equal : Values S.Float → Val → Bool
  unfolding values_equal
  any_equal nil v = false
  any_equal (cons a x) v = values_equal a v || any_equal x v

  unfoldable pub contained : Val → Val → Result ExprError Bool
  unfolding any_equal
  contained (string h) (string n) = ok (text_contains h n)
  contained (array h) other = ok (any_equal h other)
  contained null b = ok false
  contained a null = ok false
  contained a b = err (type_mismatch (type_name a) (type_name b))

  abbrev pub text_test : (String → String → Bool) → Val → Val → Result ExprError Bool
  text_test test (string h) (string n) = ok (test h n)
  text_test test a b = err (type_mismatch (type_name a) (type_name b))

  abbrev pub or_null : Option Val → Val
  or_null none = null
  or_null (some v) = v

  abbrev is_set : Option Val → Bool
  is_set none = false
  is_set (some v) = true

  abbrev pub is_ref_set : (String → Option Val) → Expr S.Float → Bool
  is_ref_set resolve (ref path) = is_set (resolve path)
  is_ref_set resolve _ = false

  module _ (resolve : String → Option Val) where
    -- A test of two values that are evaluated in turn.
    abbrev pub both :
        Result ExprError Val
        → Result ExprError Val
        → (Val → Val → Result ExprError Bool)
        → Result ExprError Val
    both a b test = and_then a (λ va. and_then b (λ vb. and_then (test va vb) (λ t. ok (bool t))))

    abbrev pub order_test : (Ordering → Bool) → Val → Val → Result ExprError Bool
    order_test test va vb = and_then (ordered va vb) (λ o. ok (test o))

    abbrev pub both_bools :
        Result ExprError Val → Result ExprError Val → (Bool → Bool → Bool) → Result ExprError Val
    both_bools a b op = and_then a (λ va.
        and_then (expect_bool va)
          (λ x. and_then b (λ vb. and_then (expect_bool vb) (λ y. ok (bool (op x y))))))

    unfoldable pub eval_inner : Expr S.Float → Result ExprError Val
    unfolding values_equal contained
    eval_inner (literal v) = ok v
    eval_inner (ref r) = ok (or_null (resolve r))
    eval_inner (exists e) = ok (bool (is_ref_set resolve e))
    eval_inner (not e) =
        and_then (eval_inner e) (λ v. and_then (expect_bool v) (λ b. ok (bool (bool_not b))))
    eval_inner (and a b) = both_bools (eval_inner a) (eval_inner b) (λ x y. x && y)
    eval_inner (or a b) = both_bools (eval_inner a) (eval_inner b) (λ x y. x || y)
    eval_inner (eq a b) = both (eval_inner a) (eval_inner b) (λ x y. ok (values_equal x y))
    eval_inner (ne a b) =
        both (eval_inner a) (eval_inner b) (λ x y. ok (bool_not (values_equal x y)))
    eval_inner (lt a b) = both (eval_inner a) (eval_inner b) (order_test is_less)
    eval_inner (le a b) =
        both (eval_inner a) (eval_inner b) (order_test (λ o. bool_not (is_greater o)))
    eval_inner (gt a b) = both (eval_inner a) (eval_inner b) (order_test is_greater)
    eval_inner (ge a b) =
        both (eval_inner a) (eval_inner b) (order_test (λ o. bool_not (is_less o)))
    eval_inner (contains a b) = both (eval_inner a) (eval_inner b) contained
    eval_inner (starts_with a b) = both (eval_inner a) (eval_inner b) (text_test text_starts)
    eval_inner (ends_with a b) = both (eval_inner a) (eval_inner b) (text_test text_ends)

    unfoldable pub evaluate : Expr S.Float → Result ExprError Val
    unfolding eval_inner
    evaluate e = eval_inner e
