-- ===== src/Domain/Expr/Parser.antt =====
-- The parser of the condition language (`Parser` of expr.rs). The position in the tokens is the
-- rest of them, and the depth counter is the number of levels left below `MAX_DEPTH`. Each loop
-- takes a round for each token left and one more; `none` is a loop out of rounds.
use aura_launcher.Common.{
  ℕ, zero, suc, String, Bool, true, false, Option, none, some, List, [], ◌∷◌, length, string_eq,
  ◌==◌, Result, ok, err, if◌then◌else◌,
}
use aura_launcher.Domain.Expr.{
  Std, bool, number, string, null, Expr, literal, ref, eq, ne, lt, le, gt, ge, contains,
  starts_with, ends_with, exists, not, and, or, ExprError, parse, too_deep,
}
use aura_launcher.Domain.Expr.Lexer.{
  Tok, ident, dotted, quoted, numeral, sym, open_paren, close_paren, eq_eq, not_eq, less_eq, less,
  greater_eq, greater, tokenize,
}

abbrev pub max_depth : ℕ
max_depth = 32

-- The operators after the first operand.
pub data Operator : Type 0 where
  op_eq op_ne op_lt op_le op_gt op_ge op_contains op_starts_with op_ends_with : Operator

abbrev pub word_operator : String → Option Operator
word_operator w =
    if w == "contains"
    then some op_contains
    else if w == "starts_with"
    then some op_starts_with
    else if w == "ends_with"
    then some op_ends_with
    else none

-- A parser takes tokens and leaves the rest.
abbrev pub Parsed : Type 0 → Type 0
Parsed F = Option (Result ExprError (Expr F × List (Tok F)))

abbrev pub Parse : Type 0 → Type 0
Parse F = List (Tok F) → Parsed F

abbrev pub bind {ℓ κ} :
    {A : Type ℓ} {B : Type κ}
    → Option (Result ExprError A)
    → (A → Option (Result ExprError B))
    → Option (Result ExprError B)
bind none next = none
bind (some (err e)) next = some (err e)
bind (some (ok a)) next = next a

module _ {F : Type 0} where
  abbrev pub word_rest : Bool → List (Tok F) → Option (List (Tok F))
  word_rest true toks = some toks
  word_rest false toks = none

  -- The tokens after a leading word.
  abbrev pub strip : String → List (Tok F) → Option (List (Tok F))
  strip w (ident v ∷ toks) = word_rest (v == w) toks
  strip w _ = none

  abbrev pub chain_from : Option (List (Tok F)) → Expr F → List (Tok F) → Parse F → Parsed F
  chain_from none left toks next = some (ok (left, toks))
  chain_from (some rest) left toks next = next rest

  -- `while self.peek() == Some(&Tok::Ident(word)) { .. }`
  unfoldable pub chain :
      ℕ → String → Parse F → (Expr F → Expr F → Expr F) → Expr F → List (Tok F) → Parsed F
  chain zero w operand build left toks = none
  chain (suc fuel) w operand build left toks =
      chain_from (strip w toks) left toks
        (λ rest. bind (operand rest) (λ p. chain fuel w operand build (build left p.0) p.1))

  unfoldable pub and_expr : Parse F → List (Tok F) → Parsed F
  unfolding chain
  and_expr operand toks =
      bind (operand toks) (λ p. chain (suc (length p.1)) "and" operand and p.0 p.1)

  unfoldable pub or_expr : Parse F → List (Tok F) → Parsed F
  unfolding and_expr
  or_expr operand toks =
      bind (and_expr operand toks)
        (λ p. chain (suc (length p.1)) "or" (and_expr operand) or p.0 p.1)

  abbrev pub build : Operator → Expr F → Expr F → Expr F
  build op_eq l r = eq l r
  build op_ne l r = ne l r
  build op_lt l r = lt l r
  build op_le l r = le l r
  build op_gt l r = gt l r
  build op_ge l r = ge l r
  build op_contains l r = contains l r
  build op_starts_with l r = starts_with l r
  build op_ends_with l r = ends_with l r

  abbrev pub operator_of : Tok F → Option Operator
  operator_of (sym eq_eq) = some op_eq
  operator_of (sym not_eq) = some op_ne
  operator_of (sym less) = some op_lt
  operator_of (sym less_eq) = some op_le
  operator_of (sym greater) = some op_gt
  operator_of (sym greater_eq) = some op_ge
  operator_of (ident w) = word_operator w
  operator_of _ = none

  abbrev pub is_word : String → Tok F → Bool
  is_word w (ident v) = v == w
  is_word w _ = false

  abbrev pub compare_with : Option Operator → Parse F → Expr F → Tok F → List (Tok F) → Parsed F
  compare_with none operand left t toks =
      if is_word "exists" t then some (ok (exists left, toks)) else some (ok (left, t ∷ toks))
  compare_with (some op) operand left t toks =
      bind (operand toks) (λ p. some (ok (build op left p.0, p.1)))

  abbrev pub compare_from : Parse F → Expr F → List (Tok F) → Parsed F
  compare_from operand left [] = some (ok (left, []))
  compare_from operand left (t ∷ toks) = compare_with (operator_of t) operand left t toks

  abbrev pub comparison : Parse F → List (Tok F) → Parsed F
  comparison operand toks = bind (operand toks) (λ p. compare_from operand p.0 p.1)

  abbrev pub expect_close : Expr F → List (Tok F) → Parsed F
  expect_close e (sym close_paren ∷ toks) = some (ok (e, toks))
  expect_close e _ = some (err (parse "expected )"))

  abbrev pub word_value : String → List (Tok F) → Parsed F
  word_value w toks =
      if w == "true"
      then some (ok (literal (bool true), toks))
      else if w == "false"
      then some (ok (literal (bool false), toks))
      else if w == "null"
      then some (ok (literal null, toks))
      else some (err (parse "unexpected token"))

  -- The message's account of the token is left out.
  abbrev pub primary : Parse F → List (Tok F) → Parsed F
  primary inner (sym open_paren ∷ toks) = bind (inner toks) (λ p. expect_close p.0 p.1)
  primary inner (numeral n ∷ toks) = some (ok (literal (number n), toks))
  primary inner (quoted s ∷ toks) = some (ok (literal (string s), toks))
  primary inner (ident w ∷ toks) = word_value w toks
  primary inner (dotted r ∷ toks) = some (ok (ref r, toks))
  primary inner _ = some (err (parse "unexpected token"))

  abbrev pub not_from : Option (List (Tok F)) → Parse F → Parsed F → Parsed F
  not_from none operand plain = plain
  not_from (some rest) operand plain = bind (operand rest) (λ p. some (ok (not p.0, p.1)))

  unfoldable mutual
    unfolding or_expr

    pub not_expr : ℕ → List (Tok F) → Parsed F
    not_expr zero toks = some (err (too_deep max_depth))
    not_expr (suc d) toks =
        not_from (strip "not" toks) (λ rest. not_expr d rest)
          (comparison (primary (λ rest. expr d rest)) toks)

    pub expr : ℕ → List (Tok F) → Parsed F
    expr zero toks = some (err (too_deep max_depth))
    expr (suc d) toks = or_expr (λ rest. not_expr d rest) toks

  abbrev pub all_read : Expr F → List (Tok F) → Option (Result ExprError (Expr F))
  all_read e [] = some (ok e)
  all_read e (t ∷ toks) = some (err (parse "trailing tokens"))

  -- `parse_expr` after the lexer.
  unfoldable pub parse_toks : List (Tok F) → Option (Result ExprError (Expr F))
  unfolding not_expr
  parse_toks toks = bind (expr max_depth toks) (λ p. all_read p.0 p.1)

unfoldable pub parse_expr : (S : Std) → String → Option (Result ExprError (Expr S.Float))
unfolding tokenize parse_toks
parse_expr S src = bind (tokenize S src) (λ toks. parse_toks toks)
