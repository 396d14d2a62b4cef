-- ===== src/Domain/Expr/Total.antt =====
-- The parser comes to an end on every text.
use aura_launcher.Common.{
  ℕ, zero, suc, ◌≤◌, ◌<◌, ◌≡◌, refl, String, Bool, true, false, Option, none, some, List, [], ◌∷◌,
  length, Result, ok, err, if◌then◌else◌, arith, Option-cases, inl, inr, string_eq, ◌==◌,
}
use aura_launcher.Domain.Expr.{Std, ExprError, parse, Expr, and, or, not, exists}
use aura_launcher.Domain.Expr.Lexer.{
  Tok, ident, dotted, quoted, numeral, sym, open_paren, close_paren, eq_eq, not_eq, less_eq, less,
  greater_eq, greater, Toks, tokenize,
}
use aura_launcher.Domain.Expr.Lexer.End.{Ends, tokenize-Ends}
use aura_launcher.Domain.Expr.Parser.{
  Parsed, Parse, bind, strip, word_rest, chain, and_expr, or_expr, compare_from, compare_with,
  comparison, operator_of, Operator, is_word, expect_close, word_value, primary, not_from, not_expr,
  expr, all_read, parse_toks, parse_expr, max_depth, build,
}

module _ {F : Type 0} where
  -- A parser that ends, with fewer than `n` tokens left if it succeeds.
  abbrev Below : ℕ → Parsed F → Type 0
  Below n none = ⊥
  Below n (some (err e)) = Unit
  Below n (some (ok (e, rest))) = length rest < n

  abbrev Takes : Parse F → Type 0
  Takes p = (toks : List (Tok F)) → Below (length toks) (p toks)

  bind-Below :
      (n m : ℕ) (r : Parsed F) (next : Expr F × List (Tok F) → Parsed F)
      → Below n r
      → ((p : Expr F × List (Tok F)) → length p.1 < n → Below m (next p))
      → Below m (bind r next)
  bind-Below n m none next h g = h
  bind-Below n m (some (err e)) next h g = tt
  bind-Below n m (some (ok p)) next h g = g p h

  word_shorter :
      (b : Bool) (toks rest : List (Tok F))
      → word_rest b toks ≡ some rest
      → length rest ≤ length toks
  word_shorter true toks rest h = ground arith
  word_shorter false toks rest h = cc

  strip_shorter :
      (w : String) (toks rest : List (Tok F)) → strip w toks ≡ some rest → length rest < length toks
  strip_shorter w [] rest h = cc
  strip_shorter w (ident v ∷ toks) rest h = omega (arith, word_shorter (v == w) toks rest h)
  strip_shorter w (dotted v ∷ toks) rest h = cc
  strip_shorter w (quoted v ∷ toks) rest h = cc
  strip_shorter w (numeral v ∷ toks) rest h = cc
  strip_shorter w (sym v ∷ toks) rest h = cc

  chain-Below :
      (fuel : ℕ) (w : String) (operand : Parse F) (make : Expr F → Expr F → Expr F) (left : Expr F)
      (toks : List (Tok F)) (n : ℕ)
      → Takes operand
      → length toks < fuel
      → length toks < n
      → Below n (chain fuel w operand make left toks)
  unfolding chain
  chain-Below zero w operand make left toks n t f h = absurd (omega arith)
  chain-Below (suc fuel) w operand make left toks n t f h = elim (Option-cases (strip w toks)) [
    | inl ends ↦ rw ends h
    | inr (rest, more) ↦
        let shorter = strip_shorter w toks rest more in
        rw more (
          bind-Below (length rest) n (operand rest)
            (λ p. chain fuel w operand make (make left p.0) p.1) (t rest)
            (λ p g.
              chain-Below fuel w operand make (make left p.0) p.1 n t (omega arith) (omega arith)))
  ]

  and_Takes : (operand : Parse F) → Takes operand → Takes (and_expr operand)
  unfolding and_expr
  and_Takes operand t toks =
      bind-Below (length toks) (length toks) (operand toks)
        (λ p. chain (suc (length p.1)) "and" operand and p.0 p.1) (t toks)
        (λ p h.
          chain-Below (suc (length p.1)) "and" operand and p.0 p.1 (length toks) t (omega arith) h)

  or_Takes : (operand : Parse F) → Takes operand → Takes (or_expr operand)
  unfolding or_expr
  or_Takes operand t toks =
      bind-Below (length toks) (length toks) (and_expr operand toks)
        (λ p. chain (suc (length p.1)) "or" (and_expr operand) or p.0 p.1)
        (and_Takes operand t toks)
        (λ p h.
          chain-Below (suc (length p.1)) "or" (and_expr operand) or p.0 p.1 (length toks)
            (and_Takes operand t) (omega arith) h)

  word-Below :
      (b : Bool) (left : Expr F) (t : Tok F) (toks : List (Tok F)) (n : ℕ)
      → suc (length toks) < n
      → Below n (if b then some (ok (exists left, toks)) else some (ok (left, t ∷ toks)))
  word-Below true left t toks n h = omega arith
  word-Below false left t toks n h = h

  compare_with-Below :
      (o : Option Operator) (operand : Parse F) (left : Expr F) (t : Tok F) (toks : List (Tok F))
      (n : ℕ)
      → Takes operand
      → suc (length toks) < n
      → Below n (compare_with o operand left t toks)
  compare_with-Below none operand left t toks n g h =
      word-Below (is_word "exists" t) left t toks n h
  compare_with-Below (some op) operand left t toks n g h =
      bind-Below (length toks) n (operand toks) (λ p. some (ok (build op left p.0, p.1))) (g toks)
        (λ p k. omega arith)

  compare-Below :
      (operand : Parse F) (left : Expr F) (toks : List (Tok F)) (n : ℕ)
      → Takes operand
      → length toks < n
      → Below n (compare_from operand left toks)
  compare-Below operand left [] n g h = h
  compare-Below operand left (t ∷ toks) n g h =
      compare_with-Below (operator_of t) operand left t toks n g h

  comparison-Takes : (operand : Parse F) → Takes operand → Takes (comparison operand)
  comparison-Takes operand g toks =
      bind-Below (length toks) (length toks) (operand toks) (λ p. compare_from operand p.0 p.1)
        (g toks) (λ p h. compare-Below operand p.0 p.1 (length toks) g h)

  close-Below :
      (e : Expr F) (toks : List (Tok F)) (n : ℕ) → length toks < n → Below n (expect_close e toks)
  close-Below e [] n h = tt
  close-Below e (sym close_paren ∷ toks) n h = omega arith
  close-Below e (sym open_paren ∷ toks) n h = tt
  close-Below e (sym eq_eq ∷ toks) n h = tt
  close-Below e (sym not_eq ∷ toks) n h = tt
  close-Below e (sym less_eq ∷ toks) n h = tt
  close-Below e (sym less ∷ toks) n h = tt
  close-Below e (sym greater_eq ∷ toks) n h = tt
  close-Below e (sym greater ∷ toks) n h = tt
  close-Below e (ident v ∷ toks) n h = tt
  close-Below e (dotted v ∷ toks) n h = tt
  close-Below e (quoted v ∷ toks) n h = tt
  close-Below e (numeral v ∷ toks) n h = tt

  either-Below :
      (n : ℕ) (b : Bool) (x y : Parsed F) → Below n x → Below n y → Below n (if b then x else y)
  either-Below n true x y hx hy = hx
  either-Below n false x y hx hy = hy

  value-Below : (w : String) (toks : List (Tok F)) → Below (suc (length toks)) (word_value w toks)
  value-Below w toks = either-Below (suc (length toks)) (w == "true") _ _ (omega arith) (
      either-Below (suc (length toks)) (w == "false") _ _ (omega arith)
        (either-Below (suc (length toks)) (w == "null") _ _ (omega arith) tt))

  primary-Takes : (inner : Parse F) → Takes inner → Takes (primary inner)
  primary-Takes inner g [] = tt
  primary-Takes inner g (sym open_paren ∷ toks) =
      bind-Below (length toks) (suc (length toks)) (inner toks) (λ p. expect_close p.0 p.1) (g toks)
        (λ p h. close-Below p.0 p.1 (suc (length toks)) (omega arith))
  primary-Takes inner g (sym close_paren ∷ toks) = tt
  primary-Takes inner g (sym eq_eq ∷ toks) = tt
  primary-Takes inner g (sym not_eq ∷ toks) = tt
  primary-Takes inner g (sym less_eq ∷ toks) = tt
  primary-Takes inner g (sym less ∷ toks) = tt
  primary-Takes inner g (sym greater_eq ∷ toks) = tt
  primary-Takes inner g (sym greater ∷ toks) = tt
  primary-Takes inner g (ident w ∷ toks) = value-Below w toks
  primary-Takes inner g (dotted v ∷ toks) = omega arith
  primary-Takes inner g (quoted v ∷ toks) = omega arith
  primary-Takes inner g (numeral v ∷ toks) = omega arith

  not-Takes_from :
      (o : Option (List (Tok F))) (operand : Parse F) (plain : Parsed F) (n : ℕ)
      → Takes operand
      → ((rest : List (Tok F)) → o ≡ some rest → length rest < n)
      → Below n plain
      → Below n (not_from o operand plain)
  not-Takes_from none operand plain n g s h = h
  not-Takes_from (some rest) operand plain n g s h =
      bind-Below (length rest) n (operand rest) (λ p. some (ok (not p.0, p.1))) (g rest)
        (λ p k. omega (arith, s rest refl))

  mutual
    unfolding not_expr

    not_expr-Takes : (d : ℕ) → Takes (λ toks. not_expr d toks)
    not_expr-Takes zero toks = tt
    not_expr-Takes (suc d) toks =
        not-Takes_from (strip "not" toks) (λ rest. not_expr d rest)
          (comparison (primary (λ rest. expr d rest)) toks) (length toks) (not_expr-Takes d)
          (λ rest h. strip_shorter "not" toks rest h)
          (comparison-Takes (primary (λ rest. expr d rest))
            (primary-Takes (λ rest. expr d rest) (expr-Takes d)) toks)

    expr-Takes : (d : ℕ) → Takes (λ toks. expr d toks)
    expr-Takes zero toks = tt
    expr-Takes (suc d) toks = or_Takes (λ rest. not_expr d rest) (not_expr-Takes d) toks

  read_ends :
      (e : Expr F) (toks : List (Tok F))
      → (r : Result ExprError (Expr F)) × (all_read e toks ≡ some r)
  read_ends e [] = (ok e, refl)
  read_ends e (t ∷ toks) = (err (parse "trailing tokens"), refl)

  bind_ends :
      (n : ℕ) (r : Parsed F)
      → Below n r
      → (x : Result ExprError (Expr F)) × (bind r (λ p. all_read p.0 p.1) ≡ some x)
  bind_ends n none h = absurd h
  bind_ends n (some (err e)) h = (err e, refl)
  bind_ends n (some (ok p)) h = read_ends p.0 p.1

  parse_toks_ends :
      (toks : List (Tok F)) → (r : Result ExprError (Expr F)) × (parse_toks toks ≡ some r)
  unfolding parse_toks
  parse_toks_ends toks = bind_ends (length toks) (expr max_depth toks) (expr-Takes max_depth toks)

after_tokens :
    (S : Std) (r : Option (Result ExprError (Toks S)))
    → Ends S r
    → (x : Result ExprError (Expr S.Float)) × (bind r (λ toks. parse_toks toks) ≡ some x)
after_tokens S none h = absurd h
after_tokens S (some (err e)) h = (err e, refl)
after_tokens S (some (ok toks)) h = parse_toks_ends toks

-- `parse_expr` comes to an end on every text, with an expression or an error.
pub parse_expr_total :
    (S : Std) (src : String) → (r : Result ExprError (Expr S.Float)) × (parse_expr S src ≡ some r)
unfolding parse_expr
parse_expr_total S src = after_tokens S (tokenize S src) (tokenize-Ends S src)
