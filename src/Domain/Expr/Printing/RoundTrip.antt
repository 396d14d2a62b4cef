-- ===== src/Domain/Expr/Printing/RoundTrip.antt =====
-- The tokens of an expression parse to the expression.
use aura_launcher.Common.{
  ℕ, zero, suc, ◌+◌, ◌≤◌, ◌≡◌, refl, String, true, false, none, some, List, [], ◌∷◌, length, max,
  ok, arith,
}
use aura_launcher.Domain.Expr.{
  Value, bool, number, string, null, array, object, Expr, literal, ref, eq, ne, lt, le, gt, ge,
  contains, starts_with, ends_with, exists, not, and, or,
}
use aura_launcher.Domain.Expr.Lexer.{
  Tok, ident, dotted, quoted, numeral, sym, open_paren, close_paren, eq_eq, not_eq, less_eq, less,
  greater_eq, greater,
}
use aura_launcher.Domain.Expr.Parser.{
  Parse, Parsed, strip, chain, and_expr, or_expr, Operator, op_eq, op_ne, op_lt, op_le, op_gt,
  op_ge, op_contains, op_starts_with, op_ends_with, build, operator_of, compare_from, comparison,
  primary, not_expr, expr, parse_toks, max_depth,
}
use aura_launcher.Domain.Expr.Printing.{onto, need, Printable}

two_levels {ℓ} : (P : ℕ → Type ℓ) (n d : ℕ) → n + 2 ≤ d → ((k : ℕ) → n ≤ k → P (suc (suc k))) → P d
two_levels P n zero h g = absurd (omega arith)
two_levels P n (suc zero) h g = absurd (omega arith)
two_levels P n (suc (suc k)) h g = g k (omega arith)

one_level {ℓ} : (P : ℕ → Type ℓ) (n d : ℕ) → n + 1 ≤ d → ((k : ℕ) → n ≤ k → P (suc k)) → P d
one_level P n zero h g = absurd (omega arith)
one_level P n (suc k) h g = g k (omega arith)

module _ {F : Type 0} where
  abbrev Reads : Parsed F → Expr F → List (Tok F) → Type 0
  Reads p e rest = p ≡ some (ok (e, rest))

  -- The rest of the tokens does not go on with an expression.
  record Stops (rest : List (Tok F)) : Type 0 where
    no_and : strip "and" rest ≡ none
    no_or : strip "or" rest ≡ none
    plain : (operand : Parse F) (e : Expr F) → Reads (compare_from operand e rest) e rest

  at_end : Stops []
  at_end = record { no_and = refl; no_or = refl; plain = λ p e. refl }

  at_close : (rest : List (Tok F)) → Stops (sym close_paren ∷ rest)
  at_close rest = record { no_and = refl; no_or = refl; plain = λ p e. refl }

  -- A chain that does not go on.
  chain_stops :
      (n : ℕ) (w : String) (operand : Parse F) (make : Expr F → Expr F → Expr F) (e : Expr F)
      (rest : List (Tok F))
      → strip w rest ≡ none
      → Reads (chain (suc n) w operand make e rest) e rest
  unfolding chain
  chain_stops n w operand make e rest h = rw h refl

  and_stops :
      (operand : Parse F) (toks : List (Tok F)) (e : Expr F) (rest : List (Tok F))
      → Reads (operand toks) e rest
      → strip "and" rest ≡ none
      → Reads (and_expr operand toks) e rest
  unfolding and_expr
  and_stops operand toks e rest h stop =
      rw h (chain_stops (length rest) "and" operand and e rest stop)

  or_stops :
      (operand : Parse F) (toks : List (Tok F)) (e : Expr F) (rest : List (Tok F))
      → Reads (and_expr operand toks) e rest
      → strip "or" rest ≡ none
      → Reads (or_expr operand toks) e rest
  unfolding or_expr
  or_stops operand toks e rest h stop =
      rw h (chain_stops (length rest) "or" (and_expr operand) or e rest stop)

  -- An operand, at the level of `not`, without a `not`.
  plain_operand :
      (d : ℕ) (toks : List (Tok F)) (e : Expr F) (rest : List (Tok F))
      → strip "not" toks ≡ none
      → Reads (comparison (primary (λ r. expr d r)) toks) e rest
      → Reads (not_expr (suc d) toks) e rest
  unfolding not_expr
  plain_operand d toks e rest n h = rw n h

  whole :
      (d : ℕ) (toks : List (Tok F)) (e : Expr F) (rest : List (Tok F))
      → Stops rest
      → Reads (not_expr d toks) e rest
      → Reads (expr (suc d) toks) e rest
  unfolding not_expr
  whole d toks e rest s h =
      or_stops (λ r. not_expr d r) toks e rest
        (and_stops (λ r. not_expr d r) toks e rest h s.no_and) s.no_or

  leaf :
      (d : ℕ) (t : Tok F) (e : Expr F) (rest : List (Tok F))
      → Stops rest
      → strip "not" (t ∷ rest) ≡ none
      → Reads (primary (λ r. expr d r) (t ∷ rest)) e rest
      → Reads (expr (suc (suc d)) (t ∷ rest)) e rest
  leaf d t e rest s n h =
      whole (suc d) (t ∷ rest) e rest s
        (plain_operand d (t ∷ rest) e rest n (rw h (s.plain (primary (λ r. expr d r)) e)))

  -- What an operand in parentheses reads as, before any rest.
  abbrev Inner : ℕ → Expr F → Type 0
  Inner d e = (rest : List (Tok F)) → Stops rest → Reads (expr d (onto e rest)) e rest

  paren :
      (d : ℕ) (e : Expr F) (rest : List (Tok F))
      → Inner d e
      → Reads (primary (λ r. expr d r) (sym open_paren ∷ onto e (sym close_paren ∷ rest))) e rest
  paren d e rest g = rw (g (sym close_paren ∷ rest) (at_close rest)) refl

  -- An operand in parentheses before a token that no comparison takes.
  paren_operand :
      (d : ℕ) (e : Expr F) (rest : List (Tok F))
      → Inner d e
      → Reads (compare_from (primary (λ r. expr d r)) e rest) e rest
      → Reads (not_expr (suc d) (sym open_paren ∷ onto e (sym close_paren ∷ rest))) e rest
  paren_operand d e rest g h =
      plain_operand d (sym open_paren ∷ onto e (sym close_paren ∷ rest)) e rest refl
        (rw (paren d e rest g) h)

  compared :
      (d : ℕ) (a b : Expr F) (t : Tok F) (op : Operator) (rest : List (Tok F))
      → operator_of t ≡ some op
      → Inner d a
      → Inner d b
      → Stops rest
      → Reads
          (expr (suc (suc d)) (
            sym open_paren
            ∷ onto a (sym close_paren ∷ t ∷ sym open_paren ∷ onto b (sym close_paren ∷ rest))))
          (build op a b)
          rest
  compared d a b t op rest o ga gb s = whole (suc d) _ (build op a b) rest s (
      plain_operand d _ (build op a b) rest refl (
        rw
          (
            paren d a (t ∷ sym open_paren ∷ onto b (sym close_paren ∷ rest)) ga,
            o,
            paren d b rest gb,
          )
          refl))

  chained :
      (d : ℕ) (a b : Expr F) (rest : List (Tok F))
      → Inner d a
      → Inner d b
      → Stops rest
      → Reads (and_expr (λ r. not_expr (suc d) r) (onto (and a b) rest)) (and a b) rest
  unfolding and_expr chain
  chained d a b rest ga gb s =
      rw
        (
          paren_operand d a (ident "and" ∷ sym open_paren ∷ onto b (sym close_paren ∷ rest)) ga
              refl,
          paren_operand d b rest gb (s.plain (primary (λ r. expr d r)) b),
        )
        (chain_stops (length (sym open_paren ∷ onto b (sym close_paren ∷ rest))) "and"
          (λ r. not_expr (suc d) r) and (and a b) rest s.no_and)

  both_and :
      (d : ℕ) (a b : Expr F) (rest : List (Tok F))
      → Inner d a
      → Inner d b
      → Stops rest
      → Reads (expr (suc (suc d)) (onto (and a b) rest)) (and a b) rest
  unfolding not_expr
  both_and d a b rest ga gb s =
      or_stops (λ r. not_expr (suc d) r) (onto (and a b) rest) (and a b) rest
        (chained d a b rest ga gb s) s.no_or

  both_or :
      (d : ℕ) (a b : Expr F) (rest : List (Tok F))
      → Inner d a
      → Inner d b
      → Stops rest
      → Reads (expr (suc (suc d)) (onto (or a b) rest)) (or a b) rest
  unfolding not_expr or_expr chain
  both_or d a b rest ga gb s =
      rw
        (
          and_stops (λ r. not_expr (suc d) r) (onto (or a b) rest) a
              (ident "or" ∷ sym open_paren ∷ onto b (sym close_paren ∷ rest))
              (paren_operand d a (ident "or" ∷ sym open_paren ∷ onto b (sym close_paren ∷ rest)) ga
                refl)
              refl,
          and_stops (λ r. not_expr (suc d) r) (sym open_paren ∷ onto b (sym close_paren ∷ rest)) b
              rest (paren_operand d b rest gb (s.plain (primary (λ r. expr d r)) b)) s.no_and,
        )
        (chain_stops (length (sym open_paren ∷ onto b (sym close_paren ∷ rest))) "or"
          (and_expr (λ r. not_expr (suc d) r)) or (or a b) rest s.no_or)

  after_not :
      (d : ℕ) (e : Expr F) (rest : List (Tok F))
      → Reads (not_expr (suc d) (sym open_paren ∷ onto e (sym close_paren ∷ rest))) e rest
      → Reads (not_expr (suc (suc d)) (onto (not e) rest)) (not e) rest
  unfolding not_expr
  after_not d e rest h = rw h refl

  negated :
      (d : ℕ) (e : Expr F) (rest : List (Tok F))
      → Inner d e
      → Stops rest
      → Reads (expr (suc (suc (suc d))) (onto (not e) rest)) (not e) rest
  negated d e rest g s =
      whole (suc (suc d)) (onto (not e) rest) (not e) rest s
        (after_not d e rest (paren_operand d e rest g (s.plain (primary (λ r. expr d r)) e)))

  tested :
      (d : ℕ) (e : Expr F) (rest : List (Tok F))
      → Inner d e
      → Stops rest
      → Reads (expr (suc (suc d)) (onto (exists e) rest)) (exists e) rest
  tested d e rest g s = whole (suc d) (onto (exists e) rest) (exists e) rest s (
      plain_operand d (onto (exists e) rest) (exists e) rest refl
        (rw (paren d e (ident "exists" ∷ rest) g) refl))

  -- Two operands within the levels that their operator leaves.
  operands :
      (f : Expr F → Expr F → Expr F) (a b : Expr F) (d : ℕ)
      → max (need a) (need b) + 2 ≤ d
      → ((k : ℕ) → need a ≤ k → Inner k a)
      → ((k : ℕ) → need b ≤ k → Inner k b)
      → ((k : ℕ) → Inner k a → Inner k b → Inner (suc (suc k)) (f a b))
      → Inner d (f a b)
  operands f a b d h ga gb make =
      two_levels (λ k. Inner k (f a b)) (max (need a) (need b)) d h
        (λ k le. make k (ga k (omega arith)) (gb k (omega arith)))

  value_reads : (v : Value F) (d : ℕ) → Printable (literal v) → Inner (suc (suc d)) (literal v)
  value_reads (bool true) d p rest s = leaf d (ident "true") (literal (bool true)) rest s refl refl
  value_reads (bool false) d p rest s =
      leaf d (ident "false") (literal (bool false)) rest s refl refl
  value_reads null d p rest s = leaf d (ident "null") (literal null) rest s refl refl
  value_reads (number n) d p rest s = leaf d (numeral n) (literal (number n)) rest s refl refl
  value_reads (string t) d p rest s = leaf d (quoted t) (literal (string t)) rest s refl refl
  value_reads (array a) d p rest s = absurd p
  value_reads (object o) d p rest s = absurd p

  onto_reads : (e : Expr F) (d : ℕ) → Printable e → need e ≤ d → Inner d e
  onto_reads (literal v) d p h =
      two_levels (λ k. Inner k (literal v)) 0 d h (λ k le. value_reads v k p)
  onto_reads (ref r) d p h =
      two_levels (λ k. Inner k (ref r)) 0 d h
        (λ k le rest s. leaf k (dotted r) (ref r) rest s refl refl)
  onto_reads (exists e) d p h =
      two_levels (λ k. Inner k (exists e)) (need e) d h
        (λ k le rest s. tested k e rest (onto_reads e k p le) s)
  onto_reads (not e) d p h =
      two_levels (λ k. Inner k (not e)) (need e + 1) d (omega arith)
        (λ k le.
          one_level (λ j. Inner (suc (suc j)) (not e)) (need e) k le
            (λ j le2 rest s. negated j e rest (onto_reads e j p le2) s))
  onto_reads (and a b) d p h =
      operands (λ x y. and x y) a b d h (λ k le. onto_reads a k p.0 le)
        (λ k le. onto_reads b k p.1 le) (λ k ga gb rest s. both_and k a b rest ga gb s)
  onto_reads (or a b) d p h =
      operands (λ x y. or x y) a b d h (λ k le. onto_reads a k p.0 le)
        (λ k le. onto_reads b k p.1 le) (λ k ga gb rest s. both_or k a b rest ga gb s)
  onto_reads (eq a b) d p h =
      operands (λ x y. eq x y) a b d h (λ k le. onto_reads a k p.0 le)
        (λ k le. onto_reads b k p.1 le)
        (λ k ga gb rest s. compared k a b (sym eq_eq) op_eq rest refl ga gb s)
  onto_reads (ne a b) d p h =
      operands (λ x y. ne x y) a b d h (λ k le. onto_reads a k p.0 le)
        (λ k le. onto_reads b k p.1 le)
        (λ k ga gb rest s. compared k a b (sym not_eq) op_ne rest refl ga gb s)
  onto_reads (lt a b) d p h =
      operands (λ x y. lt x y) a b d h (λ k le. onto_reads a k p.0 le)
        (λ k le. onto_reads b k p.1 le)
        (λ k ga gb rest s. compared k a b (sym less) op_lt rest refl ga gb s)
  onto_reads (le a b) d p h =
      operands (λ x y. le x y) a b d h (λ k le. onto_reads a k p.0 le)
        (λ k le. onto_reads b k p.1 le)
        (λ k ga gb rest s. compared k a b (sym less_eq) op_le rest refl ga gb s)
  onto_reads (gt a b) d p h =
      operands (λ x y. gt x y) a b d h (λ k le. onto_reads a k p.0 le)
        (λ k le. onto_reads b k p.1 le)
        (λ k ga gb rest s. compared k a b (sym greater) op_gt rest refl ga gb s)
  onto_reads (ge a b) d p h =
      operands (λ x y. ge x y) a b d h (λ k le. onto_reads a k p.0 le)
        (λ k le. onto_reads b k p.1 le)
        (λ k ga gb rest s. compared k a b (sym greater_eq) op_ge rest refl ga gb s)
  onto_reads (contains a b) d p h =
      operands (λ x y. contains x y) a b d h (λ k le. onto_reads a k p.0 le)
        (λ k le. onto_reads b k p.1 le)
        (λ k ga gb rest s. compared k a b (ident "contains") op_contains rest refl ga gb s)
  onto_reads (starts_with a b) d p h =
      operands (λ x y. starts_with x y) a b d h (λ k le. onto_reads a k p.0 le)
        (λ k le. onto_reads b k p.1 le)
        (λ k ga gb rest s. compared k a b (ident "starts_with") op_starts_with rest refl ga gb s)
  onto_reads (ends_with a b) d p h =
      operands (λ x y. ends_with x y) a b d h (λ k le. onto_reads a k p.0 le)
        (λ k le. onto_reads b k p.1 le)
        (λ k ga gb rest s. compared k a b (ident "ends_with") op_ends_with rest refl ga gb s)

  -- An expression without array and object literals, written with every operand in parentheses,
  -- parses to itself if its parentheses and negations stay within the parser's 32 levels.
  pub parse_toks-onto :
      (e : Expr F) → Printable e → need e ≤ max_depth → parse_toks (onto e []) ≡ some (ok e)
  unfolding parse_toks
  parse_toks-onto e p h = rw (onto_reads e max_depth p h [] at_end) refl
