-- ===== src/Domain/Expr/Printing.antt =====
-- Expressions as tokens: every operand stands in parentheses.
pub mod RoundTrip
use aura_launcher.Common.{ℕ, ◌+◌, String, Bool, true, false, List, [], ◌∷◌, max}
use aura_launcher.Domain.Expr.{
  Value, bool, number, string, null, array, object, Expr, literal, ref, eq, ne, lt, le, gt, ge,
  contains, starts_with, ends_with, exists, not, and, or,
}
use aura_launcher.Domain.Expr.Lexer.{
  Tok, ident, dotted, quoted, numeral, sym, open_paren, close_paren, eq_eq, not_eq, less_eq, less,
  greater_eq, greater,
}

module _ {F : Type 0} where
  -- The tokens of a value, before the rest; an array or an object has none.
  abbrev pub value_onto : Value F → List (Tok F) → List (Tok F)
  value_onto (bool true) rest = ident "true" ∷ rest
  value_onto (bool false) rest = ident "false" ∷ rest
  value_onto null rest = ident "null" ∷ rest
  value_onto (number n) rest = numeral n ∷ rest
  value_onto (string s) rest = quoted s ∷ rest
  value_onto (array a) rest = rest
  value_onto (object o) rest = rest

  -- The tokens of an expression, before the rest.
  abbrev pub onto : Expr F → List (Tok F) → List (Tok F)
  onto (literal v) rest = value_onto v rest
  onto (ref r) rest = dotted r ∷ rest
  onto (exists e) rest = sym open_paren ∷ onto e (sym close_paren ∷ ident "exists" ∷ rest)
  onto (not e) rest = ident "not" ∷ sym open_paren ∷ onto e (sym close_paren ∷ rest)
  onto (and a b) rest =
      sym open_paren
      ∷ onto a (sym close_paren ∷ ident "and" ∷ sym open_paren ∷ onto b (sym close_paren ∷ rest))
  onto (or a b) rest =
      sym open_paren
      ∷ onto a (sym close_paren ∷ ident "or" ∷ sym open_paren ∷ onto b (sym close_paren ∷ rest))
  onto (eq a b) rest =
      sym open_paren
      ∷ onto a (sym close_paren ∷ sym eq_eq ∷ sym open_paren ∷ onto b (sym close_paren ∷ rest))
  onto (ne a b) rest =
      sym open_paren
      ∷ onto a (sym close_paren ∷ sym not_eq ∷ sym open_paren ∷ onto b (sym close_paren ∷ rest))
  onto (lt a b) rest =
      sym open_paren
      ∷ onto a (sym close_paren ∷ sym less ∷ sym open_paren ∷ onto b (sym close_paren ∷ rest))
  onto (le a b) rest =
      sym open_paren
      ∷ onto a (sym close_paren ∷ sym less_eq ∷ sym open_paren ∷ onto b (sym close_paren ∷ rest))
  onto (gt a b) rest =
      sym open_paren
      ∷ onto a (sym close_paren ∷ sym greater ∷ sym open_paren ∷ onto b (sym close_paren ∷ rest))
  onto (ge a b) rest =
      sym open_paren
      ∷ onto a (sym close_paren ∷ sym greater_eq ∷ sym open_paren ∷ onto b (sym close_paren ∷ rest))
  onto (contains a b) rest =
      sym open_paren
      ∷ onto a
          (sym close_paren ∷ ident "contains" ∷ sym open_paren ∷ onto b (sym close_paren ∷ rest))
  onto (starts_with a b) rest =
      sym open_paren
      ∷ onto a
          (sym close_paren ∷ ident "starts_with" ∷ sym open_paren ∷ onto b (sym close_paren ∷ rest))
  onto (ends_with a b) rest =
      sym open_paren
      ∷ onto a
          (sym close_paren ∷ ident "ends_with" ∷ sym open_paren ∷ onto b (sym close_paren ∷ rest))

  -- The levels of the depth counter that the tokens take.
  abbrev pub need : Expr F → ℕ
  need (literal v) = 2
  need (ref r) = 2
  need (exists e) = need e + 2
  need (not e) = need e + 3
  need (and a b) = max (need a) (need b) + 2
  need (or a b) = max (need a) (need b) + 2
  need (eq a b) = max (need a) (need b) + 2
  need (ne a b) = max (need a) (need b) + 2
  need (lt a b) = max (need a) (need b) + 2
  need (le a b) = max (need a) (need b) + 2
  need (gt a b) = max (need a) (need b) + 2
  need (ge a b) = max (need a) (need b) + 2
  need (contains a b) = max (need a) (need b) + 2
  need (starts_with a b) = max (need a) (need b) + 2
  need (ends_with a b) = max (need a) (need b) + 2

  abbrev PrintableValue : Value F → Type 0
  PrintableValue (array a) = ⊥
  PrintableValue (object o) = ⊥
  PrintableValue null = Unit
  PrintableValue (bool b) = Unit
  PrintableValue (number n) = Unit
  PrintableValue (string s) = Unit

  -- No literal is an array or an object, which have no syntax.
  abbrev pub Printable : Expr F → Type 0
  Printable (literal v) = PrintableValue v
  Printable (ref r) = Unit
  Printable (exists e) = Printable e
  Printable (not e) = Printable e
  Printable (and a b) = Printable a × Printable b
  Printable (or a b) = Printable a × Printable b
  Printable (eq a b) = Printable a × Printable b
  Printable (ne a b) = Printable a × Printable b
  Printable (lt a b) = Printable a × Printable b
  Printable (le a b) = Printable a × Printable b
  Printable (gt a b) = Printable a × Printable b
  Printable (ge a b) = Printable a × Printable b
  Printable (contains a b) = Printable a × Printable b
  Printable (starts_with a b) = Printable a × Printable b
  Printable (ends_with a b) = Printable a × Printable b
