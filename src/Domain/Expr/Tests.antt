-- ===== src/Domain/Expr/Tests.antt =====
-- The condition language on small inputs; its numbers are the natural numbers here.
use Prim.Native.Nat.{compare}
use Prim.Native.Char.{Char, code}
use aura_launcher.Common.{
  [], ℕ, ◌≡◌, refl, String, Bool, true, false, ◌||◌, ◌&&◌, Option, none, some, nat_eqb, leb,
  string_eq, ◌==◌, Result, ok, err, arith, if◌then◌else◌,
}
use aura_launcher.Domain.Expr.{
  Std, Value, bool, number, string, null, Expr, literal, ref, gt, and, contains, ExprError, parse,
  evaluate, or, not,
}
use aura_launcher.Domain.Expr.Parser.{parse_expr, parse_toks}
use aura_launcher.Domain.Expr.Printing.{onto}
use aura_launcher.Domain.Expr.Printing.RoundTrip.{parse_toks-onto}
use aura_launcher.Domain.Expr.Total.{parse_expr_total}
use aura_launcher.Domain.Expr.Types.{Ty, t_number, t_string, t_bool, numbers, in_string}
use aura_launcher.Domain.Expr.Typing.{
  HasType, for_and, for_gt, for_contains, for_literal, for_ref, evaluate-IsSafe, IsSafe, Resolves,
}

abbrev pub is_letter : Char → Bool
is_letter c = leb 97 (code c) && leb (code c) 122

abbrev pub digits_or_letters : Char → Bool
digits_or_letters c = is_letter c || leb 48 (code c) && leb (code c) 57

pub letters : (c : Char) → is_letter c ≡ true → digits_or_letters c ≡ true
letters c h = ground arith

abbrev pub toy : Std
toy = record {
  Float = ℕ;
  parse_float = λ s. if s == "7" then some 7 else none;
  float_eq = nat_eqb;
  partial_cmp = λ x y. some (compare x y);
  alphabetic = is_letter;
  alphanumeric = digits_or_letters;
  letter = letters;
}

parses : parse_expr toy "var.n > 7 and not (ok)" ≡ some (err (parse "unexpected token"))
unfolding parse_expr
parses = refl

nests :
    parse_expr toy "not var.n > 7 or true"
    ≡ some (ok (or (not (gt (ref "var.n") (literal (number 7)))) (literal (bool true))))
unfolding parse_expr
nests = refl

parse_expr_total_example :
    (r : Result ExprError (Expr ℕ)) × (parse_expr toy "not (var.n > 7) or true" ≡ some r)
parse_expr_total_example = parse_expr_total toy "not (var.n > 7) or true"

abbrev types : String → Option Ty
types r = if r == "var.n" then some t_number else if r == "var.s" then some t_string else none

abbrev values : String → Option (Value ℕ)
values r =
    if r == "var.n" then some (number 9) else if r == "var.s" then some (string "abc") else none

set_one :
    (r : String) (τ : Ty) (n s : Bool)
    → (if n then some t_number else if s then some t_string else none) ≡ some τ
    → (v : Value ℕ) × ((if n then some (number 9) else if s then some (string "abc") else none)
        ≡ some v)
      × (aura_launcher.Domain.Expr.Types.ty v ≡ τ)
set_one r τ true s h = (number 9, refl, cc)
set_one r τ false true h = (string "abc", refl, cc)
set_one r τ false false h = cc

resolves : Resolves toy types values
resolves r τ h = set_one r τ (r == "var.n") (r == "var.s") h

abbrev condition : Expr ℕ
condition =
    and (gt (ref "var.n") (literal (number 7))) (contains (ref "var.s") (literal (string "b")))

typed : HasType toy types condition t_bool
typed =
    for_and (for_gt (for_ref refl) (for_literal (number 7)) numbers)
      (for_contains (for_ref refl) (for_literal (string "b")) in_string)

evaluate-IsSafe_example : IsSafe toy t_bool (evaluate toy values condition)
evaluate-IsSafe_example = evaluate-IsSafe toy types values condition t_bool resolves typed

parse_toks-onto_example : parse_toks (onto condition []) ≡ some (ok condition)
parse_toks-onto_example = parse_toks-onto condition ((tt, tt), (tt, tt)) (omega arith)
