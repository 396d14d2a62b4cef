-- ===== src/Domain/Expr/Lexer.antt =====
-- The tokens of the condition language (`tokenize` of expr.rs). A text is read from its front;
-- each round of the loop takes one character or more.
pub mod End
use Prim.Native.Char.{Char, code}
use Prim.Native.String as Text
use Prim.Native.String.{◌++◌ as ◌append◌}
use aura_launcher.Common.{
  ℕ, zero, suc, ◌+◌, ◌≡◌, String, Bool, true, false, ◌&&◌, ◌||◌, not, Option, none, some, List, [],
  ◌∷◌, nat_eqb, leb, Result, ok, err, if◌then◌else◌,
}
use aura_launcher.Domain.Expr.{Std, ExprError, parse}

-- `Tok::Sym`: ( ) == != <= < >= >
pub data Sym : Type 0 where
  open_paren close_paren eq_eq not_eq less_eq less greater_eq greater : Sym

pub data Tok (F : Type 0) : Type 0 where
  ident : String → Tok F
  dotted : String → Tok F
  quoted : String → Tok F
  numeral : F → Tok F
  sym : Sym → Tok F

abbrev pub is_digit : Char → Bool
is_digit c = leb 48 (code c) && leb (code c) 57

-- The characters before the first that fails the test, and the rest.
unfoldable pub take_while : (Char → Bool) → String → String × String
take_while p Text.[] = (Text.[], Text.[])
take_while p (Text.◌∷◌ c s) =
    let more = take_while p s in
    if p c then (Text.◌∷◌ c more.0, more.1) else (Text.[], Text.◌∷◌ c s)

abbrev pub char_count : String → ℕ
char_count Text.[] = 0
char_count (Text.◌∷◌ c s) = suc (char_count s)

-- The rest after the first character: the closing quote.
abbrev pub tail : String → String
tail Text.[] = Text.[]
tail (Text.◌∷◌ c s) = s

abbrev pub has_dot : String → Bool
has_dot Text.[] = false
has_dot (Text.◌∷◌ c s) = nat_eqb (code c) 46 || has_dot s

abbrev one : Char → String
one c = Text.◌∷◌ c Text.[]

-- What the second character of `==`, `!=`, `<=` and `>=` decides.
abbrev pub next_is_eq : String → Bool
next_is_eq Text.[] = false
next_is_eq (Text.◌∷◌ c s) = nat_eqb (code c) 61

module _ (S : Std) where
  abbrev pub Toks : Type 0
  Toks = List (Tok S.Float)

  -- The token at the front of a text and the text after it; `none` in front for a blank.
  abbrev pub Lexeme : Type 0
  Lexeme = Result ExprError (Option (Tok S.Float) × String)

  abbrev pub inside_quotes : Char → Bool
  inside_quotes c = not (nat_eqb (code c) 34)

  abbrev pub in_number : Char → Bool
  in_number c = is_digit c || nat_eqb (code c) 46

  abbrev pub in_word : Char → Bool
  in_word c = S.alphanumeric c || nat_eqb (code c) 95 || nat_eqb (code c) 46

  abbrev pub word : String → Tok S.Float
  word s = if has_dot s then dotted s else ident s

  -- `toks.push`, before what the later rounds push.
  abbrev pub push : Tok S.Float → Option (Result ExprError Toks) → Option (Result ExprError Toks)
  push t none = none
  push t (some (err e)) = some (err e)
  push t (some (ok toks)) = some (ok (t ∷ toks))

  abbrev pub number_token : String → String → Option S.Float → Lexeme
  number_token digits rest none = err (parse ("bad number " append digits))
  number_token digits rest (some n) = ok (some (numeral n), rest)

  unfoldable pub lexeme : Char → String → Lexeme
  unfolding take_while
  lexeme c s =
      let n = code c in
      if nat_eqb n 32 || nat_eqb n 9 || nat_eqb n 10 || nat_eqb n 13
      then ok (none, s)
      else if nat_eqb n 40
      then ok (some (sym open_paren), s)
      else if nat_eqb n 41
      then ok (some (sym close_paren), s)
      else if nat_eqb n 61
      then if next_is_eq s then ok (some (sym eq_eq), tail s) else err (parse "expected ==")
      else if nat_eqb n 33
      then if next_is_eq s then ok (some (sym not_eq), tail s) else err (parse "expected !=")
      else if nat_eqb n 60
      then if next_is_eq s then ok (some (sym less_eq), tail s) else ok (some (sym less), s)
      else if nat_eqb n 62
      then if next_is_eq s then ok (some (sym greater_eq), tail s) else ok (some (sym greater), s)
      else if nat_eqb n 34
      then ok (some (quoted (take_while inside_quotes s).0), tail (take_while inside_quotes s).1)
      else if is_digit c
      then number_token (take_while in_number (Text.◌∷◌ c s)).0
          (take_while in_number (Text.◌∷◌ c s)).1
          (S.parse_float (take_while in_number (Text.◌∷◌ c s)).0)
      else if S.alphabetic c || nat_eqb n 95
      then ok
          (some (word (take_while in_word (Text.◌∷◌ c s)).0), (take_while in_word (Text.◌∷◌ c s)).1)
      else err (parse ("unexpected character " append one c))

  abbrev pub tokenize_from :
      Lexeme → (String → Option (Result ExprError Toks)) → Option (Result ExprError Toks)
  tokenize_from (err e) next = some (err e)
  tokenize_from (ok (none, s)) next = next s
  tokenize_from (ok (some t, s)) next = push t (next s)

  unfoldable pub tokenize_loop : ℕ → String → Option (Result ExprError Toks)
  unfolding lexeme
  tokenize_loop zero s = none
  tokenize_loop (suc fuel) Text.[] = some (ok [])
  tokenize_loop (suc fuel) (Text.◌∷◌ c s) =
      tokenize_from (lexeme c s) (λ rest. tokenize_loop fuel rest)

  -- A round for each character and one more.
  unfoldable pub tokenize : String → Option (Result ExprError Toks)
  unfolding tokenize_loop
  tokenize src = tokenize_loop (suc (char_count src)) src
