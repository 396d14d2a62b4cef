-- ===== src/Domain/Expr/Lexer/End.antt =====
-- The lexer comes to an end on every text.
use Prim.Native.Char.{Char, code}
use Prim.Native.String as Text
use aura_launcher.Common.{
  ℕ, zero, suc, ◌≤◌, ◌<◌, ◌≡◌, refl, String, Bool, true, false, ◌||◌, Option, none, some, nat_eqb,
  Result, ok, err, if◌then◌else◌, arith, string_eq,
}
use aura_launcher.Domain.Expr.{Std, ExprError}
use aura_launcher.Domain.Expr.Lexer.{
  Tok, is_digit, take_while, char_count, tail, next_is_eq, Toks, Lexeme, inside_quotes, in_number,
  in_word, push, number_token, lexeme, tokenize_from, tokenize_loop, tokenize,
}

take_while_le : (p : Char → Bool) (s : String) → char_count (take_while p s).1 ≤ char_count s
unfolding take_while
take_while_le p Text.[] = omega arith
take_while_le p (Text.◌∷◌ c s) = ground (arith, take_while_le p s)

take_while_lt :
    (p : Char → Bool) (c : Char) (s : String)
    → p c ≡ true
    → char_count (take_while p (Text.◌∷◌ c s)).1 ≤ char_count s
unfolding take_while
take_while_lt p c s h = ground (arith, take_while_le p s)

tail_le : (s : String) → char_count (tail s) ≤ char_count s
tail_le Text.[] = omega arith
tail_le (Text.◌∷◌ c s) = omega arith

module _ (S : Std) where
  -- A lexeme leaves no more characters than it was given.
  abbrev Leaves : ℕ → Lexeme S → Type 0
  Leaves n (err e) = Unit
  Leaves n (ok (t, rest)) = char_count rest ≤ n

  Leaves-if :
      (n : ℕ) (b : Bool) (x y : Lexeme S)
      → (b ≡ true → Leaves n x)
      → (b ≡ false → Leaves n y)
      → Leaves n (if b then x else y)
  Leaves-if n true x y hx hy = hx refl
  Leaves-if n false x y hx hy = hy refl

  Leaves-number :
      (n : ℕ) (digits rest : String) (o : Option S.Float)
      → char_count rest ≤ n
      → Leaves n (number_token S digits rest o)
  Leaves-number n digits rest none h = tt
  Leaves-number n digits rest (some x) h = h

  word_starts : (c : Char) → (S.alphabetic c || nat_eqb (code c) 95) ≡ true → in_word S c ≡ true
  word_starts c h = ground (arith, S.letter c)

  number_starts : (c : Char) → is_digit c ≡ true → in_number S c ≡ true
  number_starts c h = ground arith

  quoted_le : (s : String) → char_count (tail (take_while (inside_quotes S) s).1) ≤ char_count s
  quoted_le s =
      omega (arith, take_while_le (inside_quotes S) s, tail_le (take_while (inside_quotes S) s).1)

  lexeme-Leaves : (c : Char) (s : String) → Leaves (char_count s) (lexeme S c s)
  unfolding lexeme
  lexeme-Leaves c s =
      let n = char_count s in
      let k = code c in
      let eq_or : (t : Lexeme S)
          → Leaves n t
          → (x : Option (Tok S.Float)) → Leaves n (if next_is_eq s then ok (x, tail s) else t) =
        λ t h x. Leaves-if n (next_is_eq s) (ok (x, tail s)) t (λ _. tail_le s) (λ _. h) in
      Leaves-if n (nat_eqb k 32 || nat_eqb k 9 || nat_eqb k 10 || nat_eqb k 13) _ _
        (λ _. omega arith)
        (λ _.
          Leaves-if n (nat_eqb k 40) _ _ (λ _. omega arith)
            (λ _.
              Leaves-if n (nat_eqb k 41) _ _ (λ _. omega arith)
                (λ _.
                  Leaves-if n (nat_eqb k 61) _ _ (λ _. eq_or _ tt _)
                    (λ _.
                      Leaves-if n (nat_eqb k 33) _ _ (λ _. eq_or _ tt _)
                        (λ _.
                          Leaves-if n (nat_eqb k 60) _ _ (λ _. eq_or _ (omega arith) _)
                            (λ _.
                              Leaves-if n (nat_eqb k 62) _ _ (λ _. eq_or _ (omega arith) _)
                                (λ _.
                                  Leaves-if n (nat_eqb k 34) _ _ (λ _. quoted_le s)
                                    (λ _.
                                      Leaves-if n (is_digit c) _ _
                                        (λ d.
                                          Leaves-number n _ _ _
                                            (take_while_lt (in_number S) c s (number_starts c d)))
                                        (λ _.
                                          Leaves-if n (S.alphabetic c || nat_eqb k 95) _ _
                                            (λ w. take_while_lt (in_word S) c s (word_starts c w))
                                            (λ _. tt))))))))))

  abbrev pub Ends : Option (Result ExprError (Toks S)) → Type 0
  Ends none = ⊥
  Ends (some r) = Unit

  push-Ends :
      (t : Tok S.Float) (r : Option (Result ExprError (Toks S))) → Ends r → Ends (push S t r)
  push-Ends t none h = h
  push-Ends t (some (err e)) h = h
  push-Ends t (some (ok ts)) h = h

  from_Ends :
      (n : ℕ) (x : Lexeme S) (next : String → Option (Result ExprError (Toks S)))
      → Leaves n x
      → ((rest : String) → char_count rest ≤ n → Ends (next rest))
      → Ends (tokenize_from S x next)
  from_Ends n (err e) next h g = tt
  from_Ends n (ok (none, rest)) next h g = g rest h
  from_Ends n (ok (some t, rest)) next h g = push-Ends t (next rest) (g rest h)

  loop-Ends : (fuel : ℕ) (s : String) → char_count s < fuel → Ends (tokenize_loop S fuel s)
  unfolding tokenize_loop
  loop-Ends zero s h = absurd (omega arith)
  loop-Ends (suc fuel) Text.[] h = tt
  loop-Ends (suc fuel) (Text.◌∷◌ c s) h =
      from_Ends (char_count s) (lexeme S c s) (λ rest. tokenize_loop S fuel rest)
        (lexeme-Leaves c s) (λ rest g. loop-Ends fuel rest (omega arith))

  pub tokenize-Ends : (s : String) → Ends (tokenize S s)
  unfolding tokenize
  tokenize-Ends s = loop-Ends (suc (char_count s)) s (omega arith)
