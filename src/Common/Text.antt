-- ===== src/Common/Text.antt =====
-- Rust's `str` operations that the program uses: the order of its bytes and a one-character
-- prefix.
use Prim.Native.Nat.{ℕ, zero, suc, ◌/◌, ◌%◌, Ordering}
use Prim.Native.Char.{Char, code}
use Prim.Native.String.{String, [], ◌∷◌, ◌++◌, compare, slice}
use mathlib.Core.Bool.{Bool, true, false, ◌&&◌, ◌||◌}
use mathlib.Core.Option.{Option, none, some}
use aura_launcher.Common.Tests.{if◌then◌else◌, nat_eqb, leb, ltb}

abbrev is_lt : Ordering → Bool
is_lt Ordering.lt = true
is_lt _ = false

-- `a < b`
unfoldable pub str_lt : String → String → Bool
str_lt a b = is_lt (compare a b)

-- The name of a variable reference: `operand.strip_prefix('$')`.
unfoldable pub strip_dollar : String → Option String
strip_dollar [] = none
strip_dollar (c ∷ s) = if nat_eqb (code c) 36 then some s else none

-- `char::is_whitespace`: the Unicode property White_Space.
unfoldable pub is_whitespace : Char → Bool
is_whitespace c =
    let n = code c in
    leb 9 n && leb n 13
    || nat_eqb n 32
    || nat_eqb n 133
    || nat_eqb n 160
    || nat_eqb n 5760
    || leb 8192 n && leb n 8202
    || nat_eqb n 8232
    || nat_eqb n 8233
    || nat_eqb n 8239
    || nat_eqb n 8287
    || nat_eqb n 12288

-- `s.trim().is_empty()`
unfoldable pub is_blank : String → Bool
unfolding is_whitespace
is_blank [] = true
is_blank (c ∷ s) = is_whitespace c && is_blank s

unfoldable pub digit : ℕ → String
digit n = slice "0123456789" n (suc n)

unfoldable pub decimal_go : ℕ → ℕ → String
unfolding digit
decimal_go zero n = ""
decimal_go (suc fuel) n =
    let rest = decimal_go fuel (n / 10) in if ltb n 10 then digit n else rest ++ digit (n % 10)

-- The decimal digits of a number, as `{}` of `format!` writes them; a number has at most as many
-- digits as its successor counts.
unfoldable pub decimal : ℕ → String
unfolding decimal_go
decimal n = decimal_go (suc n) n
