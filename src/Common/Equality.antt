-- ===== src/Common/Equality.antt =====
-- Decidable equality of keys and identifiers, as Rust's `Eq` bound gives it.
use Prim.Native.Nat.{ℕ}
use Prim.Native.String.{String}
use mathlib.Core.Path.{◌≡◌, refl}
use mathlib.Core.Logic.{◌≢◌, ◌↔◌}
use mathlib.Core.Bool.{Bool, true, false}
use native.Mathlib.Omega.{arith}
use text.Mathlib.Text.{◌==◌ as str_eq}
use text.Mathlib.TextEquality.{eq_iff}
use aura_launcher.Common.Tests.{nat_eqb, nat_eqb_iff}

pub record Eq {κ} (C : Type κ) : Type κ where
  pub beq : (x y : C) → Bool
  pub beq_iff : (x y : C) → (beq x y ≡ true) ↔ (x ≡ y)

instance abbrev pub string_eq : Eq String
string_eq = record { beq = str_eq; beq_iff = eq_iff }

instance abbrev pub nat_eq : Eq ℕ
nat_eq = record { beq = nat_eqb; beq_iff = nat_eqb_iff }

infix 50 ◌==◌
abbrev pub ◌==◌ {κ} : {C : Type κ} ⦃d : Eq C⦄ (x y : C) → Bool
◌==◌ ⦃d⦄ x y = d.beq x y

module _ {ℓ} {A : Type ℓ} ⦃e : Eq A⦄ where
  pub eq→path : (a b : A) → (a == b) ≡ true → a ≡ b
  eq→path a b = (e.beq_iff a b).0

  pub eq_self : (a : A) → (a == a) ≡ true
  eq_self a = (e.beq_iff a a).1 refl

  pub eq_of_ne : (a b : A) → a ≢ b → (a == b) ≡ false
  eq_of_ne a b h = ground (arith, e.beq_iff a b)

  pub ne_of_eq : (a b : A) → (a == b) ≡ false → a ≢ b
  ne_of_eq a b h = ground (arith, e.beq_iff a b)
