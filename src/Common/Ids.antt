-- ===== src/Common/Ids.antt =====
-- Sets of identifiers (`HashSet<String>`, `BTreeSet<String>`) as lists.
use mathlib.Core.Path.{◌≡◌, refl}
use mathlib.Core.Bool.{Bool, true, false, ◌||◌}
use Prim.Native.Nat.{◌+◌}
use aura_launcher.Common.Lists.{length}
use mathlib.Core.List.{List, [], ◌∷◌, ◌++◌}
use native.Mathlib.Omega.{arith}
use aura_launcher.Common.Tests.{if◌then◌else◌}
use aura_launcher.Common.Equality.{Eq, ◌==◌}

module _ {ℓ} {A : Type ℓ} ⦃e : Eq A⦄ where
  unfoldable pub contains : A → List A → Bool
  contains a [] = false
  contains a (x ∷ xs) = (x == a) || contains a xs

  unfoldable pub insert : A → List A → List A
  unfolding contains
  insert a xs = if contains a xs then xs else a ∷ xs

  pub contains-insert :
      (a b : A) (xs : List A) → contains b (insert a xs) ≡ ((a == b) || contains b xs)
  unfolding insert contains
  contains-insert a b xs = ground (arith, e.beq_iff a b, e.beq_iff b a)

  abbrev pub Distinct : List A → Type 0
  Distinct [] = Unit
  Distinct (x ∷ xs) = (contains x xs ≡ false) × Distinct xs

  -- `Vec::retain` of all but one value.
  unfoldable pub without : A → List A → List A
  without a [] = []
  without a (x ∷ xs) = let rest = without a xs in if x == a then rest else x ∷ rest

  pub contains-append :
      (a : A) (xs ys : List A) → contains a (xs ++ ys) ≡ (contains a xs || contains a ys)
  unfolding contains
  contains-append a [] ys = refl
  contains-append a (x ∷ xs) ys = ground (arith, contains-append a xs ys)

  pub contains-without :
      (a b : A) (xs : List A)
      → contains b (without a xs) ≡ (if a == b then false else contains b xs)
  unfolding contains without
  contains-without a b [] = ground arith
  contains-without a b (x ∷ xs) =
      ground (arith, contains-without a b xs, e.beq_iff x a, e.beq_iff x b, e.beq_iff a b)

  pub without_absent : (a : A) (xs : List A) → contains a xs ≡ false → without a xs ≡ xs
  unfolding contains without
  without_absent a [] h = refl
  without_absent a (x ∷ xs) h = ground (arith, without_absent a xs)

  pub without-Distinct : (a : A) (xs : List A) → Distinct xs → Distinct (without a xs)
  unfolding without
  without-Distinct a [] d = tt
  without-Distinct a (x ∷ xs) d = ground (arith, without-Distinct a xs, contains-without a x xs)

  pub length-without :
      (a : A) (xs : List A)
      → Distinct xs
      → contains a xs ≡ true
      → length (without a xs) + 1 ≡ length xs
  unfolding contains without
  length-without a [] d h = ground arith
  length-without a (x ∷ xs) d h =
      ground (arith, length-without a xs, without_absent a xs, e.beq_iff x a)

  pub snoc-Distinct :
      (a : A) (xs : List A) → Distinct xs → contains a xs ≡ false → Distinct (xs ++ a ∷ [])
  unfolding contains
  snoc-Distinct a [] d h = ground arith
  snoc-Distinct a (x ∷ xs) d h =
      ground
        (arith, snoc-Distinct a xs, contains-append x xs (a ∷ []), e.beq_iff x a, e.beq_iff a x)
