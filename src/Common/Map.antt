-- ===== src/Common/Map.antt =====
-- `HashMap` as an association list with at most one entry for a key. The order of the list
-- stands for the order of iteration, which the program must not rely on.
pub mod Unique
pub mod Bulk
use mathlib.Core.Path.{◌≡◌, refl}
use mathlib.Core.Bool.{Bool, true, false}
use mathlib.Core.Option.{Option, none, some}
use mathlib.Core.List.{List, [], ◌∷◌}
use Prim.Native.Nat.{ℕ, suc, ◌+◌, ◌≤◌}
use native.Mathlib.Omega.{arith}
use aura_launcher.Common.Tests.{if◌then◌else◌, Bool-cases}
use aura_launcher.Common.Equality.{Eq, ◌==◌, eq_self}
use aura_launcher.Common.Lists.{length}

module _ {ℓ κ} {K : Type ℓ} {V : Type κ} ⦃e : Eq K⦄ where
  unfoldable pub lookup : K → List (K × V) → Option V
  lookup k [] = none
  lookup k ((i, w) ∷ rest) = if i == k then some w else lookup k rest

  unfoldable pub insert : K → V → List (K × V) → List (K × V)
  insert k v [] = (k, v) ∷ []
  insert k v ((i, w) ∷ rest) =
      let later = insert k v rest in if i == k then (k, v) ∷ rest else (i, w) ∷ later

  unfoldable pub remove : K → List (K × V) → List (K × V)
  remove k [] = []
  remove k ((j, w) ∷ m) = let rest = remove k m in if j == k then rest else (j, w) ∷ rest

  pub lookup-insert :
      (key other : K) (x : V) (rest : List (K × V))
      → lookup other (insert key x rest) ≡ (if key == other then some x else lookup other rest)
  unfolding insert lookup
  lookup-insert key other x [] = refl
  lookup-insert key other x ((i, w) ∷ rest) = ground (
    arith,
    lookup-insert key other x rest,
    e.beq_iff key other,
    e.beq_iff i key,
    e.beq_iff i other,
  )

  pub lookup-remove :
      (k j : K) (m : List (K × V)) → lookup j (remove k m) ≡ (if k == j then none else lookup j m)
  unfolding lookup remove
  lookup-remove k j [] = ground arith
  lookup-remove k j ((i, w) ∷ m) =
      ground (arith, lookup-remove k j m, e.beq_iff i k, e.beq_iff i j, e.beq_iff k j)

  pub lookup-insert_self : (k : K) (v : V) (m : List (K × V)) → lookup k (insert k v m) ≡ some v
  lookup-insert_self k v m = ground (arith, lookup-insert k k v m, eq_self k)

  pub length-remove-le : (k : K) (m : List (K × V)) → length (remove k m) ≤ length m
  unfolding remove
  length-remove-le k [] = omega arith
  length-remove-le k ((i, w) ∷ m) = ground (arith, length-remove-le k m)

  pub length-insert-le : (k : K) (v : V) (m : List (K × V)) → length (insert k v m) ≤ length m + 1
  unfolding insert
  length-insert-le k v [] = omega arith
  length-insert-le k v ((i, w) ∷ m) = ground (arith, length-insert-le k v m)

  pub length-insert-absent :
      (k : K) (v : V) (m : List (K × V)) → lookup k m ≡ none → length (insert k v m) ≡ length m + 1
  unfolding insert lookup
  length-insert-absent k v [] h = omega arith
  length-insert-absent k v ((i, w) ∷ m) h = ground (arith, length-insert-absent k v m)
