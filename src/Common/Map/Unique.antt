-- ===== src/Common/Map/Unique.antt =====
-- Maps with one entry for a key: what `HashMap` guarantees, and what its operations keep.
use mathlib.Core.Path.{◌≡◌, refl}
use mathlib.Core.Option.{none, some}
use mathlib.Core.List.{List, [], ◌∷◌}
use Prim.Native.Nat.{ℕ, ◌+◌}
use native.Mathlib.Omega.{arith}
use aura_launcher.Common.Equality.{Eq}
use aura_launcher.Common.Lists.{length}
use aura_launcher.Common.Map.{lookup, insert, remove, lookup-insert, lookup-remove}

module _ {ℓ κ} {K : Type ℓ} {V : Type κ} ⦃e : Eq K⦄ where
  abbrev pub Unique : List (K × V) → Type κ
  Unique [] = Unit
  Unique ((k, v) ∷ m) = (lookup k m ≡ none) × Unique m

  -- The sum of a measure over the values.
  abbrev pub total : (V → ℕ) → List (K × V) → ℕ
  total f [] = 0
  total f ((k, v) ∷ m) = f v + total f m

  pub remove_absent : (k : K) (m : List (K × V)) → lookup k m ≡ none → remove k m ≡ m
  unfolding lookup remove
  remove_absent k [] h = ground arith
  remove_absent k ((i, w) ∷ m) h = ground (arith, remove_absent k m)

  pub remove-Unique : (k : K) (m : List (K × V)) → Unique m → Unique (remove k m)
  unfolding remove
  remove-Unique k [] u = tt
  remove-Unique k ((i, w) ∷ m) u = ground (arith, remove-Unique k m, lookup-remove k i m)

  pub insert-Unique : (k : K) (v : V) (m : List (K × V)) → Unique m → Unique (insert k v m)
  unfolding insert lookup
  insert-Unique k v [] u = ground arith
  insert-Unique k v ((i, w) ∷ m) u =
      ground (arith, insert-Unique k v m, lookup-insert k i v m, e.beq_iff i k, e.beq_iff k i)

  pub length-remove_present :
      (k : K) (v : V) (m : List (K × V))
      → Unique m
      → lookup k m ≡ some v
      → length (remove k m) + 1 ≡ length m
  unfolding lookup remove
  length-remove_present k v [] u h = ground arith
  length-remove_present k v ((i, w) ∷ m) u h =
      ground (arith, length-remove_present k v m, remove_absent k m, e.beq_iff i k)

  pub total-remove :
      (f : V → ℕ) (k : K) (v : V) (m : List (K × V))
      → Unique m
      → lookup k m ≡ some v
      → total f (remove k m) + f v ≡ total f m
  unfolding lookup remove
  total-remove f k v [] u h = ground arith
  total-remove f k v ((i, w) ∷ m) u h =
      ground (arith, total-remove f k v m, remove_absent k m, e.beq_iff i k)

  pub total-insert_absent :
      (f : V → ℕ) (k : K) (v : V) (m : List (K × V))
      → lookup k m ≡ none
      → total f (insert k v m) ≡ total f m + f v
  unfolding lookup insert
  total-insert_absent f k v [] h = ground arith
  total-insert_absent f k v ((i, w) ∷ m) h = ground (arith, total-insert_absent f k v m)

  pub total_of_length : (f : V → ℕ) (m : List (K × V)) → length m ≡ 0 → total f m ≡ 0
  total_of_length f [] h = refl
  total_of_length f (x ∷ m) h = absurd (omega arith)
