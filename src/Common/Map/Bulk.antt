-- ===== src/Common/Map/Bulk.antt =====
-- Operations on all entries of a map: `values_mut` loops and `HashMap::retain`.
use mathlib.Core.Path.{◌≡◌, refl}
use mathlib.Core.Bool.{Bool, true}
use mathlib.Core.Option.{Option, none, some}
use mathlib.Core.List.{List, [], ◌∷◌}
use native.Mathlib.Omega.{arith}
use aura_launcher.Common.Tests.{if◌then◌else◌}
use aura_launcher.Common.Equality.{Eq}
use aura_launcher.Common.Map.{lookup}
use aura_launcher.Common.Map.Unique.{Unique}

module _ {ℓ κ} {K : Type ℓ} {V : Type κ} where
  unfoldable pub map_values : (V → V) → List (K × V) → List (K × V)
  map_values f [] = []
  map_values f ((k, v) ∷ m) = (k, f v) ∷ map_values f m

  unfoldable pub retain : (V → Bool) → List (K × V) → List (K × V)
  retain p [] = []
  retain p ((k, v) ∷ m) = let rest = retain p m in if p v then (k, v) ∷ rest else rest

abbrev pub over_value {ℓ} : {V : Type ℓ} → (V → V) → Option V → Option V
over_value f none = none
over_value f (some v) = some (f v)

abbrev pub keep {ℓ} : {V : Type ℓ} → (V → Bool) → Option V → Option V
keep p none = none
keep p (some v) = if p v then some v else none

module _ {ℓ κ} {K : Type ℓ} {V : Type κ} ⦃e : Eq K⦄ where
  pub lookup-map_values :
      (f : V → V) (k : K) (m : List (K × V)) → lookup k (map_values f m) ≡ over_value f (lookup k m)
  unfolding lookup map_values
  lookup-map_values f k [] = refl
  lookup-map_values f k ((j, v) ∷ m) = ground (arith, lookup-map_values f k m)

  pub map_values-Unique : (f : V → V) (m : List (K × V)) → Unique m → Unique (map_values f m)
  unfolding map_values
  map_values-Unique f [] u = tt
  map_values-Unique f ((j, v) ∷ m) u =
      ground (arith, map_values-Unique f m, lookup-map_values f j m)

  pub lookup-retain-none :
      (p : V → Bool) (k : K) (m : List (K × V)) → lookup k m ≡ none → lookup k (retain p m) ≡ none
  unfolding lookup retain
  lookup-retain-none p k [] h = refl
  lookup-retain-none p k ((j, v) ∷ m) h = ground (arith, lookup-retain-none p k m)

  pub retain-Unique : (p : V → Bool) (m : List (K × V)) → Unique m → Unique (retain p m)
  unfolding retain
  retain-Unique p [] u = tt
  retain-Unique p ((j, v) ∷ m) u = ground (arith, retain-Unique p m, lookup-retain-none p j m)

  pub lookup-retain :
      (p : V → Bool) (k : K) (m : List (K × V))
      → Unique m
      → lookup k (retain p m) ≡ keep p (lookup k m)
  unfolding lookup retain
  lookup-retain p k [] u = refl
  lookup-retain p k ((j, v) ∷ m) u =
      ground (arith, lookup-retain p k m, lookup-retain-none p j m, e.beq_iff j k)

  pub lookup-retain_kept :
      (p : V → Bool) (k : K) (v : V) (m : List (K × V))
      → lookup k m ≡ some v
      → p v ≡ true
      → lookup k (retain p m) ≡ some v
  unfolding lookup retain
  lookup-retain_kept p k v [] l h = cc
  lookup-retain_kept p k v ((j, w) ∷ m) l h = ground (arith, lookup-retain_kept p k v m)
