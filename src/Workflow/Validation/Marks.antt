-- ===== src/Workflow/Validation/Marks.antt =====
-- The search for the steps that are reached comes to an end.
use aura_launcher.Common.{
  ℕ, zero, suc, ◌<◌, ◌≡◌, refl, String, Bool, true, false, Option, none, some, List, [], ◌∷◌,
  string_eq, ◌==◌, All, arith, if◌then◌else◌, Bool-cases, inl, inr, eq_self,
}
use aura_launcher.Common.Map.{lookup}
use aura_launcher.Common.Ids.{contains}
use aura_launcher.Workflow.Validation.Fresh.{fresh, fresh_le, fresh_lt}
use aura_launcher.Workflow.Validation.{Adjacency, targets_of, bind, mark, mark_all}
use aura_launcher.Workflow.Validation.Dfs.{Closed}

module _ (adj : Adjacency) (names : List String) where
  abbrev pub found_in : List String → String → Bool
  found_in seen u = contains u seen

  -- A search that ends, and has reached no less than before.
  abbrev pub Reached : List String → Option (List String) → Type 0
  Reached before none = ⊥
  Reached before (some after) = (u : String) → contains u before ≡ true → contains u after ≡ true

  abbrev pub Marks : ℕ → (String → List String → Option (List String)) → Type 0
  Marks fuel visit =
      (t : String) (seen : List String)
      → contains t names ≡ true
      → fresh (found_in seen) names < fuel
      → Reached seen (visit t seen)

  Reached-after :
      (a b : List String) (r : Option (List String))
      → ((u : String) → contains u a ≡ true → contains u b ≡ true)
      → Reached b r
      → Reached a r
  Reached-after a b none g d = d
  Reached-after a b (some r) g d = λ u h. d u (g u h)

  bind-Reached :
      (before : List String) (r : Option (List String)) (next : List String → Option (List String))
      → Reached before r
      → ((after : List String)
          → ((u : String) → contains u before ≡ true → contains u after ≡ true)
          → Reached after (next after))
      → Reached before (bind r next)
  bind-Reached before none next d g = d
  bind-Reached before (some after) next d g = Reached-after before after (next after) d (g after d)

  either-Reached :
      (before : List String) (b : Bool) (x y : Option (List String))
      → Reached before x
      → Reached before y
      → Reached before (if b then x else y)
  either-Reached before true x y hx hy = hx
  either-Reached before false x y hx hy = hy

  mark_all-Reached :
      (fuel : ℕ) (visit : String → List String → Option (List String)) (ts seen : List String)
      → Marks fuel visit
      → All (λ t. contains t names ≡ true) ts
      → fresh (found_in seen) names < fuel
      → Reached seen (mark_all visit ts seen)
  unfolding mark_all
  mark_all-Reached fuel visit [] seen v a h = λ u k. k
  mark_all-Reached fuel visit (t ∷ ts) seen v a h =
      either-Reached seen (t == "end") (mark_all visit ts seen)
        (bind (visit t seen) (λ found. mark_all visit ts found))
        (mark_all-Reached fuel visit ts seen v a.1 h)
        (bind-Reached seen (visit t seen) (λ found. mark_all visit ts found) (v t seen a.0 h)
          (λ after g.
            mark_all-Reached fuel visit ts after v a.1
              (omega (arith, fresh_le (found_in seen) (found_in after) names g))))

  grown :
      (t : String) (seen : List String) (u : String)
      → contains u seen ≡ true
      → contains u (t ∷ seen) ≡ true
  unfolding contains
  grown t seen u h = ground (arith, h)

  met_now : (t : String) (seen : List String) → contains t (t ∷ seen) ≡ true
  unfolding contains
  met_now t seen = ground (arith, eq_self t)

  pub Reached-some :
      (r : Option (List String)) → Reached [] r → (seen : List String) × (r ≡ some seen)
  Reached-some none d = absurd d
  Reached-some (some p) d = (p, refl)

  pub mark_reached : (fuel : ℕ) → Closed adj names → Marks fuel (λ t seen. mark adj fuel t seen)
  unfolding mark
  mark_reached zero closed t seen i h = absurd (omega arith)
  mark_reached (suc fuel) closed t seen i h = elim (Bool-cases (contains t seen)) [
    | inl old ↦ rw old (λ u k. k)
    | inr new ↦ rw new (
        Reached-after seen (t ∷ seen) _ (grown t seen) (
          mark_all-Reached fuel (λ t2 found. mark adj fuel t2 found) (targets_of (lookup t adj))
            (t ∷ seen) (mark_reached fuel closed) (closed t)
            (omega (
              arith,
              fresh_lt (found_in seen) (found_in (t ∷ seen)) names t (grown t seen) i new
                  (met_now t seen),
            ))))
  ]
