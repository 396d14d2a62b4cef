-- ===== src/Workflow/Validation/Fresh.antt =====
-- What a search has still to meet.
use aura_launcher.Common.{
  ℕ, ◌≤◌, ◌<◌, ◌≡◌, ap, ◌∙◌, String, Bool, true, false, ◌||◌, not, List, [], ◌∷◌, length, filter,
  string_eq, ◌==◌, arith, Bool-cases, inl, inr, eq→path,
}
use aura_launcher.Common.Ids.{contains}

-- The names that a search has not met.
abbrev pub fresh : (String → Bool) → List String → ℕ
fresh met_before names = length (filter (λ u. not (met_before u)) names)

pub fresh_le :
    (p q : String → Bool) (names : List String)
    → ((u : String) → p u ≡ true → q u ≡ true)
    → fresh q names ≤ fresh p names
fresh_le p q [] h = omega arith
fresh_le p q (u ∷ names) h = ground (arith, fresh_le p q names h, h u)

first_lt :
    (p q : String → Bool) (u : String) (names : List String)
    → p u ≡ false
    → q u ≡ true
    → fresh q names ≤ fresh p names
    → fresh q (u ∷ names) < fresh p (u ∷ names)
first_lt p q u names f t h = ground (arith, f, t)

later_lt :
    (p q : String → Bool) (u : String) (names : List String)
    → (p u ≡ true → q u ≡ true)
    → fresh q names < fresh p names
    → fresh q (u ∷ names) < fresh p (u ∷ names)
later_lt p q u names g h = ground (arith, g)

later_in : (a b : Bool) → a ≡ false → (a || b) ≡ true → b ≡ true
later_in true b e h = cc
later_in false b e h = h

pub fresh_lt :
    (p q : String → Bool) (names : List String) (x : String)
    → ((u : String) → p u ≡ true → q u ≡ true)
    → contains x names ≡ true
    → p x ≡ false
    → q x ≡ true
    → fresh q names < fresh p names
unfolding contains
fresh_lt p q [] x h c f t = cc
fresh_lt p q (u ∷ names) x h c f t = elim (Bool-cases (u == x)) [
  | inl same ↦
      let e = eq→path u x same in
      first_lt p q u names (ap p e ∙ f) (ap q e ∙ t) (fresh_le p q names h)
  | inr other ↦
      later_lt p q u names (h u)
        (fresh_lt p q names x h (later_in (u == x) (contains x names) other c) f t)
]
