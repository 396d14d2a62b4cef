-- ===== src/Workflow/Graph/Colors.antt =====
-- The cycle check of `validate` (graph.rs): depth-first search with an explicit stack, where an
-- entry marked `true` closes the visit of its id.
use aura_launcher.Common.{ℕ, zero, suc, Bool, true, false, Option, none, some, List, [], ◌∷◌, Eq}
use aura_launcher.Common.Map.{lookup, insert}

pub data Color : Type 0 where
  visiting done : Color

-- `fine` when the loops end, `cyclic` on the early `return Err(Cycle(..))`.
pub data Visit : Type 0 where
  fine cyclic : Visit

-- The `match color.get(id)` of the loop: skip, stop at a cycle, or visit.
abbrev pub match_color {ℓ} :
    {A : Type ℓ} → Option Color → Option (Option A) → Option (Option A) → Option (Option A)
match_color (some done) skip visit = skip
match_color (some visiting) skip visit = some none
match_color none skip visit = visit

-- What follows one inner loop.
abbrev pub match_loop {ℓ} : {A : Type ℓ} → Option (Option A) → (A → Option Visit) → Option Visit
match_loop none go_on = none
match_loop (some none) go_on = some cyclic
match_loop (some (some colors)) go_on = go_on colors

module _ {ℓ} {K : Type ℓ} ⦃e : Eq K⦄ (next : K → List K) where
  unfoldable pub push_visits : List K → List (K × Bool) → List (K × Bool)
  push_visits [] stack = stack
  push_visits (n ∷ nexts) stack = push_visits nexts ((n, false) ∷ stack)

  -- The inner loop; it hands the colors on to the next start.
  unfoldable pub color_loop :
      ℕ → List (K × Bool) → List (K × Color) → Option (Option (List (K × Color)))
  unfolding push_visits
  color_loop zero stack colors = none
  color_loop (suc fuel) [] colors = some (some colors)
  color_loop (suc fuel) ((id, true) ∷ stack) colors = color_loop fuel stack (insert id done colors)
  color_loop (suc fuel) ((id, false) ∷ stack) colors =
      let skip = color_loop fuel stack colors in
      let visit =
        color_loop fuel (push_visits (next id) ((id, true) ∷ stack)) (insert id visiting colors) in
      match_color (lookup id colors) skip visit

  unfoldable pub color_starts : ℕ → List K → List (K × Color) → Option Visit
  color_starts fuel [] colors = some fine
  color_starts fuel (start ∷ starts) colors =
      match_loop (color_loop fuel ((start, false) ∷ []) colors)
        (λ colors'. color_starts fuel starts colors')
