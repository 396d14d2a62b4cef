-- ===== src/Workflow/Graph/Visits.antt =====
-- The runs of the cycle check: what its loops hand on, what an early return shows, and that
-- they end.
use aura_launcher.Common.{
  ℕ, zero, suc, ◌+◌, ◌≤◌, ◌<◌, ◌≡◌, refl, Bool, true, false, ◌||◌, Option, none, some, List, [],
  ◌∷◌, arith, length, Eq, eq_self, inl, inr, none-ne-some, some-inj, subst, sym, ◌⊎◌, ◌∙◌,
}
use aura_launcher.Common.Map.{lookup, insert, lookup-insert}
use aura_launcher.Common.Ids.{contains}
use aura_launcher.Workflow.Graph.Search.{
  fuel_for, budget, budget_drop, budget_mono, Within, SubsetOf,
}
use aura_launcher.Workflow.Graph.Colors.{
  Color, visiting, done, Visit, fine, cyclic, push_visits, color_loop, color_starts,
}
use aura_launcher.Workflow.Graph.Acyclic.{
  Walk, Ordered, Good, Good-close, Good-skip, Good-visit, chained_walk, entry_ids,
  contains-entry_push,
}

pub color-cases : (c : Option Color) → (c ≡ none) ⊎ ((c ≡ some visiting) ⊎ (c ≡ some done))
color-cases none = inl refl
color-cases (some visiting) = inr (inl refl)
color-cases (some done) = inr (inr refl)

module _ {ℓ} {K : Type ℓ} ⦃e : Eq K⦄ (next : K → List K) where
  -- What a run of the loop hands on.
  pub record Handed (stack : List (K × Bool)) (finished : List K) (colors' : List (K × Color))
      : Type ℓ where
    pub result : List K
    pub good : Good next [] colors' result
    pub kept :
        (u : K)
        → (contains u finished || contains u (entry_ids next stack)) ≡ true
        → contains u result ≡ true

  Handed-close :
      (id : K) (stack : List (K × Bool)) (finished : List K) (colors' : List (K × Color))
      → Handed stack (id ∷ finished) colors'
      → Handed ((id, true) ∷ stack) finished colors'
  unfolding contains
  Handed-close id stack finished colors' h = record {
    result = h.result;
    good = h.good;
    kept = λ u c. h.kept u (ground arith);
  }

  Handed-skip :
      (id : K) (stack : List (K × Bool)) (finished : List K) (colors' : List (K × Color))
      → contains id finished ≡ true
      → Handed stack finished colors'
      → Handed ((id, false) ∷ stack) finished colors'
  unfolding contains
  Handed-skip id stack finished colors' inside h = record {
    result = h.result;
    good = h.good;
    kept = λ u c. h.kept u (ground (arith, e.beq_iff id u));
  }

  Handed-visit :
      (id : K) (stack : List (K × Bool)) (finished : List K) (colors' : List (K × Color))
      → Handed (push_visits next (next id) ((id, true) ∷ stack)) finished colors'
      → Handed ((id, false) ∷ stack) finished colors'
  unfolding contains
  Handed-visit id stack finished colors' h = record {
    result = h.result;
    good = h.good;
    kept =
        λ u c. h.kept u (ground (arith, contains-entry_push next u (next id) ((id, true) ∷ stack)));
  }

  pub color_loop-fine :
      (fuel : ℕ) (stack : List (K × Bool)) (colors : List (K × Color)) (finished : List K)
      (colors' : List (K × Color))
      → color_loop next fuel stack colors ≡ some (some colors')
      → Good next stack colors finished
      → Handed stack finished colors'
  unfolding color_loop
  color_loop-fine zero stack colors finished colors' h g = absurd (none-ne-some h)
  color_loop-fine (suc fuel) [] colors finished colors' h g = record {
    result = finished;
    good = subst (λ c. Good next [] c finished) (some-inj (some-inj h)) g;
    kept = λ u c. unfold contains in ground arith;
  }
  color_loop-fine (suc fuel) ((id, true) ∷ stack) colors finished colors' h g =
      Handed-close id stack finished colors' (
        color_loop-fine fuel stack (insert id done colors) (id ∷ finished) colors' h
          (Good-close next id stack colors finished g))
  color_loop-fine (suc fuel) ((id, false) ∷ stack) colors finished colors' h g =
      elim (color-cases (lookup id colors)) [
        | inl unseen ↦ Handed-visit id stack finished colors' (
            color_loop-fine fuel (push_visits next (next id) ((id, true) ∷ stack))
              (insert id visiting colors) finished colors' (rw unseen at h)
              (Good-visit next id stack colors finished unseen g))
        | inr (inl opened) ↦ absurd (none-ne-some (some-inj (rw opened at h)))
        | inr (inr closed) ↦ Handed-skip id stack finished colors' (ground (arith, g.matches id)) (
            color_loop-fine fuel stack colors finished colors' (rw closed at h)
              (Good-skip next id stack colors finished closed g))
      ]

  -- An early return has an id that lies on a cycle.
  pub color_loop-cyclic :
      (fuel : ℕ) (stack : List (K × Bool)) (colors : List (K × Color)) (finished : List K)
      → color_loop next fuel stack colors ≡ some none
      → Good next stack colors finished
      → (u : K) × Walk next u u
  unfolding color_loop
  color_loop-cyclic zero stack colors finished h g = absurd (none-ne-some h)
  color_loop-cyclic (suc fuel) [] colors finished h g = absurd (none-ne-some (sym (some-inj h)))
  color_loop-cyclic (suc fuel) ((id, true) ∷ stack) colors finished h g =
      color_loop-cyclic fuel stack (insert id done colors) (id ∷ finished) h
        (Good-close next id stack colors finished g)
  color_loop-cyclic (suc fuel) ((id, false) ∷ stack) colors finished h g =
      elim (color-cases (lookup id colors)) [
        | inl unseen ↦
            color_loop-cyclic fuel (push_visits next (next id) ((id, true) ∷ stack))
              (insert id visiting colors) finished (rw unseen at h)
              (Good-visit next id stack colors finished unseen g)
        | inr (inl opened) ↦
            (id, chained_walk next id stack id g.chained.0 g.chained.1 (g.gray id (ground arith)))
        | inr (inr closed) ↦
            color_loop-cyclic fuel stack colors finished (rw closed at h)
              (Good-skip next id stack colors finished closed g)
      ]

  abbrev is_colored : Option Color → Bool
  is_colored none = false
  is_colored (some c) = true

  abbrev pub colored : List (K × Color) → K → Bool
  colored colors u = is_colored (lookup u colors)

  subset_entry :
      (ids : List K) (id : K) (b : Bool) (stack : List (K × Bool))
      → SubsetOf next ids (entry_ids next ((id, b) ∷ stack))
      → SubsetOf next ids (entry_ids next stack)
  unfolding contains
  subset_entry ids id b stack s u hu = s u (ground arith)

  subset_visits :
      (ids nexts : List K) (stack : List (K × Bool))
      → SubsetOf next ids nexts
      → SubsetOf next ids (entry_ids next stack)
      → SubsetOf next ids (entry_ids next (push_visits next nexts stack))
  unfolding push_visits contains
  subset_visits ids [] stack w s = s
  subset_visits ids (n ∷ nexts) stack w s =
      subset_visits ids nexts ((n, false) ∷ stack) (λ u hu. w u (ground arith))
        (λ u hu. ground (arith, w u, s u))

  length-push_visits :
      (nexts : List K) (stack : List (K × Bool))
      → length (push_visits next nexts stack) ≡ length nexts + length stack
  unfolding push_visits
  length-push_visits [] stack = omega arith
  length-push_visits (n ∷ nexts) stack =
      omega (arith, length-push_visits nexts ((n, false) ∷ stack))

  pub color_loop_total :
      (ids : List K) (fuel : ℕ) (stack : List (K × Bool)) (colors : List (K × Color))
      → Within next ids
      → SubsetOf next ids (entry_ids next stack)
      → length stack + budget next (colored colors) ids < fuel
      → (result : Option (List (K × Color))) × (color_loop next fuel stack colors ≡ some result)
  unfolding color_loop
  color_loop_total ids zero stack colors w s h = absurd (omega arith)
  color_loop_total ids (suc fuel) [] colors w s h = (some colors, refl)
  color_loop_total ids (suc fuel) ((id, true) ∷ stack) colors w s h =
      color_loop_total ids fuel stack (insert id done colors) w (subset_entry ids id true stack s) (
        let less =
          budget_mono next (colored colors) (colored (insert id done colors)) ids
            (λ u hu. ground (arith, lookup-insert id u done colors)) in
        omega arith)
  color_loop_total ids (suc fuel) ((id, false) ∷ stack) colors w s h =
      elim (color-cases (lookup id colors)) [
        | inl unseen ↦
            let inside : contains id ids ≡ true =
              s id (unfold contains in ground (arith, eq_self id)) in
            let less =
              budget_drop next id (colored colors) (colored (insert id visiting colors)) ids inside
                (ground arith) (ground (arith, lookup-insert id id visiting colors, eq_self id))
                (λ u hu. ground (arith, lookup-insert id u visiting colors)) in
            rw unseen (
              color_loop_total ids fuel (push_visits next (next id) ((id, true) ∷ stack))
                (insert id visiting colors) w
                (subset_visits ids (next id) ((id, true) ∷ stack) (λ v hv. w id v inside hv) s)
                (omega (arith, length-push_visits (next id) ((id, true) ∷ stack))))
        | inr (inl opened) ↦ rw opened (none, refl)
        | inr (inr closed) ↦ rw closed (
            color_loop_total ids fuel stack colors w (subset_entry ids id false stack s)
              (omega arith))
      ]

  start-Good :
      (start : K) (colors : List (K × Color)) (finished : List K)
      → Good next [] colors finished
      → Good next ((start, false) ∷ []) colors finished
  start-Good start colors finished g = record {
    matches = g.matches;
    ordered = g.ordered;
    pending = tt;
    gray = g.gray;
    chained = (tt, tt);
  }

  -- What a run over all starts shows.
  pub record Swept (starts finished : List K) : Type ℓ where
    pub result : List K
    pub ordered : Ordered next result
    pub kept :
        (u : K) → (contains u finished || contains u starts) ≡ true → contains u result ≡ true

  Swept-cons :
      (start : K) (starts finished : List K) (colors' : List (K × Color))
      (h : Handed ((start, false) ∷ []) finished colors')
      → Swept starts h.result
      → Swept (start ∷ starts) finished
  unfolding contains
  Swept-cons start starts finished colors' h s = record {
    result = s.result;
    ordered = s.ordered;
    kept = λ u c. s.kept u (ground (arith, h.kept u));
  }

  loop-cases :
      (r : Option (Option (List (K × Color))))
      → (r ≡ none) ⊎ ((r ≡ some none) ⊎ ((c : List (K × Color)) × (r ≡ some (some c))))
  loop-cases none = inl refl
  loop-cases (some none) = inr (inl refl)
  loop-cases (some (some c)) = inr (inr (c, refl))

  pub color_starts-fine :
      (fuel : ℕ) (starts : List K) (colors : List (K × Color)) (finished : List K)
      → color_starts next fuel starts colors ≡ some fine
      → Good next [] colors finished
      → Swept starts finished
  unfolding color_starts
  color_starts-fine fuel [] colors finished h g = record {
    result = finished;
    ordered = g.ordered;
    kept = λ u c. unfold contains in ground arith;
  }
  color_starts-fine fuel (start ∷ starts) colors finished h g =
      elim (loop-cases (color_loop next fuel ((start, false) ∷ []) colors)) [
        | inl stopped ↦ absurd (none-ne-some (rw stopped at h))
        | inr (inl cycle) ↦ cc
        | inr (inr (colors', run)) ↦
            let handed =
              color_loop-fine fuel ((start, false) ∷ []) colors finished colors' run
                (start-Good start colors finished g) in
            Swept-cons start starts finished colors' handed
              (color_starts-fine fuel starts colors' handed.result (rw run at h) handed.good)
      ]

  pub color_starts-cyclic :
      (fuel : ℕ) (starts : List K) (colors : List (K × Color)) (finished : List K)
      → color_starts next fuel starts colors ≡ some cyclic
      → Good next [] colors finished
      → (u : K) × Walk next u u
  unfolding color_starts
  color_starts-cyclic fuel [] colors finished h g = cc
  color_starts-cyclic fuel (start ∷ starts) colors finished h g =
      elim (loop-cases (color_loop next fuel ((start, false) ∷ []) colors)) [
        | inl stopped ↦ absurd (none-ne-some (rw stopped at h))
        | inr (inl cycle) ↦
            color_loop-cyclic fuel ((start, false) ∷ []) colors finished cycle
              (start-Good start colors finished g)
        | inr (inr (colors', run)) ↦
            let handed =
              color_loop-fine fuel ((start, false) ∷ []) colors finished colors' run
                (start-Good start colors finished g) in
            color_starts-cyclic fuel starts colors' handed.result (rw run at h) handed.good
      ]

  enough_for :
      (ids : List K) (fuel : ℕ) (colors : List (K × Color))
      → fuel_for next ids ≤ fuel
      → budget next (colored colors) ids ≤ budget next (λ u. false) ids
      → 1 + budget next (colored colors) ids < fuel
  unfolding fuel_for
  enough_for ids fuel colors h less = omega arith

  pub color_starts_total :
      (ids : List K) (fuel : ℕ) (starts : List K) (colors : List (K × Color))
      → Within next ids
      → SubsetOf next ids starts
      → fuel_for next ids ≤ fuel
      → (result : Visit) × (color_starts next fuel starts colors ≡ some result)
  unfolding color_starts
  color_starts_total ids fuel [] colors w s h = (fine, refl)
  color_starts_total ids fuel (start ∷ starts) colors w s h =
      elim (loop-cases (color_loop next fuel ((start, false) ∷ []) colors)) [
        | inl stopped ↦
            let less = budget_mono next (λ u. false) (colored colors) ids (λ u hu. cc) in
            let run =
              color_loop_total ids fuel ((start, false) ∷ []) colors w
                (λ u hu. s u (unfold contains in ground arith))
                (enough_for ids fuel colors h less) in
            absurd (none-ne-some (sym stopped ∙ run.1))
        | inr (inl cycle) ↦ rw cycle (cyclic, refl)
        | inr (inr (colors', run)) ↦ rw run (
            color_starts_total ids fuel starts colors' w
              (λ u hu. s u (unfold contains in ground arith)) h)
      ]
