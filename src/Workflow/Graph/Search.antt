-- ===== src/Workflow/Graph/Search.antt =====
-- The reachability loop of `validate` (graph.rs): a stack of ids, popped from its end.
use aura_launcher.Common.{
  ℕ, zero, suc, ◌+◌, ◌≤◌, ◌<◌, ◌≡◌, refl, Bool, true, false, ◌||◌, Option, none, some, List, [],
  ◌∷◌, arith, length, Eq, ◌==◌, eq_self, Bool-cases, inl, inr, if◌then◌else◌, none-ne-some,
  some-inj, subst,
}
use aura_launcher.Common.Ids
use aura_launcher.Common.Ids.{contains, contains-insert, contains-append}

module _ {ℓ} {K : Type ℓ} ⦃e : Eq K⦄ (next : K → List K) where
  -- What is pushed for the successors: the last of them comes to the top of the stack.
  unfoldable pub pushed : List K → List K → List K
  pushed [] stack = stack
  pushed (n ∷ nexts) stack = pushed nexts (n ∷ stack)

  unfoldable pub reach_loop : ℕ → List K → List K → Option (List K)
  unfolding pushed
  reach_loop zero stack reachable = none
  reach_loop (suc fuel) [] reachable = some reachable
  reach_loop (suc fuel) (id ∷ stack) reachable =
      let seen = reach_loop fuel stack reachable in
      let fresh = reach_loop fuel (pushed (next id) stack) (Ids.insert id reachable) in
      if contains id reachable then seen else fresh

  -- The pushes that the ids outside a set can still cause.
  unfoldable pub budget : (K → Bool) → List K → ℕ
  budget seen [] = 0
  budget seen (id ∷ ids) =
      let rest = budget seen ids in if seen id then rest else suc (length (next id)) + rest

  -- Rounds enough for either loop, from a stack of one id.
  unfoldable pub fuel_for : List K → ℕ
  unfolding budget
  fuel_for ids = suc (suc (budget (λ id. false) ids))

  pub contains-pushed :
      (v : K) (nexts stack : List K)
      → contains v (pushed nexts stack) ≡ (contains v nexts || contains v stack)
  unfolding pushed contains
  contains-pushed v [] stack = refl
  contains-pushed v (n ∷ nexts) stack = ground (arith, contains-pushed v nexts (n ∷ stack))

  pub length-pushed :
      (nexts stack : List K) → length (pushed nexts stack) ≡ length nexts + length stack
  unfolding pushed
  length-pushed [] stack = omega arith
  length-pushed (n ∷ nexts) stack = omega (arith, length-pushed nexts (n ∷ stack))

  -- `v` can be reached from `start` along successors.
  pub data Reachable (start : K) : K → Type ℓ where
    here : Reachable start start
    step : {u v : K} → Reachable start u → contains v (next u) ≡ true → Reachable start v

  -- Successors of reached ids are reached, or wait on the stack.
  abbrev pub Covered : List K → List K → Type ℓ
  Covered stack reachable =
      (u v : K)
      → contains u reachable ≡ true
      → contains v (next u) ≡ true
      → (contains v reachable || contains v stack) ≡ true

  abbrev pub Sound : K → List K → Type ℓ
  Sound start ids = (u : K) → contains u ids ≡ true → Reachable start u

  Covered-skip :
      (id : K) (stack reachable : List K)
      → contains id reachable ≡ true
      → Covered (id ∷ stack) reachable
      → Covered stack reachable
  unfolding contains
  Covered-skip id stack reachable old c u v hu hv = ground (arith, c u v hu hv, e.beq_iff id v)

  Covered-expand :
      (id : K) (stack reachable : List K)
      → Covered (id ∷ stack) reachable
      → Covered (pushed (next id) stack) (Ids.insert id reachable)
  unfolding contains
  Covered-expand id stack reachable c u v hu hv = ground (
    arith,
    contains-insert id u reachable,
    contains-insert id v reachable,
    contains-pushed v (next id) stack,
    e.beq_iff id u,
    e.beq_iff id v,
    c u v,
  )

  module _ (start : K) where
    Sound-expand_stack :
        (id : K) (stack : List K) → Sound start (id ∷ stack) → Sound start (pushed (next id) stack)
    unfolding contains
    Sound-expand_stack id stack s u hu = elim (Bool-cases (contains u (next id))) [
      | inl new ↦ step (s id (ground (arith, eq_self id))) new
      | inr old ↦ s u (ground (arith, contains-pushed u (next id) stack))
    ]

    Sound-insert :
        (id : K) (stack reachable : List K)
        → Sound start (id ∷ stack)
        → Sound start reachable
        → Sound start (Ids.insert id reachable)
    unfolding contains
    Sound-insert id stack reachable s r u hu = elim (Bool-cases (id == u)) [
      | inl same ↦ s u (ground arith)
      | inr other ↦ r u (ground (arith, contains-insert id u reachable))
    ]

    Sound-tail : (id : K) (stack : List K) → Sound start (id ∷ stack) → Sound start stack
    unfolding contains
    Sound-tail id stack s u hu = s u (ground arith)

    -- What the loop makes of a stack and a set.
    pub record Explored (stack reachable result : List K) : Type ℓ where
      pub covered : Covered [] result
      pub sound : Sound start result
      pub kept :
          (u : K) → (contains u reachable || contains u stack) ≡ true → contains u result ≡ true

    Explored-skip :
        (id : K) (stack reachable result : List K)
        → contains id reachable ≡ true
        → Explored stack reachable result
        → Explored (id ∷ stack) reachable result
    unfolding contains
    Explored-skip id stack reachable result old x = record {
      covered = x.covered;
      sound = x.sound;
      kept = λ u hu. x.kept u (ground (arith, e.beq_iff id u));
    }

    Explored-expand :
        (id : K) (stack reachable result : List K)
        → Explored (pushed (next id) stack) (Ids.insert id reachable) result
        → Explored (id ∷ stack) reachable result
    unfolding contains
    Explored-expand id stack reachable result x = record {
      covered = x.covered;
      sound = x.sound;
      kept = λ u hu.
          x.kept u
            (ground (arith, contains-insert id u reachable, contains-pushed u (next id) stack));
    }

    -- What the loop returns is sound, closed under successors, and holds what it was given.
    pub reach_loop-Explored :
        (fuel : ℕ) (stack reachable result : List K)
        → reach_loop fuel stack reachable ≡ some result
        → Covered stack reachable
        → Sound start stack
        → Sound start reachable
        → Explored stack reachable result
    unfolding reach_loop
    reach_loop-Explored zero stack reachable result h c s r = absurd (none-ne-some h)
    reach_loop-Explored (suc fuel) [] reachable result h c s r =
        subst (λ x. Explored [] reachable x) (some-inj h)
          (record { covered = c; sound = r; kept = λ u hu. unfold contains in ground arith })
    reach_loop-Explored (suc fuel) (id ∷ stack) reachable result h c s r =
        elim (Bool-cases (contains id reachable)) [
          | inl old ↦ Explored-skip id stack reachable result old (
              reach_loop-Explored fuel stack reachable result (rw old at h)
                (Covered-skip id stack reachable old c) (Sound-tail id stack s) r)
          | inr new ↦ Explored-expand id stack reachable result (
              reach_loop-Explored fuel (pushed (next id) stack) (Ids.insert id reachable) result
                (rw new at h) (Covered-expand id stack reachable c) (Sound-expand_stack id stack s)
                (Sound-insert id stack reachable s r))
        ]

  Covered-next :
      (ids : List K) (w v : K)
      → Covered [] ids
      → contains w ids ≡ true
      → contains v (next w) ≡ true
      → contains v ids ≡ true
  unfolding contains
  Covered-next ids w v c hw hv = ground (arith, c w v hw hv)

  -- A closed set that has the start has all that can be reached from it.
  pub Covered-Reachable :
      (start : K) (ids : List K)
      → Covered [] ids
      → contains start ids ≡ true
      → (u : K) → Reachable start u
      → contains u ids ≡ true
  Covered-Reachable start ids c s u here = s
  Covered-Reachable start ids c s v (step {u = w} path edge) =
      Covered-next ids w v c (Covered-Reachable start ids c s w path) edge

  -- Enough fuel.
  pub budget_mono :
      (seen seen' : K → Bool) (ids : List K)
      → ((u : K) → seen u ≡ true → seen' u ≡ true)
      → budget seen' ids ≤ budget seen ids
  unfolding budget
  budget_mono seen seen' [] more = omega arith
  budget_mono seen seen' (id ∷ ids) more = ground (arith, budget_mono seen seen' ids more, more id)

  pub budget_drop :
      (id : K) (seen seen' : K → Bool) (ids : List K)
      → contains id ids ≡ true
      → seen id ≡ false
      → seen' id ≡ true
      → ((u : K) → seen u ≡ true → seen' u ≡ true)
      → suc (length (next id)) + budget seen' ids ≤ budget seen ids
  unfolding budget contains
  budget_drop id seen seen' [] inside fresh now more = cc
  budget_drop id seen seen' (j ∷ ids) inside fresh now more = ground (
    arith,
    budget_drop id seen seen' ids,
    budget_mono seen seen' ids more,
    more j,
    e.beq_iff j id,
  )

  -- The successors of the ids are among the ids.
  abbrev pub Within : List K → Type ℓ
  Within ids =
      (u v : K) → contains u ids ≡ true → contains v (next u) ≡ true → contains v ids ≡ true

  abbrev pub SubsetOf : List K → List K → Type ℓ
  SubsetOf ids stack = (u : K) → contains u stack ≡ true → contains u ids ≡ true

  subset_tail :
      (ids : List K) (id : K) (stack : List K) → SubsetOf ids (id ∷ stack) → SubsetOf ids stack
  unfolding contains
  subset_tail ids id stack s u hu = s u (ground arith)

  subset_pushed :
      (ids : List K) (id : K) (stack : List K)
      → Within ids
      → SubsetOf ids (id ∷ stack)
      → SubsetOf ids (pushed (next id) stack)
  unfolding contains
  subset_pushed ids id stack w s u hu =
      ground (arith, contains-pushed u (next id) stack, s u, s id, w id u, eq_self id)

  pub reach_loop_total :
      (ids : List K) (fuel : ℕ) (stack reachable : List K)
      → Within ids
      → SubsetOf ids stack
      → length stack + budget (λ u. contains u reachable) ids < fuel
      → (result : List K) × (reach_loop fuel stack reachable ≡ some result)
  unfolding reach_loop
  reach_loop_total ids zero stack reachable w s h = absurd (omega arith)
  reach_loop_total ids (suc fuel) [] reachable w s h = (reachable, refl)
  reach_loop_total ids (suc fuel) (id ∷ stack) reachable w s h =
      elim (Bool-cases (contains id reachable)) [
        | inl old ↦
            rw old (
              reach_loop_total ids fuel stack reachable w (subset_tail ids id stack s)
                (omega arith))
        | inr new ↦
            let drop =
              budget_drop id (λ u. contains u reachable) (λ u. contains u (Ids.insert id reachable))
                ids (s id (unfold contains in ground (arith, eq_self id))) new
                (ground (arith, contains-insert id id reachable, eq_self id))
                (λ u hu. ground (arith, contains-insert id u reachable)) in
            rw new (
              reach_loop_total ids fuel (pushed (next id) stack) (Ids.insert id reachable) w
                (subset_pushed ids id stack w s) (omega (arith, length-pushed (next id) stack)))
      ]
