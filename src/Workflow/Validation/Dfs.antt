-- ===== src/Workflow/Validation/Dfs.antt =====
-- The search for cycles comes to an end.
use aura_launcher.Common.{
  ℕ, zero, suc, ◌≤◌, ◌≡◌, refl, ap, String, Bool, true, false, Option, none, some, List, [], ◌∷◌,
  string_eq, All, arith, eq_self,
}
use aura_launcher.Common.Map as Map
use aura_launcher.Common.Map.{lookup, lookup-insert}
use aura_launcher.Common.Ids.{contains}
use aura_launcher.Workflow.Validation.Fresh.{fresh, fresh_le, fresh_lt}
use aura_launcher.Workflow.Validation.{
  Adjacency, Colors, targets_of, bind, met, finished, dfs, dfs_all,
}

abbrev pub has : Option Bool → Bool
has none = false
has (some c) = true

module _ (adj : Adjacency) (names : List String) where
  abbrev pub seen_in : Colors → String → Bool
  seen_in colors u = has (lookup u colors)

  abbrev pub Grows : Colors → Colors → Type 0
  Grows before after = (u : String) → seen_in before u ≡ true → seen_in after u ≡ true

  -- A search that ends, and has met no less than before.
  abbrev pub Done : Colors → Option (Colors × Bool) → Type 0
  Done before none = ⊥
  Done before (some r) = Grows before r.0

  insert-Grows :
      (node : String) (c : Bool) (colors : Colors) → Grows colors (Map.insert node c colors)
  insert-Grows node c colors u h = ground (arith, lookup-insert node u c colors)

  insert_met :
      (node : String) (c : Bool) (colors : Colors) → seen_in (Map.insert node c colors) node ≡ true
  insert_met node c colors = ground (arith, lookup-insert node node c colors, eq_self node)

  -- All the targets of all nodes are among the names.
  abbrev pub Closed : Type 0
  Closed = (node : String) → All (λ t. contains t names ≡ true) (targets_of (lookup node adj))

  abbrev pub Visits : ℕ → (String → Colors → Bool → Option (Colors × Bool)) → Type 0
  Visits fuel visit =
      (t : String) (colors : Colors) (c : Bool)
      → contains t names ≡ true
      → seen_in colors t ≡ false
      → fresh (seen_in colors) names ≤ fuel
      → Done colors (visit t colors c)

  Done-after : (a b : Colors) (r : Option (Colors × Bool)) → Grows a b → Done b r → Done a r
  Done-after a b none g d = d
  Done-after a b (some r) g d = λ u h. d u (g u h)

  bind-Done :
      (before : Colors) (r : Option (Colors × Bool)) (next : Colors × Bool → Option (Colors × Bool))
      → Done before r
      → ((p : Colors × Bool) → Grows before p.0 → Done p.0 (next p))
      → Done before (bind r next)
  bind-Done before none next d g = d
  bind-Done before (some p) next d g = Done-after before p.0 (next p) d (g p d)

  finish-Done : (t : String) (p : Colors × Bool) → Done p.0 (finished t p)
  unfolding finished
  finish-Done t p = insert-Grows t false p.0

  by_color :
      (fuel : ℕ) (visit : String → Colors → Bool → Option (Colors × Bool)) (t : String)
      (ts : List String) (colors : Colors) (c : Bool)
      → Visits fuel visit
      → All (λ x. contains x names ≡ true) (t ∷ ts)
      → fresh (seen_in colors) names ≤ fuel
      → (o : Option Bool) → lookup t colors ≡ o
      → ((d : Bool) → Done colors (dfs_all visit ts colors d))
      → ((p : Colors × Bool) → Grows colors p.0 → Done p.0 (dfs_all visit ts p.0 p.1))
      → Done colors (
          met o
            (λ d. dfs_all visit ts colors d)
            (λ u. bind (visit t colors c) (λ r. dfs_all visit ts r.0 r.1))
            c)
  by_color fuel visit t ts colors c v a h (some true) e later next = later true
  by_color fuel visit t ts colors c v a h (some false) e later next = later c
  by_color fuel visit t ts colors c v a h none e later next =
      bind-Done colors (visit t colors c) (λ r. dfs_all visit ts r.0 r.1)
        (v t colors c a.0 (ap has e) h) next

  dfs_all-Done :
      (fuel : ℕ) (visit : String → Colors → Bool → Option (Colors × Bool)) (ts : List String)
      (colors : Colors) (c : Bool)
      → Visits fuel visit
      → All (λ t. contains t names ≡ true) ts
      → fresh (seen_in colors) names ≤ fuel
      → Done colors (dfs_all visit ts colors c)
  unfolding dfs_all
  dfs_all-Done fuel visit [] colors c v a h = λ u k. k
  dfs_all-Done fuel visit (t ∷ ts) colors c v a h =
      by_color fuel visit t ts colors c v a h (lookup t colors) refl
        (λ d. dfs_all-Done fuel visit ts colors d v a.1 h)
        (λ p g.
          dfs_all-Done fuel visit ts p.0 p.1 v a.1
            (omega (arith, fresh_le (seen_in colors) (seen_in p.0) names g)))

  pub dfs_done : (fuel : ℕ) → Closed → Visits fuel (λ t colors c. dfs adj fuel t colors c)
  unfolding dfs
  dfs_done zero closed t colors c i n h =
      absurd (omega (arith, fresh_lt (seen_in colors) (λ u. true) names t (λ u k. refl) i n refl))
  dfs_done (suc fuel) closed t colors true i n h = λ u k. k
  dfs_done (suc fuel) closed t colors false i n h =
      let inside = Map.insert t true colors in
      Done-after colors inside _ (insert-Grows t true colors) (
        bind-Done inside
          (dfs_all (λ t2 c b. dfs adj fuel t2 c b) (targets_of (lookup t adj)) inside false)
          (λ r. finished t r)
          (dfs_all-Done fuel (λ t2 c b. dfs adj fuel t2 c b) (targets_of (lookup t adj)) inside
            false (dfs_done fuel closed) (closed t)
            (omega (
              arith,
              fresh_lt (seen_in colors) (seen_in inside) names t (insert-Grows t true colors) i n
                  (insert_met t true colors),
            )))
          (λ p g. finish-Done t p))

  pub Done-some : (r : Option (Colors × Bool)) → Done [] r → (p : Colors × Bool) × (r ≡ some p)
  Done-some none d = absurd d
  Done-some (some p) d = (p, refl)
