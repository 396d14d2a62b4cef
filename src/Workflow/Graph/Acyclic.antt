-- ===== src/Workflow/Graph/Acyclic.antt =====
-- The cycle check is right: it lets a graph pass when no visited id lies on a cycle, and stops
-- only on a cycle.
use aura_launcher.Common.{
  ◌≡◌, refl, Bool, true, false, ◌||◌, Option, none, some, List, [], ◌∷◌, ◌++◌, arith, Eq, eq_self,
  inl, inr, subst, sym, ◌⊎◌,
}
use aura_launcher.Common.Map.{lookup, insert, lookup-insert}
use aura_launcher.Common.Ids.{contains, contains-append}
use aura_launcher.Workflow.Graph.Colors.{Color, visiting, done, push_visits}

abbrev pub is_done : Option Color → Bool
is_done (some done) = true
is_done _ = false

abbrev pub is_visiting : Option Color → Bool
is_visiting (some visiting) = true
is_visiting _ = false

pub nothing_inside {ℓ} : {A : Type ℓ} ⦃e : Eq A⦄ (u : A) → contains u [] ≡ true → ⊥
unfolding contains
nothing_inside u h = cc

module _ {ℓ} {K : Type ℓ} ⦃e : Eq K⦄ (next : K → List K) where
  -- A walk of one step or more.
  pub data Walk (u : K) : K → Type ℓ where
    edge : {v : K} → contains v (next u) ≡ true → Walk u v
    onward : {v w : K} → Walk u v → contains w (next v) ≡ true → Walk u w

  abbrev pub IsDone : List (K × Color) → K → Type 0
  IsDone colors u = is_done (lookup u colors) ≡ true

  -- Finished ids, the last one first: each one's successors were finished before it.
  abbrev pub Ordered : List K → Type ℓ
  Ordered [] = Unit
  Ordered (u ∷ finished) =
      ((v : K) → contains v (next u) ≡ true → contains v finished ≡ true) × Ordered finished

  Ordered-next :
      (finished : List K) (u v : K)
      → Ordered finished
      → contains u finished ≡ true
      → contains v (next u) ≡ true
      → contains v finished ≡ true
  unfolding contains
  Ordered-next [] u v o inside step = cc
  Ordered-next (j ∷ finished) u v o inside step =
      ground (arith, o.0 v, Ordered-next finished u v o.1, e.beq_iff j u)

  walk_from_head :
      (u : K) (finished : List K) (v : K)
      → Ordered (u ∷ finished)
      → Walk u v
      → contains v finished ≡ true
  walk_from_head u finished v o (edge step) = o.0 v step
  walk_from_head u finished v o (onward {v = w} path step) =
      Ordered-next finished w v o.1 (walk_from_head u finished w o path) step

  walk_elsewhere :
      (j u : K) (finished : List K)
      → contains u (j ∷ finished) ≡ true
      → (j ≡ u) ⊎ (contains u finished ≡ true)
  unfolding contains
  walk_elsewhere j u finished inside = ground (arith, e.beq_iff j u)

  -- No finished id lies on a cycle.
  pub Ordered-acyclic :
      (finished : List K) (u : K) → Ordered finished → contains u finished ≡ true → ¬ Walk u u
  Ordered-acyclic [] u o inside w = nothing_inside u inside
  Ordered-acyclic (j ∷ finished) u o inside w = elim (walk_elsewhere j u finished inside) [
    | inl head ↦
        let w' : Walk j j = subst (λ x. Walk x x) (sym head) w in
        Ordered-acyclic finished j o.1 (walk_from_head j finished j o w') w'
    | inr later ↦ Ordered-acyclic finished u o.1 later w
  ]

  -- For each open visit on the stack, its successors are finished or stand above it.
  abbrev Pending : List K → List K → List (K × Bool) → Type ℓ
  Pending finished above [] = Unit
  Pending finished above ((u, true) ∷ stack) =
      ((v : K) → contains v (next u) ≡ true → (contains v finished || contains v above) ≡ true)
      × Pending finished (u ∷ above) stack
  Pending finished above ((u, false) ∷ stack) = Pending finished (u ∷ above) stack

  abbrev Covers : List K → List K → List K → List K → Type ℓ
  Covers finished above finished' above' =
      (v : K)
      → (contains v finished || contains v above) ≡ true
      → (contains v finished' || contains v above') ≡ true

  Covers-cons :
      (u : K) (finished above finished' above' : List K)
      → Covers finished above finished' above'
      → Covers finished (u ∷ above) finished' (u ∷ above')
  unfolding contains
  Covers-cons u finished above finished' above' c v h = ground (arith, c v)

  pending_mono :
      (finished above finished' above' : List K) (stack : List (K × Bool))
      → Covers finished above finished' above'
      → Pending finished above stack
      → Pending finished' above' stack
  pending_mono finished above finished' above' [] c p = tt
  pending_mono finished above finished' above' ((u, true) ∷ stack) c p = (
    λ v step. c v (p.0 v step),
    pending_mono finished (u ∷ above) finished' (u ∷ above') stack
        (Covers-cons u finished above finished' above' c) p.1,
  )
  pending_mono finished above finished' above' ((u, false) ∷ stack) c p =
      pending_mono finished (u ∷ above) finished' (u ∷ above') stack
        (Covers-cons u finished above finished' above' c) p

  pending_push :
      (finished above nexts : List K) (stack : List (K × Bool))
      → Pending finished (nexts ++ above) stack
      → Pending finished above (push_visits next nexts stack)
  unfolding push_visits
  pending_push finished above [] stack p = p
  pending_push finished above (n ∷ nexts) stack p =
      pending_push finished above nexts ((n, false) ∷ stack) p

  abbrev pub entry_ids : List (K × Bool) → List K
  entry_ids [] = []
  entry_ids ((u, b) ∷ stack) = u ∷ entry_ids stack

  -- The colors agree with the finished ids.
  abbrev pub Matches : List (K × Color) → List K → Type ℓ
  Matches colors finished = (u : K) → is_done (lookup u colors) ≡ contains u finished

  -- The open visits of a stack: a visiting id is among them.
  abbrev open_ids : List (K × Bool) → List K
  open_ids [] = []
  open_ids ((u, true) ∷ stack) = u ∷ open_ids stack
  open_ids ((u, false) ∷ stack) = open_ids stack

  abbrev pub Gray : List (K × Color) → List (K × Bool) → Type ℓ
  Gray colors stack =
      (u : K) → is_visiting (lookup u colors) ≡ true → contains u (open_ids stack) ≡ true

  -- The nearest open visit of a stack has `u` as a successor.
  abbrev Link : K → List (K × Bool) → Type 0
  Link u [] = Unit
  Link u ((w, true) ∷ stack) = contains u (next w) ≡ true
  Link u ((w, false) ∷ stack) = Link u stack

  abbrev Chained : List (K × Bool) → Type 0
  Chained [] = Unit
  Chained ((u, b) ∷ stack) = Link u stack × Chained stack

  pub chained_walk :
      (u : K) (stack : List (K × Bool)) (v : K)
      → Link u stack
      → Chained stack
      → contains v (open_ids stack) ≡ true
      → Walk v u
  chained_walk u [] v link c inside = absurd (nothing_inside v inside)
  chained_walk u ((w, false) ∷ stack) v link c inside = chained_walk u stack v link c.1 inside
  chained_walk u ((w, true) ∷ stack) v link c inside =
      elim (walk_elsewhere w v (open_ids stack) inside) [
        | inl here ↦ subst (λ x. Walk x u) here (edge link)
        | inr below ↦ onward (chained_walk w stack v c.0 c.1 below) link
      ]

  Links : List K → List (K × Bool) → Type ℓ
  Links nexts stack = (n : K) → contains n nexts ≡ true → Link n stack

  Links-tail :
      (n : K) (nexts : List K) (stack : List (K × Bool))
      → Links (n ∷ nexts) stack
      → Links nexts ((n, false) ∷ stack)
  unfolding Links contains
  Links-tail n nexts stack l m inside = l m (ground arith)

  Links-head :
      (n : K) (nexts : List K) (stack : List (K × Bool)) → Links (n ∷ nexts) stack → Link n stack
  unfolding Links contains
  Links-head n nexts stack l = l n (ground (arith, eq_self n))

  Chained-push :
      (nexts : List K) (stack : List (K × Bool))
      → Links nexts stack
      → Chained stack
      → Chained (push_visits next nexts stack)
  unfolding push_visits
  Chained-push [] stack l c = c
  Chained-push (n ∷ nexts) stack l c =
      Chained-push nexts ((n, false) ∷ stack) (Links-tail n nexts stack l)
        (Links-head n nexts stack l, c)

  open_push :
      (nexts : List K) (stack : List (K × Bool))
      → open_ids (push_visits next nexts stack) ≡ open_ids stack
  unfolding push_visits
  open_push [] stack = refl
  open_push (n ∷ nexts) stack = open_push nexts ((n, false) ∷ stack)

  pub contains-entry_push :
      (u : K) (nexts : List K) (stack : List (K × Bool))
      → contains u (entry_ids stack) ≡ true
      → contains u (entry_ids (push_visits next nexts stack)) ≡ true
  unfolding push_visits contains
  contains-entry_push u [] stack h = h
  contains-entry_push u (n ∷ nexts) stack h =
      contains-entry_push u nexts ((n, false) ∷ stack) (ground arith)

  -- What holds between two rounds of the loop.
  pub record Good (stack : List (K × Bool)) (colors : List (K × Color)) (finished : List K)
      : Type ℓ where
    pub matches : Matches colors finished
    pub ordered : Ordered finished
    pub pending : Pending finished [] stack
    pub gray : Gray colors stack
    pub chained : Chained stack

  pub Good-close :
      (id : K) (stack : List (K × Bool)) (colors : List (K × Color)) (finished : List K)
      → Good ((id, true) ∷ stack) colors finished
      → Good stack (insert id done colors) (id ∷ finished)
  unfolding contains
  Good-close id stack colors finished g = record {
    matches = λ u. ground (arith, lookup-insert id u done colors, g.matches u);
    ordered = (λ v step. ground (arith, g.pending.0 v step), g.ordered);
    pending =
        pending_mono finished (id ∷ []) (id ∷ finished) [] stack (λ v h. ground arith) g.pending.1;
    gray = λ u h. ground (arith, lookup-insert id u done colors, g.gray u);
    chained = g.chained.1;
  }

  pub Good-skip :
      (id : K) (stack : List (K × Bool)) (colors : List (K × Color)) (finished : List K)
      → lookup id colors ≡ some done
      → Good ((id, false) ∷ stack) colors finished
      → Good stack colors finished
  unfolding contains
  Good-skip id stack colors finished seen g = record {
    matches = g.matches;
    ordered = g.ordered;
    pending =
        pending_mono finished (id ∷ []) finished [] stack
          (λ v h. ground (arith, g.matches id, e.beq_iff id v)) g.pending;
    gray = g.gray;
    chained = g.chained.1;
  }

  pending_open :
      (id : K) (stack : List (K × Bool)) (finished : List K)
      → Pending finished (id ∷ []) stack
      → Pending finished [] (push_visits next (next id) ((id, true) ∷ stack))
  unfolding contains
  pending_open id stack finished p = pending_push finished [] (next id) ((id, true) ∷ stack) (
    λ v step. ground (arith, contains-append v (next id) []),
    pending_mono finished (id ∷ []) finished (id ∷ (next id ++ [])) stack (λ v h. ground arith) p,
  )

  pub Good-visit :
      (id : K) (stack : List (K × Bool)) (colors : List (K × Color)) (finished : List K)
      → lookup id colors ≡ none
      → Good ((id, false) ∷ stack) colors finished
      → Good (push_visits next (next id) ((id, true) ∷ stack)) (insert id visiting colors) finished
  unfolding contains Links
  Good-visit id stack colors finished unseen g = record {
    matches = λ u. ground (arith, lookup-insert id u visiting colors, g.matches u, e.beq_iff id u);
    ordered = g.ordered;
    pending = pending_open id stack finished g.pending;
    gray = λ u h. ground (
      arith,
      open_push (next id) ((id, true) ∷ stack),
      lookup-insert id u visiting colors,
      g.gray u,
    );
    chained =
        Chained-push (next id) ((id, true) ∷ stack) (λ n inside. inside) (g.chained.0, g.chained.1);
  }
