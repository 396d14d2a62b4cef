-- ===== src/Workflow/Graph/Edges.antt =====
-- The structural checks of `validate`: the ids collected, the edges collected, the ids not
-- reached.
use aura_launcher.Common.{
  ◌≡◌, refl, String, true, false, ◌&&◌, ◌||◌, not, Option, none, some, List, [], ◌∷◌, ◌++◌, arith,
  sym, ◌∙◌, string_eq, eq_self, ◌==◌, eq→path, Result, ok, err, if◌then◌else◌, Bool-cases, All, inl,
  inr, ◌⊎◌,
}
use aura_launcher.Common.Map.{lookup-insert}
use aura_launcher.Common.Ids
use aura_launcher.Common.Ids.{contains, contains-insert, Distinct}
use aura_launcher.Workflow.Graph.{
  GraphError, duplicate_node, missing_entry_node, multiple_entry, dangling_edge, self_loop, cycle,
  unreachable_node, empty, WorkflowEdge, Adjacency, collect_ids, successors, push_edge,
  collect_edges, first_missing,
}

-- The ids that the edges lead to from an id, in the order of the edges.
unfoldable pub targets : List WorkflowEdge → String → List String
targets [] u = []
targets (e ∷ es) u = let rest = targets es u in if e.from == u then e.to ∷ rest else rest

-- Both ends are ids of the graph, and they differ.
abbrev pub EdgeOk : List String → WorkflowEdge → Type 0
EdgeOk ids e =
    (contains e.from ids ≡ true) × (contains e.to ids ≡ true) × ((e.from == e.to) ≡ false)

-- What the error of an edge says about the edges.
abbrev pub EdgeDefect : List String → List WorkflowEdge → GraphError → Type 0
EdgeDefect ids es (dangling_edge f t) =
    (contains t (targets es f) ≡ true) × ((contains f ids && contains t ids) ≡ false)
EdgeDefect ids es (self_loop u) = contains u (targets es u) ≡ true
EdgeDefect ids es _ = ⊥

successors-push_edge :
    (f t : String) (adjacency : Adjacency) (u : String)
    → successors (push_edge f t adjacency) u
      ≡ (if f == u then successors adjacency u ++ t ∷ [] else successors adjacency u)
unfolding push_edge successors
successors-push_edge f t adjacency u =
    ground (arith, lookup-insert f u (successors adjacency f ++ t ∷ []) adjacency, eq→path f u)

append_snoc {ℓ} :
    {A : Type ℓ} (xs : List A) (y : A) (ys : List A) → (xs ++ y ∷ []) ++ ys ≡ xs ++ y ∷ ys
append_snoc [] y ys = refl
append_snoc (x ∷ xs) y ys = ground (arith, append_snoc xs y ys)

append_nil {ℓ} : {A : Type ℓ} (xs : List A) → xs ++ [] ≡ xs
append_nil [] = refl
append_nil (x ∷ xs) = ground (arith, append_nil xs)

targets_cons :
    (e : WorkflowEdge) (es : List WorkflowEdge) (adjacency : Adjacency) (u : String)
    → successors (push_edge e.from e.to adjacency) u ++ targets es u
      ≡ successors adjacency u ++ targets (e ∷ es) u
unfolding targets
targets_cons e es adjacency u = ground (
  arith,
  successors-push_edge e.from e.to adjacency u,
  append_snoc (successors adjacency u) e.to (targets es u),
)

-- The checks of one edge.
edge-cases :
    (ids : List String) (e : WorkflowEdge)
    → ((not (contains e.from ids) || not (contains e.to ids)) ≡ true)
      ⊎ (((not (contains e.from ids) || not (contains e.to ids)) ≡ false)
            × ((e.from == e.to) ≡ true)
          ⊎ ((not (contains e.from ids) || not (contains e.to ids)) ≡ false) × EdgeOk ids e)
edge-cases ids e = ground arith

abbrev pub EdgesOutcome :
    List String → List WorkflowEdge → Adjacency → Result GraphError Adjacency → Type 0
EdgesOutcome ids es adjacency (ok adjacency') =
    All (EdgeOk ids) es
    × ((u : String) → successors adjacency' u ≡ successors adjacency u ++ targets es u)
EdgesOutcome ids es adjacency (err x) = EdgeDefect ids es x

EdgeDefect-cons :
    (ids : List String) (e : WorkflowEdge) (es : List WorkflowEdge) (x : GraphError)
    → EdgeDefect ids es x
    → EdgeDefect ids (e ∷ es) x
unfolding targets contains
EdgeDefect-cons ids e es (dangling_edge f t) d = ground arith
EdgeDefect-cons ids e es (self_loop u) d = ground arith
EdgeDefect-cons ids e es (duplicate_node _) d = d
EdgeDefect-cons ids e es (missing_entry_node _) d = d
EdgeDefect-cons ids e es (multiple_entry _) d = d
EdgeDefect-cons ids e es (cycle _) d = d
EdgeDefect-cons ids e es (unreachable_node _) d = d
EdgeDefect-cons ids e es empty d = d

EdgesOutcome-cons :
    (ids : List String) (e : WorkflowEdge) (es : List WorkflowEdge) (adjacency : Adjacency)
    (r : Result GraphError Adjacency)
    → EdgeOk ids e
    → EdgesOutcome ids es (push_edge e.from e.to adjacency) r
    → EdgesOutcome ids (e ∷ es) adjacency r
EdgesOutcome-cons ids e es adjacency (ok adjacency') here o =
    ((here, o.0), λ u. o.1 u ∙ targets_cons e es adjacency u)
EdgesOutcome-cons ids e es adjacency (err x) here o = EdgeDefect-cons ids e es x o

first_dangling :
    (ids : List String) (e : WorkflowEdge) (es : List WorkflowEdge)
    → (not (contains e.from ids) || not (contains e.to ids)) ≡ true
    → EdgeDefect ids (e ∷ es) (dangling_edge e.from e.to)
unfolding targets contains
first_dangling ids e es h = ground (arith, eq_self e.from, eq_self e.to)

first_loop :
    (ids : List String) (e : WorkflowEdge) (es : List WorkflowEdge)
    → (e.from == e.to) ≡ true
    → EdgeDefect ids (e ∷ es) (self_loop e.from)
unfolding targets contains
first_loop ids e es h = ground (arith, eq_self e.from, eq→path e.from e.to)

pub collect_edges_outcome :
    (ids : List String) (es : List WorkflowEdge) (adjacency : Adjacency)
    → EdgesOutcome ids es adjacency (collect_edges ids es adjacency)
unfolding collect_edges
collect_edges_outcome ids [] adjacency =
    (tt, λ u. unfold targets in sym (append_nil (successors adjacency u)))
collect_edges_outcome ids (e ∷ es) adjacency = elim (edge-cases ids e) [
  | inl outside ↦ rw outside (first_dangling ids e es outside)
  | inr (inl (inside, same)) ↦ rw (inside, same) (first_loop ids e es same)
  | inr (inr (inside, good)) ↦
      rw (inside, good.2)
        (EdgesOutcome-cons ids e es adjacency
          (collect_edges ids es (push_edge e.from e.to adjacency)) good
          (collect_edges_outcome ids es (push_edge e.from e.to adjacency)))
]

-- The ids collected so far, and those still to come.
abbrev pub IdsOutcome : List String → List String → Result GraphError (List String) → Type 0
IdsOutcome ids seen (ok set) =
    Distinct ids
    × ((u : String) → contains u set ≡ (contains u ids || contains u seen))
    × ((u : String) → (contains u ids && contains u seen) ≡ false)
IdsOutcome ids seen (err (duplicate_node u)) =
    (contains u ids ≡ true)
    × (Distinct ids → (v : String) × ((contains v ids && contains v seen) ≡ true))
IdsOutcome ids seen (err _) = ⊥

IdsOutcome-cons :
    (id : String) (ids seen : List String) (r : Result GraphError (List String))
    → contains id seen ≡ false
    → IdsOutcome ids (Ids.insert id seen) r
    → IdsOutcome (id ∷ ids) seen r
unfolding contains
IdsOutcome-cons id ids seen (ok set) fresh o = (
  (ground (arith, contains-insert id id seen, eq_self id, o.2 id), o.0),
  (λ u. ground (arith, contains-insert id u seen, o.1 u)),
  λ u. ground (arith, contains-insert id u seen, o.2 u, eq→path id u),
)
IdsOutcome-cons id ids seen (err (duplicate_node u)) fresh o = (
  ground (arith, o.0),
  λ d.
      let v = o.1 d.1 in
      (v.0, ground (arith, contains-insert id v.0 seen, v.1, d.0, eq→path id v.0)),
)
IdsOutcome-cons id ids seen (err (dangling_edge _ _)) fresh o = o
IdsOutcome-cons id ids seen (err (self_loop _)) fresh o = o
IdsOutcome-cons id ids seen (err (missing_entry_node _)) fresh o = o
IdsOutcome-cons id ids seen (err (multiple_entry _)) fresh o = o
IdsOutcome-cons id ids seen (err (cycle _)) fresh o = o
IdsOutcome-cons id ids seen (err (unreachable_node _)) fresh o = o
IdsOutcome-cons id ids seen (err empty) fresh o = o

pub collect_ids_outcome : (ids seen : List String) → IdsOutcome ids seen (collect_ids ids seen)
unfolding collect_ids
collect_ids_outcome [] seen = unfold contains in (tt, (λ u. refl), λ u. refl)
collect_ids_outcome (id ∷ ids) seen = elim (Bool-cases (contains id seen)) [
  | inl again ↦
      rw again
        (unfold contains in (ground (arith, eq_self id), λ d. (id, ground (arith, eq_self id))))
  | inr fresh ↦ rw fresh (
      IdsOutcome-cons id ids seen (collect_ids ids (Ids.insert id seen)) fresh
        (collect_ids_outcome ids (Ids.insert id seen)))
]

abbrev pub MissingOutcome : List String → List String → Option String → Type 0
MissingOutcome ids reachable none =
    (u : String) → contains u ids ≡ true → contains u reachable ≡ true
MissingOutcome ids reachable (some u) = (contains u ids ≡ true) × (contains u reachable ≡ false)

missing_cons :
    (id : String) (ids reachable : List String) (r : Option String)
    → contains id reachable ≡ true
    → MissingOutcome ids reachable r
    → MissingOutcome (id ∷ ids) reachable r
unfolding contains
missing_cons id ids reachable none h o = λ u hu. ground (arith, o u, eq→path id u)
missing_cons id ids reachable (some u) h o = (ground arith, o.1)

pub first_missing_outcome :
    (ids reachable : List String) → MissingOutcome ids reachable (first_missing ids reachable)
unfolding first_missing
first_missing_outcome [] reachable = λ u hu. unfold contains in cc
first_missing_outcome (id ∷ ids) reachable = elim (Bool-cases (contains id reachable)) [
  | inl inside ↦ rw inside (
      missing_cons id ids reachable (first_missing ids reachable) inside
        (first_missing_outcome ids reachable))
  | inr outside ↦ rw outside (unfold contains in ground (arith, eq_self id), outside)
]
