-- ===== src/Workflow/Runner/Positions.antt =====
-- Positions of a definition and of its run.
use aura_launcher.Common.{
  ℕ, zero, suc, ◌+◌, ◌<◌, ◌≡◌, refl, ap, subst, String, Bool, true, false, Option, none, some, List,
  [], ◌∷◌, map, any, all, get_elem?, length, ltb, ltb→lt, All, arith, Bool-cases, ◌⊎◌, inl, inr,
  if◌then◌else◌, ◌==◌, string_eq,
}
use aura_launcher.Domain.Definition.{
  WorkflowStep, WorkflowDefinition, StepRunStatus, waiting_for_confirmation, WorkflowRunStatus,
  succeeded, run_failed, StepRun, WorkflowRun,
}
use aura_launcher.Workflow.Runner.{at_step, is_over}
use aura_launcher.Workflow.Runner.Walk.{
  run, first_or, index_of, entry, next_linear, transition, unselected, finish,
}

abbrev pub is_waiting : StepRunStatus → Bool
is_waiting waiting_for_confirmation = true
is_waiting _ = false

pub get_elem?-lt {ℓ} :
    {A : Type ℓ} (xs : List A) (i : ℕ) → i < length xs → (a : A) × (get_elem? xs i ≡ some a)
get_elem?-lt [] i h = absurd (omega arith)
get_elem?-lt (x ∷ xs) zero h = (x, refl)
get_elem?-lt (x ∷ xs) (suc i) h = get_elem?-lt xs i (omega arith)

pub same_some {ℓ} : {A : Type ℓ} (x y : A) → some x ≡ some y → x ≡ y
same_some x y h = cc

pub All-get {ℓ κ} :
    {A : Type ℓ} (P : A → Type κ) (xs : List A) (i : ℕ) (a : A)
    → All P xs
    → get_elem? xs i ≡ some a
    → P a
All-get P [] i a h e = cc
All-get P (x ∷ xs) zero a h e = subst P (same_some x a e) h.0
All-get P (x ∷ xs) (suc i) a h e = All-get P xs i a h.1 e

abbrev pub InRange : ℕ → Option ℕ → Type 0
InRange n none = Unit
InRange n (some i) = i < n

pub first_or_range :
    (n : ℕ) (o : Option ℕ) (b : Bool) → InRange n o → InRange (suc n) (first_or o b)
first_or_range n (some j) b h = omega arith
first_or_range n none true h = omega arith
first_or_range n none false h = tt

pub pick_range : (n : ℕ) (b : Bool) (o : Option ℕ) → InRange n o → InRange n (if b then none else o)
pick_range n true o h = tt
pick_range n false o h = h

module _ {N : Type 0} where
  pub length-at_step :
      (i : ℕ) (f : StepRun N → StepRun N) (steps : List (StepRun N))
      → length (at_step i f steps) ≡ length steps
  length-at_step i f [] = refl
  length-at_step zero f (sr ∷ steps) = refl
  length-at_step (suc i) f (sr ∷ steps) = ap suc (length-at_step i f steps)

  abbrev pub waits : List (StepRun N) → Bool
  waits steps = any (λ sr. is_waiting sr.status) steps

  pub waits_at :
      (i : ℕ) (sr : StepRun N) (steps : List (StepRun N))
      → i < length steps
      → is_waiting sr.status ≡ true
      → waits (at_step i (λ _. sr) steps) ≡ true
  waits_at i sr [] h w = absurd (omega arith)
  waits_at zero sr (x ∷ steps) h w = rw w refl
  waits_at (suc i) sr (x ∷ steps) h w = ground (arith, waits_at i sr steps (omega arith) w)

  pub index_of_range :
      (id : String) (steps : List (WorkflowStep N)) → InRange (length steps) (index_of id steps)
  unfolding index_of
  index_of_range id [] = tt
  index_of_range id (s ∷ steps) =
      first_or_range (length steps) (index_of id steps) (s.step_id == id) (index_of_range id steps)

  pub next_range :
      (def : WorkflowDefinition N) (i : ℕ) → InRange (length def.steps) (next_linear def i)
  unfolding next_linear
  next_range def i = elim (Bool-cases (ltb (i + 1) (length def.steps))) [
    | inl more ↦ rw more (ltb→lt (i + 1) (length def.steps) more)
    | inr over ↦ rw over tt
  ]

  pub transition_range :
      (def : WorkflowDefinition N) (to : Option String) (i : ℕ)
      → InRange (length def.steps) (transition def to i)
  unfolding transition
  transition_range def none i = next_range def i
  transition_range def (some t) i =
      pick_range (length def.steps) (t == "end") (index_of t def.steps) (index_of_range t def.steps)

  pub entry_range : (def : WorkflowDefinition N) → InRange (length def.steps) (entry def)
  unfolding entry
  entry_range def = index_of_range _ def.steps

  -- A run that is over: every step has completed or is skipped if it succeeded, and a step waits
  -- for a confirmation if it is paused.
  abbrev pub Settled : WorkflowRun N → Type 0
  Settled run =
      ((run.status ≡ succeeded) × (all (λ sr. is_over sr.status) run.steps ≡ true))
      ⊎ ((run.status ≡ run_failed)
          ⊎ ((run.status ≡ WorkflowRunStatus.paused) × (waits run.steps ≡ true)))

  pub finish_settles : (run : WorkflowRun N) → Settled (finish run)
  unfolding finish
  finish_settles run =
      elim (Bool-cases (all (λ sr. is_over sr.status) (map unselected run.steps))) [
        | inl over ↦ inl (ap (λ b. if b then succeeded else run_failed) over, over)
        | inr open_step ↦ inr (inl (ap (λ b. if b then succeeded else run_failed) open_step))
      ]
