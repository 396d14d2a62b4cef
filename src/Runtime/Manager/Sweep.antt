-- ===== src/Runtime/Manager/Sweep.antt =====
-- The idle sweep: which runtimes it removes, and that none is lost.
use aura_launcher.Common.{
  ℕ, ◌+◌, ◌-◌, ◌≤◌, ◌<◌, String, ◌≡◌, refl, Bool, true, false, not, Option, none, some, List, [],
  ◌∷◌, map, arith, length, string_eq, ◌⊎◌, inl, inr, ltb→lt, lt→ltb,
}
use aura_launcher.Common.Map.{lookup}
use aura_launcher.Common.Map.Bulk.{retain, lookup-retain, lookup-retain-none}
use aura_launcher.Common.Map.Unique.{Unique}
use aura_launcher.Runtime.Manager.{
  RuntimePolicy, Entry, Manager, idle, not_idle, sweep_idle, value_of,
}

module _ {V : Type 0} where
  abbrev value_in : Option (Entry V) → Option V
  value_in none = none
  value_in (some e) = some e.value

  length-retain :
      (p q : Entry V → Bool) (m : List (String × Entry V))
      → ((e : Entry V) → q e ≡ not (p e))
      → length (retain q m) + length (map value_of (retain p m)) ≡ length m
  unfolding retain
  length-retain p q [] split = omega arith
  length-retain p q ((k, e) ∷ m) split = ground (arith, length-retain p q m split, split e)

  -- What was handed out for a key, among entries that pass a test.
  lookup-handed :
      (p : Entry V → Bool) (k : String) (m : List (String × Entry V))
      → lookup k (map value_of (retain p m)) ≡ value_in (lookup k (retain p m))
  unfolding lookup retain
  lookup-handed p k [] = refl
  lookup-handed p k ((j, e) ∷ m) = ground (arith, lookup-handed p k m)

  active_kept :
      (now timeout : ℕ) (m : Manager V)
      → Unique m.entries
      → (k : String) (e : Entry V) → lookup k m.entries ≡ some e
      → (e.busy ≡ true) ⊎ (now - e.last_activity ≤ timeout)
      → (lookup k (retain (not_idle now timeout) m.entries) ≡ some e)
        × (lookup k (map value_of (retain (idle now timeout) m.entries)) ≡ none)
  active_kept now timeout m u k e found used =
      let test : idle now timeout e ≡ false = elim used [
        | inl active ↦ ground arith
        | inr recent ↦ ground (arith, ltb→lt timeout (now - e.last_activity))
      ] in
      rw
        (
          lookup-handed (idle now timeout) k m.entries,
          lookup-retain (idle now timeout) k m.entries u,
          lookup-retain (not_idle now timeout) k m.entries u,
          found,
          test,
        )
        (refl, refl)

  idle_handed :
      (now timeout : ℕ) (m : Manager V)
      → Unique m.entries
      → (k : String) (e : Entry V) → lookup k m.entries ≡ some e
      → e.busy ≡ false
      → timeout < now - e.last_activity
      → (lookup k (retain (not_idle now timeout) m.entries) ≡ none)
        × (lookup k (map value_of (retain (idle now timeout) m.entries)) ≡ some e.value)
  idle_handed now timeout m u k e found free late =
      let test : idle now timeout e ≡ true =
        rw (free, lt→ltb timeout (now - e.last_activity) late) refl in
      rw
        (
          lookup-handed (idle now timeout) k m.entries,
          lookup-retain (idle now timeout) k m.entries u,
          lookup-retain (not_idle now timeout) k m.entries u,
          found,
          test,
        )
        (refl, refl)

  -- With an idle timeout, the sweep leaves a runtime that is in use or was active within the
  -- timeout as it was, and hands out nothing under its key; it takes every other runtime out of
  -- the registry and hands its value out under its own key; and it makes up none: the entries left
  -- and those handed out are together as many as before. Without a timeout it does nothing.
  pub sweep_idle_lem :
      (now : ℕ) (policy : RuntimePolicy) (m : Manager V)
      → Unique m.entries
      → (policy.idle_timeout ≡ none → sweep_idle now policy m ≡ (m, []))
        × ((timeout : ℕ)
            → policy.idle_timeout ≡ some timeout
            → ((k : String) (e : Entry V)
                → lookup k m.entries ≡ some e
                → (e.busy ≡ true) ⊎ (now - e.last_activity ≤ timeout)
                → (lookup k (sweep_idle now policy m).0.entries ≡ some e)
                  × (lookup k (sweep_idle now policy m).1 ≡ none))
              × ((k : String) (e : Entry V)
                  → lookup k m.entries ≡ some e
                  → e.busy ≡ false
                  → timeout < now - e.last_activity
                  → (lookup k (sweep_idle now policy m).0.entries ≡ none)
                    × (lookup k (sweep_idle now policy m).1 ≡ some e.value))
              × ((k : String)
                  → lookup k m.entries ≡ none
                  → (lookup k (sweep_idle now policy m).0.entries ≡ none)
                    × (lookup k (sweep_idle now policy m).1 ≡ none))
              × (length (sweep_idle now policy m).0.entries + length (sweep_idle now policy m).1
                  ≡ length m.entries))
  unfolding sweep_idle
  sweep_idle_lem now policy m u = (
    λ off. rw off,
    λ timeout on. rw on (
      λ k e found used. active_kept now timeout m u k e found used,
      λ k e found free late. idle_handed now timeout m u k e found free late,
      λ k miss. (
        lookup-retain-none (not_idle now timeout) k m.entries miss,
        rw
            (
              lookup-handed (idle now timeout) k m.entries,
              lookup-retain-none (idle now timeout) k m.entries miss,
            )
            refl,
      ),
      length-retain (idle now timeout) (not_idle now timeout) m.entries (λ e. refl),
    ),
  )
