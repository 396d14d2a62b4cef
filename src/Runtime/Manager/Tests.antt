-- ===== src/Runtime/Manager/Tests.antt =====
-- The registry of runtimes on small inputs.
use Prim.Native.String.{◌++◌ as concat}
use aura_launcher.Common.{
  ℕ, ◌+◌, ◌-◌, ◌≤◌, ◌<◌, ◌⊎◌, String, ◌≡◌, ◌≢◌, refl, true, false, none, some, List, [], ◌∷◌, arith,
  length, string_eq, Result, ok, err,
}
use aura_launcher.Common.Map.{lookup, insert, remove}
use aura_launcher.Common.Map.Bulk.{retain}
use aura_launcher.Runtime.Manager.{
  RuntimeKey, mcp, storage_key, default_policy, millis, busy, Entry, Manager, new, use_runtime,
  drop_guard, release, sweep_idle, crashed, backoff_for, restart_count, restart_budget_exhausted,
}
use aura_launcher.Runtime.Manager.Exclusion.{use_runtime_excludes, profiles_share_runtime}
use aura_launcher.Runtime.Manager.Sweep.{sweep_idle_lem}
use aura_launcher.Runtime.Manager.Restarts.{Call, crash, sweep, run, restarts, restarts_bounded}

abbrev calc : RuntimeKey
calc = record { namespace = "plugin"; id = "calc"; profile = none }

abbrev spawned : ℕ → Result String ℕ
spawned v = ok v

use_runtime_excludes_example :
    let m' = (use_runtime 0 calc (spawned 42) new).0 in
    (use_runtime 1 calc (spawned 43) m' ≡ (m', err busy))
    × (release calc m' ≡ (m', none))
    × ((use_runtime 2 calc (spawned 43) (drop_guard 1 calc m')).1 ≡ ok 42)
unfolding use_runtime new lookup
use_runtime_excludes_example =
    use_runtime_excludes 0 calc (spawned 42) new 1 2 calc (spawned 43) 42 refl refl

profiles_share_runtime_example :
    (mcp (concat "a" (concat "/" "b")) none ≢ mcp "a" (some "b"))
    × ((use_runtime 2 (mcp "a" (some "b")) (spawned 43) (
          drop_guard 1
            (mcp (concat "a" (concat "/" "b")) none)
            (use_runtime 0 (mcp (concat "a" (concat "/" "b")) none) (spawned 42) new).0)).1
        ≡ ok 42)
unfolding use_runtime new lookup
profiles_share_runtime_example =
    profiles_share_runtime "a" "b" 0 1 2 (spawned 42) (spawned 43) new 42 refl

abbrev one_idle : Manager ℕ
one_idle = drop_guard 1 calc (use_runtime 0 calc (spawned 42) new).0

sweep_idle_lem_example :
    (default_policy.idle_timeout ≡ none → sweep_idle 9 default_policy one_idle ≡ (one_idle, []))
    × ((timeout : ℕ)
        → default_policy.idle_timeout ≡ some timeout
        → ((k : String) (e : Entry ℕ)
            → lookup k one_idle.entries ≡ some e
            → (e.busy ≡ true) ⊎ (9 - e.last_activity ≤ timeout)
            → (lookup k (sweep_idle 9 default_policy one_idle).0.entries ≡ some e)
              × (lookup k (sweep_idle 9 default_policy one_idle).1 ≡ none))
          × ((k : String) (e : Entry ℕ)
              → lookup k one_idle.entries ≡ some e
              → e.busy ≡ false
              → timeout < 9 - e.last_activity
              → (lookup k (sweep_idle 9 default_policy one_idle).0.entries ≡ none)
                × (lookup k (sweep_idle 9 default_policy one_idle).1 ≡ some e.value))
          × ((k : String)
              → lookup k one_idle.entries ≡ none
              → (lookup k (sweep_idle 9 default_policy one_idle).0.entries ≡ none)
                × (lookup k (sweep_idle 9 default_policy one_idle).1 ≡ none))
          × (length (sweep_idle 9 default_policy one_idle).0.entries
                + length (sweep_idle 9 default_policy one_idle).1
              ≡ length one_idle.entries))
unfolding use_runtime drop_guard new lookup insert storage_key
sweep_idle_lem_example = sweep_idle_lem 9 default_policy one_idle (refl, tt)

abbrev crashes : List (Call ℕ String)
crashes = crash calc ∷ crash calc ∷ sweep 5 ∷ crash calc ∷ crash calc ∷ []

restarts_bounded_example : restarts default_policy "plugin/calc" crashes new ≤ 3
unfolding default_policy
restarts_bounded_example = restarts_bounded default_policy "plugin/calc" crashes (omega arith)

-- The fourth crash is refused, and the waits grow to the last slot.
crash_budget :
    (restarts default_policy "plugin/calc" crashes new ≡ 3)
    × ((crashed calc default_policy (run default_policy crashes new)).1
        ≡ err restart_budget_exhausted)
    × (backoff_for 5 default_policy.restart_backoff ≡ millis 2000)
unfolding restarts run default_policy new crashed sweep_idle restart_count backoff_for storage_key
    lookup insert remove retain
crash_budget = (refl, refl, refl)
