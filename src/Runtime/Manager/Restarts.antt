-- ===== src/Runtime/Manager/Restarts.antt =====
-- The restart budget of a key, over any history of the registry.
use aura_launcher.Common.{
  ℕ, ◌+◌, ◌-◌, ◌^◌, ◌≤◌, ◌<◌, String, ◌≡◌, List, [], ◌∷◌, arith, Result, ok, err, string_eq, ◌==◌,
  if◌then◌else◌,
}
use aura_launcher.Common.Map.{lookup, lookup-insert}
use text.Mathlib.TextEquality.{eq_iff}
use aura_launcher.Runtime.Manager.{
  RuntimeKey, RuntimePolicy, RuntimeManagerError, storage_key, Manager, new, use_runtime,
  drop_guard, mark_busy, restart_count, crashed, sweep_idle, release, shutdown_all, u32,
}

-- One call of the registry.
pub data Call (V E : Type 0) : Type 0 where
  acquire : ℕ → RuntimeKey → Result E V → Call V E
  finish : ℕ → RuntimeKey → Call V E
  mark : RuntimeKey → Call V E
  crash : RuntimeKey → Call V E
  sweep : ℕ → Call V E
  stop : RuntimeKey → Call V E
  shutdown : Call V E

abbrev one_if_ok : Result RuntimeManagerError ℕ → ℕ
one_if_ok (ok d) = 1
one_if_ok (err e) = 0

module _ {V E : Type 0} (policy : RuntimePolicy) where
  unfoldable pub step : Call V E → Manager V → Manager V
  step (acquire now key spawn) m = (use_runtime now key spawn m).0
  step (finish now key) m = drop_guard now key m
  step (mark key) m = mark_busy key m
  step (crash key) m = (crashed key policy m).0
  step (sweep now) m = (sweep_idle now policy m).0
  step (stop key) m = (release key m).0
  step shutdown m = (shutdown_all m).0

  unfoldable pub run : List (Call V E) → Manager V → Manager V
  unfolding step
  run [] m = m
  run (c ∷ calls) m = run calls (step c m)

  -- 1 for a crash of the storage key that is answered with a backoff, else 0.
  unfoldable pub grants : String → Call V E → Manager V → ℕ
  grants sk (crash key) m = if storage_key key == sk then one_if_ok (crashed key policy m).1 else 0
  grants sk _ m = 0

  -- How many restarts of the storage key a history was granted.
  unfoldable pub restarts : String → List (Call V E) → Manager V → ℕ
  unfolding step grants
  restarts sk [] m = 0
  restarts sk (c ∷ calls) m = grants sk c m + restarts sk calls (step c m)

  -- A call raises the count of a storage key by the restarts that it grants, and never past the
  -- budget.
  pub count-step :
      (sk : String) (c : Call V E) (m : Manager V)
      → policy.max_restarts < 2 ^ 32 - 1
      → restart_count sk m ≤ policy.max_restarts
      → (restart_count sk (step c m) ≡ restart_count sk m + grants sk c m)
        × (restart_count sk (step c m) ≤ policy.max_restarts)
  unfolding step grants restart_count use_runtime drop_guard mark_busy crashed sweep_idle release
      shutdown_all
  count-step sk (crash key) m small h = ground (
    arith,
    eq_iff (storage_key key) sk,
    lookup-insert (storage_key key) sk (u32 (restart_count (storage_key key) m + 1))
        m.restart_counts,
  )
  count-step sk (acquire now key (ok v)) m small h = ground arith
  count-step sk (acquire now key (err x)) m small h = ground arith
  count-step sk _ m small h = ground arith

  restarts_from :
      (sk : String) (calls : List (Call V E)) (m : Manager V)
      → policy.max_restarts < 2 ^ 32 - 1
      → restart_count sk m ≤ policy.max_restarts
      → restart_count sk m + restarts sk calls m ≤ policy.max_restarts
  unfolding restarts
  restarts_from sk [] m small h = omega arith
  restarts_from sk (c ∷ calls) m small h =
      let (counted, within) = count-step sk c m small h in
      omega (arith, restarts_from sk calls (step c m) small within)

  -- Whatever is started, used, stopped, swept or shut down in between, the crashes of one storage
  -- key are granted at most `max_restarts` restarts over the registry's whole life (below the
  -- largest `u32`): a runtime cannot renew its budget by going away.
  pub restarts_bounded :
      (sk : String) (calls : List (Call V E))
      → policy.max_restarts < 2 ^ 32 - 1
      → restarts sk calls new ≤ policy.max_restarts
  restarts_bounded sk calls small =
      omega
        (arith, restarts_from sk calls new small (unfold restart_count new lookup in omega arith))
