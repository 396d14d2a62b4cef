-- ===== src/Runtime/Manager.antt =====
-- The registry of persistent runtimes (crates/launcher-runtime/src/runtime_manager.rs). Instants
-- and durations are nanoseconds; a call that reads the clock takes the instant. The opaque value
-- is the parameter `V`; what `spawn` returns is an argument, read only where the code spawns.
pub mod Exclusion
pub mod Sweep
pub mod Restarts
pub mod Tests
use Prim.Native.String.{◌++◌ as concat}
use aura_launcher.Common.{
  ℕ, ◌+◌, ◌-◌, ◌*◌, ◌%◌, ◌^◌, min, String, Bool, true, false, ◌&&◌, not, Option, none, some, List,
  [], ◌∷◌, map, ltb, length, get_elem?, string_eq, Result, ok, err, if◌then◌else◌,
}
use aura_launcher.Common.Map.{lookup, insert, remove}
use aura_launcher.Common.Map.Bulk.{retain}

pub data RuntimeMode : Type 0 where
  ephemeral persistent : RuntimeMode

pub record RuntimeKey : Type 0 where
  pub namespace : String
  pub id : String
  pub profile : Option String

unfoldable pub plugin : String → RuntimeKey
plugin id = record { namespace = "plugin"; id = id; profile = none }

unfoldable pub mcp : String → Option String → RuntimeKey
mcp id profile = record { namespace = "mcp"; id = id; profile = profile }

-- The formats "{}/{}/{}" and "{}/{}".
abbrev joined : String → String → Option String → String
joined namespace id (some p) = concat namespace (concat "/" (concat id (concat "/" p)))
joined namespace id none = concat namespace (concat "/" id)

unfoldable pub storage_key : RuntimeKey → String
storage_key k = joined k.namespace k.id k.profile

pub data RestartPolicy : Type 0 where
  never on_crash : RestartPolicy

pub record RuntimePolicy : Type 0 where
  pub idle_timeout : Option ℕ
  pub restart_policy : RestartPolicy
  pub max_restarts : ℕ
  pub restart_backoff : List ℕ

abbrev pub millis : ℕ → ℕ
millis n = n * 1_000_000

unfoldable pub default_policy : RuntimePolicy
default_policy = record {
  idle_timeout = some (millis 1_800_000);
  restart_policy = on_crash;
  max_restarts = 3;
  restart_backoff = millis 100 ∷ millis 500 ∷ millis 2000 ∷ [];
}

pub data RuntimeManagerError : Type 0 where
  busy restart_budget_exhausted restart_blocked not_found : RuntimeManagerError

pub record Entry (V : Type 0) : Type 0 where
  pub value : V
  pub mode : RuntimeMode
  pub last_activity : ℕ
  pub busy : Bool
  pub restart_count : ℕ

pub record Manager (V : Type 0) : Type 0 where
  pub entries : List (String × Entry V)
  pub restart_counts : List (String × ℕ)

abbrev count_or_zero : Option ℕ → ℕ
count_or_zero none = 0
count_or_zero (some n) = n

abbrev or_100ms : Option ℕ → ℕ
or_100ms none = millis 100
or_100ms (some d) = d

-- `u32` arithmetic wraps in the released build.
abbrev pub u32 : ℕ → ℕ
u32 n = n % 2 ^ 32

unfoldable pub backoff_for : ℕ → List ℕ → ℕ
backoff_for new_count slots =
    or_100ms (get_elem? slots (min (u32 (new_count + (2 ^ 32 - 1))) (length slots - 1)))

module _ {V : Type 0} where
  abbrev pub entry_busy : Option (Entry V) → Bool
  entry_busy none = false
  entry_busy (some e) = e.busy

  unfoldable pub is_busy : RuntimeKey → Manager V → Bool
  is_busy key m = entry_busy (lookup (storage_key key) m.entries)

  abbrev mark_found : String → Manager V → Option (Entry V) → Manager V
  mark_found sk m none = m
  mark_found sk m (some e) = record m { entries = insert sk (record e { busy = true }) m.entries }

  unfoldable pub mark_busy : RuntimeKey → Manager V → Manager V
  mark_busy key m = mark_found (storage_key key) m (lookup (storage_key key) m.entries)

  abbrev spawned_entry : ℕ → V → Entry V
  spawned_entry now v = record {
    value = v;
    mode = persistent;
    last_activity = now;
    busy = true;
    restart_count = 0;
  }

  -- An entry that was there is marked; an absent one is spawned, inserted and marked.
  abbrev use_entry :
      {E : Type 0}
      → ℕ
      → String
      → Result E V
      → Manager V
      → Option (Entry V)
      → Manager V × Result RuntimeManagerError V
  use_entry now sk spawn m (some e) = if e.busy then (m, err RuntimeManagerError.busy) else (
    record m { entries = insert sk (record e { busy = true; last_activity = now }) m.entries },
    ok e.value,
  )
  use_entry now sk (ok v) m none =
      (record m { entries = insert sk (spawned_entry now v) m.entries }, ok v)
  use_entry now sk (err e) m none = (m, err not_found)

  -- The result is the value that the guard gives access to.
  unfoldable pub use_runtime :
      {E : Type 0}
      → ℕ
      → RuntimeKey
      → Result E V
      → Manager V
      → Manager V × Result RuntimeManagerError V
  use_runtime now key spawn m =
      use_entry now (storage_key key) spawn m (lookup (storage_key key) m.entries)

  abbrev freed : ℕ → String → Manager V → Option (Entry V) → Manager V
  freed now sk m none = m
  freed now sk m (some e) = record m {
    entries = insert sk (record e { busy = false; last_activity = now }) m.entries;
  }

  -- `Drop` of the guard. What its holder writes into the value meanwhile is not modelled.
  unfoldable pub drop_guard : ℕ → RuntimeKey → Manager V → Manager V
  drop_guard now key m = freed now (storage_key key) m (lookup (storage_key key) m.entries)

  unfoldable pub restart_count : String → Manager V → ℕ
  restart_count sk m = count_or_zero (lookup sk m.restart_counts)

  abbrev crash_with :
      String → RuntimePolicy → Manager V → RestartPolicy → Manager V × Result RuntimeManagerError ℕ
  crash_with sk policy m never = (m, err restart_blocked)
  crash_with sk policy m on_crash =
      let new_count = u32 (restart_count sk m + 1) in
      if ltb policy.max_restarts new_count then (m, err restart_budget_exhausted) else (
        record m { restart_counts = insert sk new_count m.restart_counts },
        ok (backoff_for new_count policy.restart_backoff),
      )

  unfoldable pub crashed :
      RuntimeKey → RuntimePolicy → Manager V → Manager V × Result RuntimeManagerError ℕ
  unfolding restart_count
  crashed key policy m =
      let sk = storage_key key in
      crash_with sk policy (record m { entries = remove sk m.entries }) policy.restart_policy

  -- `!e.busy && now.duration_since(e.last_activity) > timeout`
  abbrev pub idle : ℕ → ℕ → Entry V → Bool
  idle now timeout e = not e.busy && ltb timeout (now - e.last_activity)

  abbrev value_of : String × Entry V → String × V
  value_of e = (e.0, e.1.value)

  abbrev pub not_idle : ℕ → ℕ → Entry V → Bool
  not_idle now timeout e = not (idle now timeout e)

  abbrev sweep_with : ℕ → Manager V → Option ℕ → Manager V × List (String × V)
  sweep_with now m none = (m, [])
  sweep_with now m (some timeout) = (
    record m { entries = retain (not_idle now timeout) m.entries },
    map value_of (retain (idle now timeout) m.entries),
  )

  unfoldable pub sweep_idle : ℕ → RuntimePolicy → Manager V → Manager V × List (String × V)
  sweep_idle now policy m = sweep_with now m policy.idle_timeout

  abbrev release_entry : String → Manager V → Option (Entry V) → Manager V × Option V
  release_entry sk m none = (m, none)
  release_entry sk m (some e) =
      if e.busy then (m, none) else (record m { entries = remove sk m.entries }, some e.value)

  unfoldable pub release : RuntimeKey → Manager V → Manager V × Option V
  release key m = release_entry (storage_key key) m (lookup (storage_key key) m.entries)

  unfoldable pub shutdown_all : Manager V → Manager V × List (String × V)
  shutdown_all m = (record m { entries = [] }, map value_of m.entries)

  unfoldable pub live_keys : Manager V → List String
  live_keys m = map (λ e. e.0) m.entries

unfoldable pub new : {V : Type 0} → Manager V
new = record { entries = []; restart_counts = [] }
