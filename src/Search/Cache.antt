-- ===== src/Search/Cache.antt =====
-- The query cache (crates/launcher-search/src/cache.rs). Instants and durations are nanoseconds;
-- `Instant::now()` is the argument `now`. A counter of 64 bits is an unbounded number here.
-- `str::to_lowercase` is an argument of `key_of`, since only the result's use matters.
pub mod Inv
pub mod Budgets
pub mod Reads
pub mod Tests
use Prim.Native.String.{len}
use text.Mathlib.TextEquality.{eq_iff}
use aura_launcher.Common.{
  ℕ, ◌+◌, ◌-◌, ◌*◌, ◌/◌, max, String, ◌≡◌, ◌↔◌, Bool, true, false, ◌&&◌, ◌||◌, Option, none, some,
  List, [], ◌∷◌, ◌++◌, arith, leb, ltb, Eq, ◌==◌, nat_eq, string_eq, length, if◌then◌else◌,
}
use aura_launcher.Common.Map.{lookup, insert, remove}
use aura_launcher.Common.Ids.{without}
use aura_launcher.Domain.Command.{Command}

pub record SearchCacheEnvironment : Type 0 where
  pub file_generation : ℕ
  pub application_generation : ℕ
  pub user_state_generation : ℕ
  pub context_generation : ℕ
  pub ranking_generation : ℕ

pub record SearchCacheKey : Type 0 where
  pub normalized_query : String
  pub file_generation : ℕ
  pub application_generation : ℕ
  pub user_state_generation : ℕ
  pub context_generation : ℕ
  pub ranking_generation : ℕ

unfoldable pub key_of : (String → String) → String → SearchCacheEnvironment → SearchCacheKey
key_of to_lowercase normalized_query env = record {
  normalized_query = to_lowercase normalized_query;
  file_generation = env.file_generation;
  application_generation = env.application_generation;
  user_state_generation = env.user_state_generation;
  context_generation = env.context_generation;
  ranking_generation = env.ranking_generation;
}

-- The derived `PartialEq`.
abbrev pub key_eqb : SearchCacheKey → SearchCacheKey → Bool
key_eqb a b =
    (a.normalized_query == b.normalized_query)
    && (a.file_generation == b.file_generation)
    && (a.application_generation == b.application_generation)
    && (a.user_state_generation == b.user_state_generation)
    && (a.context_generation == b.context_generation)
    && (a.ranking_generation == b.ranking_generation)

pub key_eqb_iff : (a b : SearchCacheKey) → (key_eqb a b ≡ true) ↔ (a ≡ b)
key_eqb_iff a b = ground (arith, eq_iff a.normalized_query b.normalized_query)

instance abbrev pub key_eq : Eq SearchCacheKey
key_eq = record { beq = key_eqb; beq_iff = key_eqb_iff }

pub data CacheTtl : Type 0 where
  complete negative : CacheTtl

abbrev pub seconds : ℕ → ℕ
seconds n = n * 1_000_000_000

unfoldable pub duration : CacheTtl → ℕ
duration complete = seconds 60
duration negative = seconds 5

abbrev text_bytes : Option String → ℕ
text_bytes none = 0
text_bytes (some s) = len s

module _ {Score Action : Type 0} where
  -- `size_of::<Vec<_>>()` is 24 on the 64-bit targets.
  unfoldable pub estimate_bytes : List (Command Score Action) → ℕ
  estimate_bytes [] = 24
  estimate_bytes (c ∷ cs) = estimate_bytes cs + (len c.title + text_bytes c.subtitle + 64)

pub record Entry (Score Action : Type 0) : Type 0 where
  pub results : List (Command Score Action)
  pub inserted_at : ℕ
  pub ttl : ℕ
  pub bytes : ℕ

pub record SearchCache (Score Action : Type 0) : Type 0 where
  pub max_entries : ℕ
  pub max_bytes : ℕ
  pub entries : List (SearchCacheKey × Entry Score Action)
  pub order : List SearchCacheKey
  pub used_bytes : ℕ
  pub hits : ℕ
  pub misses : ℕ
  pub stale_rejections : ℕ
  pub evictions : ℕ

unfoldable pub new : {Score Action : Type 0} (max_entries max_bytes : ℕ) → SearchCache Score Action
new max_entries max_bytes = record {
  max_entries = max max_entries 1;
  max_bytes = max max_bytes 1;
  entries = [];
  order = [];
  used_bytes = 0;
  hits = 0;
  misses = 0;
  stale_rejections = 0;
  evictions = 0;
}

module _ {Score Action : Type 0} where
  -- `retain` keeps the other keys; `used_bytes -= e.bytes` does not underflow (see `Inv`).
  abbrev drop_entry :
      SearchCacheKey
      → SearchCache Score Action
      → Option (Entry Score Action)
      → SearchCache Score Action
  drop_entry key c none = c
  drop_entry key c (some e) = record c {
    entries = remove key c.entries;
    used_bytes = c.used_bytes - e.bytes;
    order = without key c.order;
  }

  unfoldable pub drop : SearchCacheKey → SearchCache Score Action → SearchCache Score Action
  drop key c = drop_entry key c (lookup key c.entries)

  -- `now.duration_since(e.inserted_at) >= e.ttl`; a difference below zero saturates.
  abbrev pub expired : ℕ → Option (Entry Score Action) → Bool
  expired now none = false
  expired now (some e) = leb e.ttl (now - e.inserted_at)

  abbrev hit :
      SearchCache Score Action
      → Option (Entry Score Action)
      → SearchCache Score Action × Option (List (Command Score Action))
  hit c (some e) = (record c { hits = c.hits + 1 }, some e.results)
  hit c none = (record c { misses = c.misses + 1 }, none)

  unfoldable pub get :
      ℕ
      → SearchCacheKey
      → SearchCache Score Action
      → SearchCache Score Action × Option (List (Command Score Action))
  get now key c =
      if expired now (lookup key c.entries)
      then (record (drop key c) { stale_rejections = c.stale_rejections + 1 }, none)
      else hit c (lookup key c.entries)

  -- The body of the eviction loop: forget `order[0]`.
  abbrev evicted :
      SearchCacheKey
      → List SearchCacheKey
      → SearchCache Score Action
      → Option (Entry Score Action)
      → SearchCache Score Action
  evicted oldest rest c none = record c { order = rest }
  evicted oldest rest c (some e) = record c {
    entries = remove oldest c.entries;
    used_bytes = c.used_bytes - e.bytes;
    evictions = c.evictions + 1;
    order = rest;
  }

  unfoldable pub evict_oldest :
      SearchCacheKey → List SearchCacheKey → SearchCache Score Action → SearchCache Score Action
  evict_oldest oldest rest c = evicted oldest rest c (lookup oldest c.entries)

  abbrev pub over_budget : ℕ → SearchCache Score Action → Bool
  over_budget bytes c =
      ltb c.max_bytes (c.used_bytes + bytes) || leb c.max_entries (length c.entries)

  -- The loop `while used + bytes > max_bytes || len >= max_entries`: the second argument is
  -- `order`, which loses its head in each round, and an empty one breaks.
  unfoldable pub evict :
      ℕ → List SearchCacheKey → SearchCache Score Action → SearchCache Score Action
  evict bytes [] c = c
  evict bytes (oldest ∷ rest) c =
      let next = evict bytes rest (evict_oldest oldest rest c) in
      if over_budget bytes c then next else c

  abbrev pub fresh_entry : ℕ → List (Command Score Action) → CacheTtl → ℕ → Entry Score Action
  fresh_entry now results ttl bytes = record {
    results = results;
    inserted_at = now;
    ttl = duration ttl;
    bytes = bytes;
  }

  abbrev pub store :
      ℕ → SearchCacheKey → Entry Score Action → SearchCache Score Action → SearchCache Score Action
  store bytes key e c = record c {
    used_bytes = c.used_bytes + bytes;
    order = c.order ++ key ∷ [];
    entries = insert key e c.entries;
  }

  unfoldable pub put :
      ℕ
      → SearchCacheKey
      → List (Command Score Action)
      → CacheTtl
      → SearchCache Score Action
      → SearchCache Score Action × Bool
  put now key results ttl c =
      let bytes = estimate_bytes results in
      if ltb (c.max_bytes / 4) bytes
      then (c, false)
      else let cleared = drop key c in
        let room = evict bytes cleared.order cleared in
        (store bytes key (fresh_entry now results ttl bytes) room, true)
