-- ===== src/Search/Cache/Budgets.antt =====
-- The calls keep the invariant, and the cache stays within its two budgets.
use aura_launcher.Common.{
  ℕ, ◌+◌, ◌/◌, ◌≤◌, ◌<◌, ◌≡◌, refl, none, List, [], ◌∷◌, arith, ltb, length, length-append,
  Bool-cases, inl, inr, ◌∙◌, ltb→le,
}
use aura_launcher.Common.Map.{lookup, lookup-insert, length-insert-absent, length-remove-le}
use aura_launcher.Common.Map.Unique.{insert-Unique, total-insert_absent, total_of_length}
use aura_launcher.Common.Ids.{contains, snoc-Distinct, contains-append}
use aura_launcher.Domain.Command.{Command}
use aura_launcher.Search.Cache.{
  SearchCacheKey, key_eq, key_eqb_iff, CacheTtl, SearchCache, estimate_bytes, new, drop, get, evict,
  put, store, fresh_entry,
}
use aura_launcher.Search.Cache.Inv.{
  Inv, entry_bytes, drop-Inv, drop_absent, evict-Inv, evict-Shrinks, evict_stops,
}

pub record Within {Score Action : Type 0} (c : SearchCache Score Action) : Type 0 where
  pub entries_fit : length c.entries ≤ c.max_entries
  pub bytes_fit : c.used_bytes ≤ c.max_bytes

-- One call of the cache, with its instant.
pub data Call (Score Action : Type 0) : Type 0 where
  read : ℕ → SearchCacheKey → Call Score Action
  write : ℕ → SearchCacheKey → List (Command Score Action) → CacheTtl → Call Score Action
  discard : SearchCacheKey → Call Score Action

module _ {Score Action : Type 0} where
  -- What `put` asks of the cache it stores into.
  store-Inv :
      (bytes : ℕ) (now : ℕ) (key : SearchCacheKey) (results : List (Command Score Action))
      → (ttl : CacheTtl) (c : SearchCache Score Action) → estimate_bytes results ≡ bytes
      → lookup key c.entries ≡ none
      → Inv c
      → Inv (store bytes key (fresh_entry now results ttl bytes) c)
  store-Inv bytes now key results ttl c size absent h = record {
    unique = insert-Unique key _ c.entries h.unique;
    distinct = snoc-Distinct key c.order h.distinct (ground (arith, h.listed key));
    listed = λ k.
        unfold contains in
        ground (
          arith,
          contains-append k c.order (key ∷ []),
          lookup-insert key k (fresh_entry now results ttl bytes) c.entries,
          h.listed k,
          key_eqb_iff key k,
        );
    counted = omega (
      arith,
      length-append c.order (key ∷ []),
      h.counted,
      length-insert-absent key (fresh_entry now results ttl bytes) c.entries absent,
    );
    summed = omega (
      arith,
      h.summed,
      total-insert_absent entry_bytes key (fresh_entry now results ttl bytes) c.entries absent,
    );
    has_entry = h.has_entry;
    has_byte = h.has_byte;
  }

  -- The cache that `put` stores into: the key dropped, and old entries evicted.
  abbrev pub room :
      (bytes : ℕ) (key : SearchCacheKey) (c : SearchCache Score Action) → SearchCache Score Action
  room bytes key c = evict bytes (drop key c).order (drop key c)

  room-Inv :
      (bytes : ℕ) (key : SearchCacheKey) (c : SearchCache Score Action)
      → Inv c
      → Inv (room bytes key c)
  room-Inv bytes key c h = evict-Inv bytes (drop key c).order (drop key c) refl (drop-Inv key c h)

  pub room_absent :
      (bytes : ℕ) (key : SearchCacheKey) (c : SearchCache Score Action)
      → lookup key (room bytes key c).entries ≡ none
  room_absent bytes key c =
      (evict-Shrinks bytes (drop key c).order (drop key c)).still_absent key (drop_absent key c)

  pub room_budgets :
      (bytes : ℕ) (key : SearchCacheKey) (c : SearchCache Score Action)
      → ((room bytes key c).max_entries ≡ c.max_entries)
        × ((room bytes key c).max_bytes ≡ c.max_bytes)
  unfolding drop
  room_budgets bytes key c =
      let s = evict-Shrinks bytes (drop key c).order (drop key c) in
      (ground (arith, s.max_entries_same), ground (arith, s.max_bytes_same))

  -- An empty eviction order means an empty cache.
  emptied :
      (c : SearchCache Score Action)
      → Inv c
      → c.order ≡ []
      → (length c.entries ≡ 0) × (c.used_bytes ≡ 0)
  emptied c h e =
      let none_left : length c.entries ≡ 0 = ground (arith, h.counted) in
      (none_left, h.summed ∙ total_of_length entry_bytes c.entries none_left)

  room_fits :
      (bytes : ℕ) (key : SearchCacheKey) (c : SearchCache Score Action)
      → Inv c
      → bytes ≤ c.max_bytes
      → (length (room bytes key c).entries < c.max_entries)
        × ((room bytes key c).used_bytes + bytes ≤ c.max_bytes)
  room_fits bytes key c h small =
      let budgets = room_budgets bytes key c in
      elim (evict_stops bytes (drop key c).order (drop key c) refl) [
        | inl fits ↦ ground arith
        | inr none_left ↦
            ground (arith, emptied (room bytes key c) (room-Inv bytes key c h) none_left)
      ]

  -- `put` keeps the invariant.
  pub put-Inv :
      (now : ℕ) (key : SearchCacheKey) (results : List (Command Score Action)) (ttl : CacheTtl)
      → (c : SearchCache Score Action) → Inv c
      → Inv (put now key results ttl c).0
  unfolding put
  put-Inv now key results ttl c h =
      let bytes = estimate_bytes results in
      elim (Bool-cases (ltb (c.max_bytes / 4) bytes)) [
        | inl large ↦ rw large h
        | inr small ↦ rw small (
            store-Inv bytes now key results ttl (room bytes key c) refl (room_absent bytes key c)
              (room-Inv bytes key c h))
      ]

  -- An accepted `put` leaves the cache within its budgets, a refused one changes nothing.
  pub put-Within :
      (now : ℕ) (key : SearchCacheKey) (results : List (Command Score Action)) (ttl : CacheTtl)
      → (c : SearchCache Score Action) → Inv c
      → Within c
      → Within (put now key results ttl c).0
  unfolding put
  put-Within now key results ttl c h w =
      let bytes = estimate_bytes results in
      elim (Bool-cases (ltb (c.max_bytes / 4) bytes)) [
        | inl large ↦ rw large w
        | inr small ↦
            let fits = room_fits bytes key c h (omega (arith, ltb→le _ _ small)) in
            let budgets = room_budgets bytes key c in
            rw small (record {
              entries_fit = omega (
                arith,
                length-insert-absent key (fresh_entry now results ttl bytes)
                    (room bytes key c).entries (room_absent bytes key c),
              );
              bytes_fit = omega arith;
            })
      ]

  drop-Within :
      (key : SearchCacheKey) (c : SearchCache Score Action) → Within c → Within (drop key c)
  unfolding drop
  drop-Within key c w = ground (arith, length-remove-le key c.entries)

  -- A read keeps the invariant and the budgets, whether it hits, misses or drops a stale entry.
  pub get-Inv :
      (now : ℕ) (key : SearchCacheKey) (c : SearchCache Score Action)
      → Inv c
      → Inv (get now key c).0
  unfolding get
  get-Inv now key c h = ground (arith, drop-Inv key c h)

  pub get-Within :
      (now : ℕ) (key : SearchCacheKey) (c : SearchCache Score Action)
      → Within c
      → Within (get now key c).0
  unfolding get
  get-Within now key c w = ground (arith, drop-Within key c w)

  -- The cache after a sequence of calls, each at its own instant.
  unfoldable pub after :
      List (Call Score Action) → SearchCache Score Action → SearchCache Score Action
  after [] c = c
  after (read now key ∷ calls) c = after calls (get now key c).0
  after (write now key results ttl ∷ calls) c = after calls (put now key results ttl c).0
  after (discard key ∷ calls) c = after calls (drop key c)

  new-Inv :
      (max_entries max_bytes : ℕ)
      → Inv (new {Score = Score} {Action = Action} max_entries max_bytes)
  unfolding new contains lookup
  new-Inv max_entries max_bytes = ground arith

  after_sound :
      (calls : List (Call Score Action)) (c : SearchCache Score Action)
      → Inv c
      → Within c
      → Inv (after calls c) × Within (after calls c)
  unfolding after
  after_sound [] c h w = (h, w)
  after_sound (read now key ∷ calls) c h w =
      after_sound calls (get now key c).0 (get-Inv now key c h) (get-Within now key c w)
  after_sound (write now key results ttl ∷ calls) c h w =
      after_sound calls (put now key results ttl c).0 (put-Inv now key results ttl c h)
        (put-Within now key results ttl c h w)
  after_sound (discard key ∷ calls) c h w =
      after_sound calls (drop key c) (drop-Inv key c h) (drop-Within key c w)

  -- Whatever is read, written and removed, a cache that started empty never holds more entries or
  -- more bytes than its budgets, its byte counter is the sum over its entries (so that no
  -- subtraction from it underflows), and its eviction order lists each cached key exactly once.
  pub after-new :
      (max_entries max_bytes : ℕ) (calls : List (Call Score Action))
      → Inv (after calls (new max_entries max_bytes))
        × Within (after calls (new max_entries max_bytes))
  unfolding new
  after-new max_entries max_bytes calls =
      after_sound calls (new max_entries max_bytes) (new-Inv max_entries max_bytes)
        (record { entries_fit = omega arith; bytes_fit = omega arith })
