-- ===== src/Search/Cache/Reads.antt =====
-- What a read returns after a write, and the order in which entries are evicted.
use aura_launcher.Common.{
  ℕ, ◌+◌, ◌-◌, ◌/◌, ◌≡◌, ◌≢◌, true, false, none, some, List, ◌∷◌, arith, ltb, leb, if◌then◌else◌,
  subst, sym,
}
use aura_launcher.Common.Map.{lookup, lookup-insert, lookup-remove}
use aura_launcher.Domain.Command.{Command}
use aura_launcher.Search.Cache.{
  SearchCacheKey, key_eq, key_eqb_iff, CacheTtl, duration, SearchCache, estimate_bytes, drop, get,
  evict, evict_oldest, over_budget, put, fresh_entry,
}
use aura_launcher.Search.Cache.Inv.{evict-Shrinks}
use aura_launcher.Search.Cache.Budgets.{room}

module _ {Score Action : Type 0} where
  pub lookup-put :
      (now : ℕ) (key k : SearchCacheKey) (results : List (Command Score Action)) (ttl : CacheTtl)
      → (c : SearchCache Score Action) → (put now key results ttl c).1 ≡ true
      → lookup key (put now key results ttl c).0.entries
        ≡ some (fresh_entry now results ttl (estimate_bytes results))
  unfolding put
  lookup-put now key k results ttl c accepted = ground (
    arith,
    lookup-insert key key (fresh_entry now results ttl (estimate_bytes results))
        (room (estimate_bytes results) key c).entries,
    key_eqb_iff key key,
  )

  -- After an accepted `put`, a `get` of the same key returns exactly the stored results until
  -- the time to live is over, and from then on nothing.
  pub get-put :
      (now later : ℕ) (key : SearchCacheKey) (results : List (Command Score Action))
      → (ttl : CacheTtl) (c : SearchCache Score Action) → (put now key results ttl c).1 ≡ true
      → (get later key (put now key results ttl c).0).1
        ≡ (if leb (duration ttl) (later - now) then none else some results)
  unfolding get
  get-put now later key results ttl c accepted =
      rw (lookup-put now key key results ttl c accepted) (ground arith)

  -- A stale entry is gone after the read that found it stale.
  pub get_stale :
      (now : ℕ) (key : SearchCacheKey) (c : SearchCache Score Action)
      → (get now key c).1 ≡ none
      → lookup key (get now key c).0.entries ≡ none
  unfolding get drop
  get_stale now key c h = ground (arith, lookup-remove key key c.entries, key_eqb_iff key key)

  -- A hit counts itself and changes nothing else, the eviction order included.
  pub get_hit :
      (now : ℕ) (key : SearchCacheKey) (c : SearchCache Score Action)
      → (results : List (Command Score Action)) → (get now key c).1 ≡ some results
      → (get now key c).0 ≡ record c { hits = c.hits + 1 }
  unfolding get
  get_hit now key c results h = ground arith

  evict_oldest_gone :
      (oldest : SearchCacheKey) (rest : List SearchCacheKey) (c : SearchCache Score Action)
      → lookup oldest (evict_oldest oldest rest c).entries ≡ none
  unfolding evict_oldest
  evict_oldest_gone oldest rest c =
      ground (arith, lookup-remove oldest oldest c.entries, key_eqb_iff oldest oldest)

  evict_gone :
      (bytes : ℕ) (oldest : SearchCacheKey) (rest : List SearchCacheKey)
      (c : SearchCache Score Action)
      → over_budget bytes c ≡ true
      → lookup oldest (evict bytes (oldest ∷ rest) c).entries ≡ none
  unfolding evict
  evict_gone bytes oldest rest c over = rw over (
      (evict-Shrinks bytes rest (evict_oldest oldest rest c)).still_absent oldest
        (evict_oldest_gone oldest rest c))

  put_full :
      (now : ℕ) (oldest key : SearchCacheKey) (rest : List SearchCacheKey)
      → (results : List (Command Score Action)) (ttl : CacheTtl) (c : SearchCache Score Action)
      → c.order ≡ oldest ∷ rest
      → lookup key c.entries ≡ none
      → key ≢ oldest
      → over_budget (estimate_bytes results) c ≡ true
      → (put now key results ttl c).1 ≡ true
      → lookup oldest (put now key results ttl c).0.entries ≡ none
  unfolding put drop
  put_full now oldest key rest results ttl c head absent other over accepted =
      let bytes = estimate_bytes results in
      let small : ltb (c.max_bytes / 4) bytes ≡ false = ground arith in
      let gone =
        subst (λ o. lookup oldest (evict bytes o c).entries ≡ none) (sym head)
          (evict_gone bytes oldest rest c over) in
      rw
        (
          small,
          absent,
          lookup-insert key oldest (fresh_entry now results ttl bytes)
              (evict bytes c.order c).entries,
        )
        (ground (arith, gone, key_eqb_iff key oldest))

  -- The entry that was inserted first is evicted first, also when it has just been read: after a
  -- hit on it, an accepted `put` of an uncached key into a cache without room forgets it.
  pub hit_then_evicted :
      (now later : ℕ) (oldest key : SearchCacheKey) (rest : List SearchCacheKey)
      → (found results : List (Command Score Action)) (ttl : CacheTtl)
        (c : SearchCache Score Action)
      → c.order ≡ oldest ∷ rest
      → (get now oldest c).1 ≡ some found
      → lookup key c.entries ≡ none
      → key ≢ oldest
      → over_budget (estimate_bytes results) c ≡ true
      → (put later key results ttl (get now oldest c).0).1 ≡ true
      → lookup oldest (put later key results ttl (get now oldest c).0).0.entries ≡ none
  hit_then_evicted now later oldest key rest found results ttl c head read absent other over
        accepted =
      let hit = get_hit now oldest c found read in
      rw hit (
        put_full later oldest key rest results ttl (record c { hits = c.hits + 1 }) head absent
          other over (rw hit at accepted))
