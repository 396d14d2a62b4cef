-- ===== src/Search/Cache/Inv.antt =====
-- What holds of the cache between two calls.
use aura_launcher.Common.{
  ℕ, ◌<◌, ◌≡◌, refl, Bool, true, false, Option, none, some, List, [], ◌∷◌, arith, length,
  Option-cases, Bool-cases, inl, inr, subst, ◌∙◌, ◌⊎◌,
}
use aura_launcher.Common.Map.{lookup, lookup-remove}
use aura_launcher.Common.Map.Unique.{
  Unique, total, remove-Unique, length-remove_present, total-remove,
}
use aura_launcher.Common.Ids.{
  contains, Distinct, contains-without, without-Distinct, length-without,
}
use aura_launcher.Search.Cache.{
  SearchCacheKey, key_eq, key_eqb_iff, Entry, SearchCache, drop, evict_oldest, evict, over_budget,
}

abbrev pub present {ℓ} : {A : Type ℓ} → Option A → Bool
present none = false
present (some a) = true

module _ {Score Action : Type 0} where
  abbrev pub entry_bytes : Entry Score Action → ℕ
  entry_bytes e = e.bytes

  -- The eviction order lists each cached key once, and the byte counter is the sum.
  pub record Inv (c : SearchCache Score Action) : Type 0 where
    pub unique : Unique c.entries
    pub distinct : Distinct c.order
    pub listed : (k : SearchCacheKey) → contains k c.order ≡ present (lookup k c.entries)
    pub counted : length c.order ≡ length c.entries
    pub summed : c.used_bytes ≡ total entry_bytes c.entries
    pub has_entry : 0 < c.max_entries
    pub has_byte : 0 < c.max_bytes

  pub drop-Inv : (key : SearchCacheKey) (c : SearchCache Score Action) → Inv c → Inv (drop key c)
  unfolding drop
  drop-Inv key c h = elim (Option-cases (lookup key c.entries)) [
    | inl miss ↦ rw miss h
    | inr (e, found) ↦ rw found (record {
      unique = remove-Unique key c.entries h.unique;
      distinct = without-Distinct key c.order h.distinct;
      listed = λ k.
          ground (arith, contains-without key k c.order, lookup-remove key k c.entries, h.listed k);
      counted = ground (
        arith,
        length-without key c.order h.distinct,
        h.listed key,
        length-remove_present key e c.entries h.unique found,
      );
      summed = omega (arith, total-remove entry_bytes key e c.entries h.unique found);
      has_entry = h.has_entry;
      has_byte = h.has_byte;
    })
  ]

  pub drop_absent :
      (key : SearchCacheKey) (c : SearchCache Score Action) → lookup key (drop key c).entries ≡ none
  unfolding drop
  drop_absent key c = elim (Option-cases (lookup key c.entries)) [
    | inl miss ↦ rw miss miss
    | inr (e, found) ↦
        rw found (ground (arith, lookup-remove key key c.entries, key_eqb_iff key key))
  ]

  pub evict_oldest-Inv :
      (oldest : SearchCacheKey) (rest : List SearchCacheKey) (c : SearchCache Score Action)
      → c.order ≡ oldest ∷ rest
      → Inv c
      → Inv (evict_oldest oldest rest c)
  unfolding evict_oldest
  evict_oldest-Inv oldest rest c head h = elim (Option-cases (lookup oldest c.entries)) [
    | inl miss ↦
        absurd (unfold contains in ground (arith, h.listed oldest, key_eqb_iff oldest oldest))
    | inr (e, found) ↦
        let d : Distinct (oldest ∷ rest) = subst Distinct head h.distinct in
        rw found (record {
          unique = remove-Unique oldest c.entries h.unique;
          distinct = d.1;
          listed = λ k.
              unfold contains in
              ground
                (arith, lookup-remove oldest k c.entries, h.listed k, d.0, key_eqb_iff oldest k);
          counted =
              ground (arith, h.counted, length-remove_present oldest e c.entries h.unique found);
          summed =
              omega (arith, h.summed, total-remove entry_bytes oldest e c.entries h.unique found);
          has_entry = h.has_entry;
          has_byte = h.has_byte;
        })
  ]

  pub order-evict_oldest :
      (oldest : SearchCacheKey) (rest : List SearchCacheKey) (c : SearchCache Score Action)
      → (evict_oldest oldest rest c).order ≡ rest
  unfolding evict_oldest
  order-evict_oldest oldest rest c = ground arith

  pub evict-Inv :
      (bytes : ℕ) (order : List SearchCacheKey) (c : SearchCache Score Action)
      → c.order ≡ order
      → Inv c
      → Inv (evict bytes order c)
  unfolding evict
  evict-Inv bytes [] c eq h = h
  evict-Inv bytes (oldest ∷ rest) c eq h = elim (Bool-cases (over_budget bytes c)) [
    | inl over ↦ rw over (
        evict-Inv bytes rest (evict_oldest oldest rest c) (order-evict_oldest oldest rest c)
          (evict_oldest-Inv oldest rest c eq h))
    | inr fits ↦ rw fits h
  ]

  -- Eviction never brings a key back, and leaves the two budgets alone.
  pub record Shrinks (c r : SearchCache Score Action) : Type 0 where
    pub max_entries_same : r.max_entries ≡ c.max_entries
    pub max_bytes_same : r.max_bytes ≡ c.max_bytes
    pub still_absent : (k : SearchCacheKey) → lookup k c.entries ≡ none → lookup k r.entries ≡ none

  evict_oldest-Shrinks :
      (oldest : SearchCacheKey) (rest : List SearchCacheKey) (c : SearchCache Score Action)
      → Shrinks c (evict_oldest oldest rest c)
  unfolding evict_oldest
  evict_oldest-Shrinks oldest rest c = record {
    max_entries_same = ground arith;
    max_bytes_same = ground arith;
    still_absent = λ k a. ground (arith, lookup-remove oldest k c.entries);
  }

  pub evict-Shrinks :
      (bytes : ℕ) (order : List SearchCacheKey) (c : SearchCache Score Action)
      → Shrinks c (evict bytes order c)
  unfolding evict
  evict-Shrinks bytes [] c = record {
    max_entries_same = refl;
    max_bytes_same = refl;
    still_absent = λ k a. a;
  }
  evict-Shrinks bytes (oldest ∷ rest) c = elim (Bool-cases (over_budget bytes c)) [
    | inl over ↦
        let one = evict_oldest-Shrinks oldest rest c in
        let later = evict-Shrinks bytes rest (evict_oldest oldest rest c) in
        rw over (record {
          max_entries_same = later.max_entries_same ∙ one.max_entries_same;
          max_bytes_same = later.max_bytes_same ∙ one.max_bytes_same;
          still_absent = λ k a. later.still_absent k (one.still_absent k a);
        })
    | inr fits ↦
        rw fits (record { max_entries_same = refl; max_bytes_same = refl; still_absent = λ k a. a })
  ]

  -- The loop stops when there is room, or when nothing is left to evict.
  pub evict_stops :
      (bytes : ℕ) (order : List SearchCacheKey) (c : SearchCache Score Action)
      → c.order ≡ order
      → (over_budget bytes (evict bytes order c) ≡ false) ⊎ ((evict bytes order c).order ≡ [])
  unfolding evict
  evict_stops bytes [] c eq = inr eq
  evict_stops bytes (oldest ∷ rest) c eq = elim (Bool-cases (over_budget bytes c)) [
    | inl over ↦
        rw over
          (evict_stops bytes rest (evict_oldest oldest rest c) (order-evict_oldest oldest rest c))
    | inr fits ↦ rw fits (inl fits)
  ]
