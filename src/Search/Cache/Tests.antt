-- ===== src/Search/Cache/Tests.antt =====
-- The cache on small inputs: two entries of room, three queries.
use aura_launcher.Common.{ℕ, String, ◌≡◌, refl, none, some, List, [], ◌∷◌, length, ne_of_eq}
use aura_launcher.Common.Map.{lookup, insert, remove}
use aura_launcher.Common.Ids.{contains, without}
use aura_launcher.Domain.Command.{Command, application}
use aura_launcher.Search.Cache.{
  SearchCacheKey, key_eq, complete, negative, duration, seconds, SearchCache, estimate_bytes, new,
  drop, get, evict, evict_oldest, put,
}
use aura_launcher.Search.Cache.Inv.{Inv}
use aura_launcher.Search.Cache.Budgets.{Within, Call, read, write, discard, after, after-new}
use aura_launcher.Search.Cache.Reads.{get-put, hit_then_evicted}

abbrev app : String → Command ℕ ℕ
app title = record {
  id = title;
  title = title;
  subtitle = none;
  icon = none;
  provider_id = "apps";
  score = 1;
  keywords = [];
  category = application;
  actions = 0 ∷ [];
  target = none;
}

abbrev key : String → SearchCacheKey
key q = record {
  normalized_query = q;
  file_generation = 1;
  application_generation = 0;
  user_state_generation = 0;
  context_generation = 0;
  ranking_generation = 0;
}

abbrev two : SearchCache ℕ ℕ
two =
    (put 1 (key "edge") (app "Edge" ∷ []) complete
      (put 0 (key "chrome") (app "Chrome" ∷ []) complete (new 2 1000)).0).0

abbrev session : List (Call ℕ ℕ)
session =
    write 0 (key "chrome") (app "Chrome" ∷ []) complete
    ∷ write 1 (key "edge") (app "Edge" ∷ []) negative
    ∷ read (seconds 6) (key "edge")
    ∷ discard (key "nothing")
    ∷ []

after-new_example : Inv (after session (new 2 1000)) × Within (after session (new 2 1000))
after-new_example = after-new 2 1000 session

get-put_example :
    (get (seconds 4) (key "edge") (put 0 (key "edge") (app "Edge" ∷ []) negative (new 2 1000)).0).1
    ≡ some (app "Edge" ∷ [])
unfolding put new estimate_bytes duration
get-put_example = get-put 0 (seconds 4) (key "edge") (app "Edge" ∷ []) negative (new 2 1000) refl

hit_then_evicted_example :
    lookup
      (key "chrome")
      (put 3 (key "vim") (app "Vim" ∷ []) complete (get 2 (key "chrome") two).0).0.entries
    ≡ none
unfolding put new estimate_bytes duration get drop evict evict_oldest lookup insert remove contains
    without
hit_then_evicted_example =
    hit_then_evicted 2 3 (key "chrome") (key "vim") (key "edge" ∷ []) (app "Chrome" ∷ [])
      (app "Vim" ∷ []) complete two refl refl refl (ne_of_eq (key "vim") (key "chrome") refl) refl
      refl

-- The stale entry is dropped, and counted.
session_counts :
    (length (after session (new 2 1000)).entries ≡ 1)
    × ((after session (new 2 1000)).stale_rejections ≡ 1)
unfolding after put new estimate_bytes duration get drop evict evict_oldest lookup insert remove
    contains without
session_counts = (refl, refl)
