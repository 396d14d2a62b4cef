-- ===== src/Mcp/Session/Inv.antt =====
-- What holds of the registry between two calls, whatever the calls were.
use aura_launcher.Common.{
  ℕ, ◌+◌, ◌^◌, ◌≤◌, ◌<◌, ◌≡◌, refl, Bool, true, false, Option, none, some, List, [], ◌∷◌, arith,
  ◌==◌, nat_eq, length, Result, ok, err, All, All-map, Option-cases, Bool-cases, inl, inr, ◌⊎◌,
}
use aura_launcher.Common.Map.{lookup, insert}
use aura_launcher.Common.Map.Bulk.{map_values, map_values-Unique, retain, retain-Unique}
use aura_launcher.Common.Map.Unique.{Unique, insert-Unique}
use aura_launcher.Common.Ids.{contains, Distinct}
use aura_launcher.Mcp.Session.{
  ProtocolSessionId, RuntimeId, ProtocolSessionKey, session_key_eq, keys_match_iff, closes,
  is_closed, SessionRecord, Manager, new, with_sessions, update_by_id, touch, acquire_operation,
  release_operation, close_record, close_for_runtime, is_open, purge_closed, reusable, minted,
  SessionError,
}
use aura_launcher.Mcp.Session
use aura_launcher.Mcp.Session.Modify.{
  Sessions, record_ids, Keeps, update-modify, modify-ids, modify-Unique, modify-All,
}

-- A record stands under its own key, with an id that was minted.
abbrev pub IsOwned : ℕ → ProtocolSessionKey × SessionRecord → Type 0
IsOwned seq e = (e.1.session.key ≡ e.0) × (e.1.session.session_id ≤ seq)

pub record Inv (m : Manager) : Type 0 where
  pub unique : Unique m.sessions
  pub owned : All (IsOwned m.seq) m.sessions
  pub distinct : Distinct (record_ids m.sessions)

new-Inv : (seq : ℕ) → Inv (new seq)
unfolding new
new-Inv seq = record { unique = tt; owned = tt; distinct = tt }

pub modify-Inv :
    (id : ProtocolSessionId) (f : SessionRecord → SessionRecord) (m : Manager)
    → Keeps f
    → Inv m
    → Inv (with_sessions m (update_by_id id f m.sessions)).0
modify-Inv id f m keeps h =
    rw (update-modify id f m.sessions) (elim (Bool-cases (contains id (record_ids m.sessions))) [
      | inl there ↦ rw there (record {
        unique = modify-Unique id f m.sessions h.unique;
        owned =
            modify-All id f (IsOwned m.seq) (λ k r o. ground (arith, (keeps r).0, (keeps r).1))
              m.sessions h.owned;
        distinct = rw (modify-ids id f keeps m.sessions) h.distinct;
      })
      | inr gone ↦ rw gone h
    ])

-- `insert` under a key.
module _ (key : ProtocolSessionKey) (r : SessionRecord) where
  All-insert :
      (P : ProtocolSessionKey × SessionRecord → Type 0) (m : Sessions)
      → P (key, r)
      → All P m
      → All P (insert key r m)
  unfolding insert
  All-insert P [] here h = (here, tt)
  All-insert P ((k, s) ∷ m) here h = elim (Bool-cases (k == key)) [
    | inl same ↦ rw same (here, h.1)
    | inr other ↦ rw other (h.0, All-insert P m here h.1)
  ]

  contains-insert :
      (id : ProtocolSessionId) (m : Sessions)
      → contains id (record_ids m) ≡ false
      → (r.session.session_id == id) ≡ false
      → contains id (record_ids (insert key r m)) ≡ false
  unfolding insert contains
  contains-insert id [] h e = ground arith
  contains-insert id ((k, s) ∷ m) h e = ground (arith, contains-insert id m)

  insert-Distinct :
      (m : Sessions)
      → Distinct (record_ids m)
      → contains r.session.session_id (record_ids m) ≡ false
      → Distinct (record_ids (insert key r m))
  unfolding insert contains
  insert-Distinct [] d h = ground arith
  insert-Distinct ((k, s) ∷ m) d h =
      ground (arith, insert-Distinct m, contains-insert s.session.session_id m)

  ids-insert_same :
      (s : SessionRecord) (m : Sessions)
      → lookup key m ≡ some s
      → s.session.session_id ≡ r.session.session_id
      → record_ids (insert key r m) ≡ record_ids m
  unfolding insert lookup
  ids-insert_same s [] l e = cc
  ids-insert_same s ((k, t) ∷ m) l e = ground (arith, ids-insert_same s m)

pub not-contains_above :
    (seq id : ℕ) (m : Sessions)
    → All (IsOwned seq) m
    → seq < id
    → contains id (record_ids m) ≡ false
unfolding contains
not-contains_above seq id [] h lt = refl
not-contains_above seq id ((k, r) ∷ m) h lt = ground (arith, not-contains_above seq id m)

pub lookup-IsOwned :
    (seq : ℕ) (k : ProtocolSessionKey) (r : SessionRecord) (m : Sessions)
    → All (IsOwned seq) m
    → lookup k m ≡ some r
    → IsOwned seq (k, r)
unfolding lookup
lookup-IsOwned seq k r [] h l = absurd (cc)
lookup-IsOwned seq k r ((j, s) ∷ m) h l =
    ground (arith, lookup-IsOwned seq k r m, keys_match_iff j k)

-- Below the end of its range the counter goes up by one.
pub minted_lem : (seq : ℕ) → seq + 1 < 2 ^ 64 → minted seq ≡ seq + 1
unfolding minted
minted_lem seq fits = omega arith

pub minted_le : (seq : ℕ) → minted seq ≤ seq + 1
unfolding minted
minted_le seq = omega arith

pub establish-Inv :
    (wall now : ℕ) (key : ProtocolSessionKey) (rt : Option RuntimeId) (m : Manager)
    → m.seq + 1 < 2 ^ 64
    → Inv m
    → Inv (Session.establish wall now key rt m).0
unfolding Session.establish
establish-Inv wall now key rt m fits h = elim (Option-cases (reusable (lookup key m.sessions))) [
  | inl new_one ↦
      rw (new_one, minted_lem m.seq fits)
        (record {
          unique = insert-Unique key _ m.sessions h.unique;
          owned =
              All-insert key _ (IsOwned (m.seq + 1)) m.sessions (refl, omega arith)
                (All-map (IsOwned m.seq) (IsOwned (m.seq + 1)) m.sessions
                  (λ e o. (o.0, omega arith)) h.owned);
          distinct =
              insert-Distinct key _ m.sessions h.distinct
                (not-contains_above m.seq (m.seq + 1) m.sessions h.owned (omega arith));
        })
  | inr (id, reused) ↦ rw reused h
]

-- `acquire_operation` changes nothing, or marks the record that it found.
pub acquire-cases :
    (now : ℕ) (key : ProtocolSessionKey) (m : Manager) (r : SessionRecord)
    → lookup key m.sessions ≡ some r
    → ((acquire_operation now key m).0 ≡ m)
      ⊎ ((acquire_operation now key m).0 ≡ record m {
        sessions = insert key (touch now (record r { operation_active = true })) m.sessions;
      })
unfolding acquire_operation
acquire-cases now key m r found = ground arith

pub acquire_missing :
    (now : ℕ) (key : ProtocolSessionKey) (m : Manager)
    → lookup key m.sessions ≡ none
    → (acquire_operation now key m).0 ≡ m
unfolding acquire_operation
acquire_missing now key m miss = ground arith

pub acquire-Inv :
    (now : ℕ) (key : ProtocolSessionKey) (m : Manager) → Inv m → Inv (acquire_operation now key m).0
acquire-Inv now key m h = elim (Option-cases (lookup key m.sessions)) [
  | inl miss ↦ rw (acquire_missing now key m miss) h
  | inr (r, found) ↦ elim (acquire-cases now key m r found) [
    | inl same ↦ rw same h
    | inr marked ↦
        let owned = lookup-IsOwned m.seq key r m.sessions h.owned found in
        rw marked (record {
          unique = insert-Unique key _ m.sessions h.unique;
          owned = All-insert key _ (IsOwned m.seq) m.sessions owned h.owned;
          distinct =
              rw
                (ids-insert_same key (touch now (record r { operation_active = true })) r m.sessions
                  found refl)
                h.distinct;
        })
  ]
]

-- `map_values` with a function that leaves id and key alone, and `retain`.
module _ (f : SessionRecord → SessionRecord) (keeps : Keeps f) where
  map_values-ids : (m : Sessions) → record_ids (map_values f m) ≡ record_ids m
  unfolding map_values
  map_values-ids [] = refl
  map_values-ids ((k, r) ∷ m) = ground (arith, map_values-ids m, (keeps r).0)

  map_values-IsOwned :
      (seq : ℕ) (m : Sessions) → All (IsOwned seq) m → All (IsOwned seq) (map_values f m)
  unfolding map_values
  map_values-IsOwned seq [] h = tt
  map_values-IsOwned seq ((k, r) ∷ m) h =
      (ground (arith, (keeps r).0, (keeps r).1), map_values-IsOwned seq m h.1)

pub close_record-Keeps : (rt : RuntimeId) → Keeps (close_record rt)
close_record-Keeps rt r = ground arith

pub close_for_runtime-Inv : (rt : RuntimeId) (m : Manager) → Inv m → Inv (close_for_runtime rt m).0
unfolding close_for_runtime
close_for_runtime-Inv rt m h = record {
  unique = map_values-Unique (close_record rt) m.sessions h.unique;
  owned = map_values-IsOwned (close_record rt) (close_record-Keeps rt) m.seq m.sessions h.owned;
  distinct = rw (map_values-ids (close_record rt) (close_record-Keeps rt) m.sessions) h.distinct;
}

module _ (p : SessionRecord → Bool) where
  contains-retain :
      (id : ProtocolSessionId) (m : Sessions)
      → contains id (record_ids m) ≡ false
      → contains id (record_ids (retain p m)) ≡ false
  unfolding retain contains
  contains-retain id [] h = refl
  contains-retain id ((k, r) ∷ m) h = ground (arith, contains-retain id m)

  retain-Distinct : (m : Sessions) → Distinct (record_ids m) → Distinct (record_ids (retain p m))
  unfolding retain
  retain-Distinct [] d = tt
  retain-Distinct ((k, r) ∷ m) d =
      ground (arith, retain-Distinct m, contains-retain r.session.session_id m)

  retain-IsOwned : (seq : ℕ) (m : Sessions) → All (IsOwned seq) m → All (IsOwned seq) (retain p m)
  unfolding retain
  retain-IsOwned seq [] h = tt
  retain-IsOwned seq ((k, r) ∷ m) h = ground (arith, retain-IsOwned seq m)

purge_closed-Inv : (m : Manager) → Inv m → Inv (purge_closed m)
unfolding purge_closed
purge_closed-Inv m h = record {
  unique = retain-Unique is_open m.sessions h.unique;
  owned = retain-IsOwned is_open m.seq m.sessions h.owned;
  distinct = retain-Distinct is_open m.sessions h.distinct;
}

-- One call of the registry, or a session minted by another manager of the process.
pub data Call : Type 0 where
  establish : ℕ → ℕ → ProtocolSessionKey → Option RuntimeId → Call
  mark_ready : ℕ → ProtocolSessionId → Call
  mark_failed : ProtocolSessionId → Call
  acquire : ℕ → ProtocolSessionKey → Call
  release : ℕ → ProtocolSessionId → Call
  invalidate : ProtocolSessionId → Call
  close : RuntimeId → Call
  purge : Call
  mint_elsewhere : Call

unfoldable pub step : Call → Manager → Manager
step (Call.establish wall now key rt) m = (Session.establish wall now key rt m).0
step (Call.mark_ready now id) m = (Session.mark_ready now id m).0
step (Call.mark_failed id) m = (Session.mark_failed id m).0
step (acquire now key) m = (acquire_operation now key m).0
step (release now id) m = (release_operation now id m).0
step (Call.invalidate id) m = (Session.invalidate id m).0
step (close rt) m = (close_for_runtime rt m).0
step purge m = purge_closed m
step mint_elsewhere m = record m { seq = minted m.seq }

unfoldable pub run : List Call → Manager → Manager
unfolding step
run [] m = m
run (c ∷ calls) m = run calls (step c m)

pub step-Inv : (c : Call) (m : Manager) → m.seq + 1 < 2 ^ 64 → Inv m → Inv (step c m)
unfolding step Session.mark_ready Session.mark_failed release_operation Session.invalidate
step-Inv (Call.establish wall now key rt) m fits h = establish-Inv wall now key rt m fits h
step-Inv (Call.mark_ready now id) m fits h = modify-Inv id _ m (λ r. (refl, refl)) h
step-Inv (Call.mark_failed id) m fits h = modify-Inv id _ m (λ r. (refl, refl)) h
step-Inv (acquire now key) m fits h = acquire-Inv now key m h
step-Inv (release now id) m fits h = modify-Inv id _ m (λ r. (refl, refl)) h
step-Inv (Call.invalidate id) m fits h = modify-Inv id _ m (λ r. (refl, refl)) h
step-Inv (close rt) m fits h = close_for_runtime-Inv rt m h
step-Inv purge m fits h = purge_closed-Inv m h
step-Inv mint_elsewhere m fits h = rw (minted_lem m.seq fits) (record {
  unique = h.unique;
  owned =
      All-map (IsOwned m.seq) (IsOwned (m.seq + 1)) m.sessions (λ e o. (o.0, omega arith)) h.owned;
  distinct = h.distinct;
})

-- A call that changes a record by its id leaves the counter alone.
seq_with_sessions :
    (m : Manager) (r : Result SessionError Sessions) → (with_sessions m r).0.seq ≡ m.seq
seq_with_sessions m (ok sessions) = refl
seq_with_sessions m (err e) = refl

establish_seq :
    (wall now : ℕ) (key : ProtocolSessionKey) (rt : Option RuntimeId) (m : Manager)
    → (Session.establish wall now key rt m).0.seq ≤ m.seq + 1
unfolding Session.establish
establish_seq wall now key rt m = elim (Option-cases (reusable (lookup key m.sessions))) [
  | inl new_one ↦ rw new_one (minted_le m.seq)
  | inr (id, reused) ↦ rw reused (omega arith)
]

acquire_seq :
    (now : ℕ) (key : ProtocolSessionKey) (m : Manager) → (acquire_operation now key m).0.seq ≡ m.seq
acquire_seq now key m = elim (Option-cases (lookup key m.sessions)) [
  | inl miss ↦ rw (acquire_missing now key m miss) refl
  | inr (r, found) ↦ elim (acquire-cases now key m r found) [
    | inl same ↦ rw same refl
    | inr marked ↦ rw marked refl
  ]
]

-- One call mints one id at most.
step_seq : (c : Call) (m : Manager) → (step c m).seq ≤ m.seq + 1
unfolding step Session.mark_ready Session.mark_failed release_operation Session.invalidate
    close_for_runtime purge_closed
step_seq (Call.establish wall now key rt) m = establish_seq wall now key rt m
step_seq (Call.mark_ready now id) m = rw (seq_with_sessions m _) (omega arith)
step_seq (Call.mark_failed id) m = rw (seq_with_sessions m _) (omega arith)
step_seq (acquire now key) m = rw (acquire_seq now key m) (omega arith)
step_seq (release now id) m = rw (seq_with_sessions m _) (omega arith)
step_seq (Call.invalidate id) m = rw (seq_with_sessions m _) (omega arith)
step_seq (close rt) m = omega arith
step_seq purge m = omega arith
step_seq mint_elsewhere m = minted_le m.seq

run-keeps :
    (calls : List Call) (m : Manager) → m.seq + length calls < 2 ^ 64 → Inv m → Inv (run calls m)
unfolding run
run-keeps [] m fits h = h
run-keeps (c ∷ calls) m fits h =
    let up = step_seq c m in run-keeps calls (step c m) (omega arith) (step-Inv c m (omega arith) h)

-- After any calls from an empty registry, so many that the counter stays below 2 ^ 64, the map
-- holds one record for a key, each under the key that the record itself names, no id is above
-- the counter, and no two records share one.
pub run-Inv :
    (seq : ℕ) (calls : List Call) → seq + length calls < 2 ^ 64 → Inv (run calls (new seq))
unfolding new
run-Inv seq calls fits = run-keeps calls (new seq) fits (new-Inv seq)
