-- ===== src/Mcp/Session/Closing.antt =====
-- `establish`, `close_for_runtime` and what becomes of closed sessions.
use aura_launcher.Common.{
  ℕ, ◌+◌, ◌^◌, ◌<◌, ◌≡◌, ◌≢◌, refl, true, false, Option, none, some, [], ◌∷◌, arith, ◌==◌, nat_eq,
  nat_eqb_iff, ok, err, Option-cases, inl, inr, Bool-cases, eq_self, if◌then◌else◌, ◌⊎◌,
}
use aura_launcher.Common.Map.{lookup, insert, lookup-insert, lookup-insert_self}
use aura_launcher.Common.Map.Bulk.{over_value, lookup-map_values}
use aura_launcher.Common.Ids.{contains, Distinct}
use aura_launcher.Mcp.Session.{
  ProtocolSessionId, RuntimeId, ProtocolSessionKey, session_key_eq, keys_match_iff, fresh,
  initializing, ready, invalid, failed, closed, ProtocolSessionState, is_closed, minted, closes,
  not_found, session_closed, bound_to, SessionRecord, Manager, establish, with_state, touch,
  mark_ready, acquire_operation, release_operation, reusable, close_record, closed_ids,
  close_for_runtime,
}
use aura_launcher.Mcp.Session.Modify.{Sessions, record_ids, update-modify, absent_elsewhere}
use aura_launcher.Mcp.Session.Inv.{
  Inv, lookup-IsOwned, not-contains_above, minted_lem, establish-Inv, close_for_runtime-Inv,
}
use aura_launcher.Mcp.Session.Held.{bound_elsewhere}
use aura_launcher.Mcp.Session.Operations.{IsIdle, granted_iff, marked_ready, mark_ready-Inv}

-- A session in state `New` for the key and the runtime, with no operation in progress.
abbrev pub fresh_record :
    ℕ → ℕ → ProtocolSessionId → ProtocolSessionKey → Option RuntimeId → SessionRecord
fresh_record wall now id key rt = record {
  session = record {
    session_id = id;
    runtime_id = rt;
    key = key;
    state = fresh;
    created_at = wall;
    last_activity_at = now;
  };
  operation_active = false;
}

reuses :
    (wall now : ℕ) (key : ProtocolSessionKey) (rt : Option RuntimeId) (id : ProtocolSessionId)
    (m : Manager)
    → IsIdle key id m
    → establish wall now key rt m ≡ (m, id)
unfolding establish
reuses wall now key rt id m i = rw (i.found, i.is_ready, i.inactive, i.named) refl

reusable-IsIdle :
    (key : ProtocolSessionKey) (id : ProtocolSessionId) (m : Manager)
    → reusable (lookup key m.sessions) ≡ some id
    → IsIdle key id m
reusable-IsIdle key id m idle = elim (Option-cases (lookup key m.sessions)) [
  | inl miss ↦ absurd (ground arith)
  | inr (r, found) ↦ record {
    entry = r;
    found = found;
    is_ready = ground arith;
    inactive = ground arith;
    named = ground arith;
  }
]

-- `establish` hands back the session of a key that is ready and idle, with nothing changed. Where
-- no session of the key is, it replaces what the key had, and nothing else, by a session in state
-- `New` for the given runtime, under an id that no record has. The session counter has not reached
-- the end of its range.
pub establish_lem :
    (wall now : ℕ) (key : ProtocolSessionKey) (rt : Option RuntimeId) (m : Manager)
    → m.seq + 1 < 2 ^ 64
    → Inv m
    → ((id : ProtocolSessionId) → IsIdle key id m → establish wall now key rt m ≡ (m, id))
      × (((id : ProtocolSessionId) → IsIdle key id m → ⊥)
          → (contains (establish wall now key rt m).1 (record_ids m.sessions) ≡ false)
            × ((j : ProtocolSessionKey)
                → lookup j (establish wall now key rt m).0.sessions ≡ (
                    if key == j
                    then some (fresh_record wall now (establish wall now key rt m).1 key rt)
                    else lookup j m.sessions)))
establish_lem wall now key rt m fits h = (
  λ id i. reuses wall now key rt id m i,
  λ busy. elim (Option-cases (reusable (lookup key m.sessions))) [
    | inl other ↦
        unfold establish in
        rw (other, minted_lem m.seq fits)
          (
            not-contains_above m.seq (m.seq + 1) m.sessions h.owned (omega arith),
            λ j. lookup-insert key j (fresh_record wall now (m.seq + 1) key rt) m.sessions,
          )
    | inr (id, idle) ↦ absurd (busy id (reusable-IsIdle key id m idle))
  ],
)

-- A record that was replaced is found by its id no more.
replaced_gone :
    (key : ProtocolSessionKey) (n r : SessionRecord) (m : Sessions)
    → Distinct (record_ids m)
    → lookup key m ≡ some r
    → (n.session.session_id == r.session.session_id) ≡ false
    → contains r.session.session_id (record_ids (insert key n m)) ≡ false
unfolding insert contains lookup
replaced_gone key n r [] d l e = cc
replaced_gone key n r ((k, s) ∷ m) d l e = ground (
  arith,
  replaced_gone key n r m,
  absent_elsewhere s.session.session_id key r m,
  nat_eqb_iff s.session.session_id r.session.session_id,
  nat_eqb_iff r.session.session_id s.session.session_id,
)

busy_raw :
    (wall now : ℕ) (key : ProtocolSessionKey) (rt : Option RuntimeId) (r : SessionRecord)
    (m : Manager)
    → lookup key m.sessions ≡ some r
    → r.operation_active ≡ true
    → establish wall now key rt m ≡ (
      record {
        seq = minted m.seq;
        sessions = insert key (fresh_record wall now (minted m.seq) key rt) m.sessions;
      },
      minted m.seq,
    )
unfolding establish
busy_raw wall now key rt r m found active = ground arith

establish_busy :
    (wall now : ℕ) (key : ProtocolSessionKey) (rt : Option RuntimeId) (r : SessionRecord)
    (m : Manager)
    → m.seq + 1 < 2 ^ 64
    → lookup key m.sessions ≡ some r
    → r.operation_active ≡ true
    → establish wall now key rt m ≡ (
      record {
        seq = m.seq + 1;
        sessions = insert key (fresh_record wall now (m.seq + 1) key rt) m.sessions;
      },
      m.seq + 1,
    )
establish_busy wall now key rt r m fits found active =
    rw (minted_lem m.seq fits) at (busy_raw wall now key rt r m found active)

-- Establishing a key whose session has an operation in progress replaces that session: the id is
-- a new one, the release of the running operation is answered `NotFound`, and, once the new
-- session is marked ready, a second operation is granted while the first was never released. The
-- session counter has not reached the end of its range.
pub establish_displaces_busy :
    (wall now later last : ℕ) (key : ProtocolSessionKey) (rt : Option RuntimeId) (r : SessionRecord)
    → (m : Manager) → m.seq + 1 < 2 ^ 64
    → Inv m
    → lookup key m.sessions ≡ some r
    → r.operation_active ≡ true
    → let m' = (establish wall now key rt m).0 in
      let id = (establish wall now key rt m).1 in
      (id ≢ r.session.session_id)
      × ((release_operation later r.session.session_id m').1 ≡ err not_found)
      × ((acquire_operation last key (mark_ready later id m').0).1 ≡ ok id)
establish_displaces_busy wall now later last key rt r m fits h found active =
    let owned = lookup-IsOwned m.seq key r m.sessions h.owned found in
    let displaced : Manager = record {
      seq = m.seq + 1;
      sessions = insert key (fresh_record wall now (m.seq + 1) key rt) m.sessions;
    } in
    let next : Inv displaced =
      rw (establish_busy wall now key rt r m fits found active) at
        (establish-Inv wall now key rt m fits h) in
    let there = lookup-insert_self key (fresh_record wall now (m.seq + 1) key rt) m.sessions in
    let marked =
      marked_ready later key (fresh_record wall now (m.seq + 1) key rt) displaced next there in
    rw (establish_busy wall now key rt r m fits found active) (
      λ e. omega arith,
      unfold release_operation in
          rw (
            update-modify r.session.session_id _ displaced.sessions,
            replaced_gone key (fresh_record wall now (m.seq + 1) key rt) r m.sessions h.distinct
                found (ground arith),
          ),
      (granted_iff last key (m.seq + 1) _ (mark_ready-Inv later (m.seq + 1) displaced next)).1
          (record {
            entry = touch later (with_state ready (fresh_record wall now (m.seq + 1) key rt));
            found = marked.1;
            is_ready = refl;
            inactive = refl;
            named = refl;
          }),
    )

contains-closed_ids :
    (rt : RuntimeId) (id : ProtocolSessionId) (m : Sessions)
    → contains id (record_ids m) ≡ false
    → contains id (closed_ids rt m) ≡ false
unfolding closed_ids contains
contains-closed_ids rt id [] h = refl
contains-closed_ids rt id ((k, s) ∷ m) h = ground (arith, contains-closed_ids rt id m)

closed_ids_step :
    (rt : RuntimeId) (key k : ProtocolSessionKey) (r s : SessionRecord) (m : Sessions)
    → Distinct (record_ids ((k, s) ∷ m))
    → lookup key ((k, s) ∷ m) ≡ some r
    → (lookup key m ≡ some r → contains r.session.session_id (closed_ids rt m) ≡ closes rt r)
    → contains r.session.session_id (closed_ids rt ((k, s) ∷ m)) ≡ closes rt r
unfolding closed_ids contains lookup
closed_ids_step rt key k r s m d l ih = ground (
  arith,
  ih,
  contains-closed_ids rt s.session.session_id m,
  absent_elsewhere s.session.session_id key r m,
  nat_eqb_iff s.session.session_id r.session.session_id,
)

lookup_nothing : (key : ProtocolSessionKey) {r : SessionRecord} → lookup key [] ≡ some r → ⊥
unfolding lookup
lookup_nothing key l = cc

closed_ids-contains :
    (rt : RuntimeId) (key : ProtocolSessionKey) (r : SessionRecord) (m : Sessions)
    → Distinct (record_ids m)
    → lookup key m ≡ some r
    → contains r.session.session_id (closed_ids rt m) ≡ closes rt r
closed_ids-contains rt key r [] d l = absurd (lookup_nothing key l)
closed_ids-contains rt key r ((k, s) ∷ m) d l =
    closed_ids_step rt key k r s m d l (closed_ids-contains rt key r m d.1)

-- The record of every key is what `close_record` makes of it, and the returned ids are those of
-- the sessions that it closed.
closed_records :
    (rt : RuntimeId) (m : Manager) (key : ProtocolSessionKey)
    → Inv m
    → (lookup key (close_for_runtime rt m).0.sessions
        ≡ over_value (close_record rt) (lookup key m.sessions))
      × ((r : SessionRecord)
          → lookup key m.sessions ≡ some r
          → (contains r.session.session_id (close_for_runtime rt m).1 ≡ closes rt r)
            × (bound_to rt r.session.runtime_id ≡ true
                → (now : ℕ)
                → (acquire_operation now key (close_for_runtime rt m).0).1 ≡ err session_closed))
unfolding close_for_runtime
closed_records rt m key h = (
  lookup-map_values (close_record rt) key m.sessions,
  λ r found. (
    closed_ids-contains rt key r m.sessions h.distinct found,
    λ bound now.
        let owned = lookup-IsOwned m.seq key r m.sessions h.owned found in
        unfold acquire_operation in
        ground (
          arith,
          lookup-map_values (close_record rt) key m.sessions,
          keys_match_iff r.session.key key,
        ),
  ),
)

bound_here : (rt : RuntimeId) (o : Option RuntimeId) → o ≡ some rt → bound_to rt o ≡ true
bound_here rt o e = rw e (eq_self rt)

is_closed-closed : (s : ProtocolSessionState) → is_closed s ≡ true → s ≡ closed
is_closed-closed closed h = refl
is_closed-closed fresh h = cc
is_closed-closed initializing h = cc
is_closed-closed ready h = cc
is_closed-closed invalid h = cc
is_closed-closed failed h = cc

open_closes :
    (rt : RuntimeId) (r : SessionRecord)
    → r.session.runtime_id ≡ some rt
    → r.session.state ≢ closed
    → closes rt r ≡ true
open_closes rt r bound not_closed = elim (Bool-cases (is_closed r.session.state)) [
  | inl shut ↦ absurd (not_closed (is_closed-closed r.session.state shut))
  | inr is ↦ rw (bound_here rt r.session.runtime_id bound, is) refl
]

spared_closes :
    (rt : RuntimeId) (r : SessionRecord)
    → (r.session.runtime_id ≢ some rt) ⊎ (r.session.state ≡ closed)
    → closes rt r ≡ false
spared_closes rt r (inl other) = rw (bound_elsewhere rt r.session.runtime_id other) refl
spared_closes rt r (inr shut) = ground arith

-- Closing a runtime closes each open session bound to it: its record is then closed with no
-- operation in progress and otherwise the same, and its id is among those returned. Every other
-- record stays as it was, and its id is not returned; and no key gets a record that had
-- none. No session of the runtime is granted an operation afterwards.
pub close_for_runtime_lem :
    (rt : RuntimeId) (m : Manager) (key : ProtocolSessionKey)
    → Inv m
    → let m' = (close_for_runtime rt m).0 in
      (lookup key m.sessions ≡ none → lookup key m'.sessions ≡ none)
      × ((r : SessionRecord)
          → lookup key m.sessions ≡ some r
          → (r.session.runtime_id ≡ some rt
              → r.session.state ≢ closed
              → (lookup key m'.sessions
                  ≡ some (record {
                    session = record (r.session) { state = closed };
                    operation_active = false;
                  }))
                × (contains r.session.session_id (close_for_runtime rt m).1 ≡ true))
            × ((r.session.runtime_id ≢ some rt) ⊎ (r.session.state ≡ closed)
                → (lookup key m'.sessions ≡ some r)
                  × (contains r.session.session_id (close_for_runtime rt m).1 ≡ false))
            × (r.session.runtime_id ≡ some rt
                → (now : ℕ) → (acquire_operation now key m').1 ≡ err session_closed))
close_for_runtime_lem rt m key h =
    let all_closed = closed_records rt m key h in
    (
      λ miss. rw (all_closed.0, miss) refl,
      λ r found. (
        λ bound not_closed.
            let c = open_closes rt r bound not_closed in
            (rw (all_closed.0, found, c) refl, rw ((all_closed.1 r found).0, c) refl),
        λ spared.
            let c = spared_closes rt r spared in
            (rw (all_closed.0, found, c) refl, rw ((all_closed.1 r found).0, c) refl),
        λ bound now. (all_closed.1 r found).1 (bound_here rt r.session.runtime_id bound) now,
      ),
    )

-- A closed session is not closed for good: `mark_ready` on its id is accepted, and the key is
-- granted an operation again, under the id that was closed.
pub mark_ready_revives :
    (rt : RuntimeId) (now later : ℕ) (key : ProtocolSessionKey) (r : SessionRecord) (m : Manager)
    → Inv m
    → lookup key m.sessions ≡ some r
    → closes rt r ≡ true
    → let m' = (close_for_runtime rt m).0 in
      ((acquire_operation now key m').1 ≡ err session_closed)
      × ((mark_ready now r.session.session_id m').1 ≡ ok tt)
      × ((acquire_operation later key (mark_ready now r.session.session_id m').0).1
          ≡ ok r.session.session_id)
mark_ready_revives rt now later key r m h found shut =
    let all_closed = closed_records rt m key h in
    let m' = (close_for_runtime rt m).0 in
    let next : Inv m' = close_for_runtime-Inv rt m h in
    let r' = record (with_state closed r) { operation_active = false } in
    let there : lookup key m'.sessions ≡ some r' = ground (arith, all_closed.0) in
    let marked = marked_ready now key r' m' next there in
    (
      (all_closed.1 r found).1 (ground arith) now,
      marked.0,
      (granted_iff later key r.session.session_id _
            (mark_ready-Inv now r.session.session_id m' next)).1
          (record {
            entry = touch now (with_state ready r');
            found = marked.1;
            is_ready = refl;
            inactive = refl;
            named = refl;
          }),
    )
