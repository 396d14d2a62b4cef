-- ===== src/Mcp/Session/Operations.antt =====
-- One operation at a time: `acquire_operation`, `release_operation`, `establish` and `mark_ready`.
use aura_launcher.Common.{
  ℕ, ◌≡◌, ◌↔◌, refl, true, false, some, arith, nat_eq, ok, Option-cases, inl, inr, eq_self, subst,
}
use aura_launcher.Common.Map.{lookup, insert, lookup-insert_self}
use aura_launcher.Mcp.Session.{
  ProtocolSessionId, ProtocolSessionKey, session_key_eq, keys_match_iff, ready, SessionRecord,
  Manager, with_state, touch, mark_ready, acquire_operation, release_operation, with_sessions,
  update_by_id,
}
use aura_launcher.Mcp.Session.Modify.{update-modify, lookup-modify, lookup-contains}
use aura_launcher.Mcp.Session.Inv.{Inv, lookup-IsOwned, modify-Inv, acquire-Inv}

-- The record under `key` is usable: established, and with no operation in progress.
pub record IsIdle (key : ProtocolSessionKey) (id : ProtocolSessionId) (m : Manager) : Type 0 where
  pub entry : SessionRecord
  pub found : lookup key m.sessions ≡ some entry
  pub is_ready : entry.session.state ≡ ready
  pub inactive : entry.operation_active ≡ false
  pub named : entry.session.session_id ≡ id

-- An update by id reaches the record under its key, and reports success.
updated :
    (f : SessionRecord → SessionRecord) (key : ProtocolSessionKey) (r : SessionRecord) (m : Manager)
    → Inv m
    → lookup key m.sessions ≡ some r
    → ((with_sessions m (update_by_id r.session.session_id f m.sessions)).1 ≡ ok tt)
      × (lookup key (with_sessions m (update_by_id r.session.session_id f m.sessions)).0.sessions
          ≡ some (f r))
updated f key r m h found =
    let id = r.session.session_id in
    rw
      (
        update-modify id f m.sessions,
        lookup-contains id f key r m.sessions found refl,
        lookup-modify id f key r m.sessions h.distinct found,
        eq_self id,
      )
      (refl, refl)

pub released :
    (between : ℕ) (key : ProtocolSessionKey) (r : SessionRecord) (m : Manager)
    → Inv m
    → lookup key m.sessions ≡ some r
    → ((release_operation between r.session.session_id m).1 ≡ ok tt)
      × (lookup key (release_operation between r.session.session_id m).0.sessions
          ≡ some (touch between (record r { operation_active = false })))
unfolding release_operation
released between key r m h found =
    updated (λ s. touch between (record s { operation_active = false })) key r m h found

pub marked_ready :
    (between : ℕ) (key : ProtocolSessionKey) (r : SessionRecord) (m : Manager)
    → Inv m
    → lookup key m.sessions ≡ some r
    → ((mark_ready between r.session.session_id m).1 ≡ ok tt)
      × (lookup key (mark_ready between r.session.session_id m).0.sessions
          ≡ some (touch between (with_state ready r)))
unfolding mark_ready
marked_ready between key r m h found =
    updated (λ s. touch between (with_state ready s)) key r m h found

pub release-Inv :
    (now : ℕ) (id : ProtocolSessionId) (m : Manager) → Inv m → Inv (release_operation now id m).0
unfolding release_operation
release-Inv now id m h = modify-Inv id _ m (λ r. (refl, refl)) h

pub mark_ready-Inv :
    (now : ℕ) (id : ProtocolSessionId) (m : Manager) → Inv m → Inv (mark_ready now id m).0
unfolding mark_ready
mark_ready-Inv now id m h = modify-Inv id _ m (λ r. (refl, refl)) h

module _ (now : ℕ) (key : ProtocolSessionKey) (id : ProtocolSessionId) (m : Manager)
    (h : Inv m) where
  granted-IsIdle : (acquire_operation now key m).1 ≡ ok id → IsIdle key id m
  unfolding acquire_operation
  granted-IsIdle g = elim (Option-cases (lookup key m.sessions)) [
    | inl miss ↦ absurd (ground arith)
    | inr (r, found) ↦ record {
      entry = r;
      found = found;
      is_ready = ground arith;
      inactive = ground arith;
      named = ground arith;
    }
  ]

  IsIdle-granted : IsIdle key id m → (acquire_operation now key m).1 ≡ ok id
  unfolding acquire_operation
  IsIdle-granted i = ground (
    arith,
    lookup-IsOwned m.seq key i.entry m.sessions h.owned i.found,
    keys_match_iff i.entry.session.key key,
  )

  -- An operation is granted, with the session's id, exactly when the key has a session that is
  -- ready and has no operation in progress.
  pub granted_iff : ((acquire_operation now key m).1 ≡ ok id) ↔ IsIdle key id m
  granted_iff = (granted-IsIdle, IsIdle-granted)

module _ (now : ℕ) (key : ProtocolSessionKey) (id : ProtocolSessionId) (m : Manager)
    (h : Inv m) where
  granted_state :
      (i : IsIdle key id m)
      → (acquire_operation now key m).0 ≡ record m {
        sessions = insert key (touch now (record (i.entry) { operation_active = true })) m.sessions;
      }
  unfolding acquire_operation
  granted_state i = ground (
    arith,
    lookup-IsOwned m.seq key i.entry m.sessions h.owned i.found,
    keys_match_iff i.entry.session.key key,
  )

  -- What the registry holds under the key once the operation was granted.
  pub granted_entry :
      (i : IsIdle key id m)
      → lookup key (acquire_operation now key m).0.sessions
        ≡ some (touch now (record (i.entry) { operation_active = true }))
  granted_entry i =
      rw (granted_state i) (
        lookup-insert_self key (touch now (record (i.entry) { operation_active = true }))
          m.sessions)

  -- Releasing by the id makes the key available again, under the same session.
  pub release-acquire :
      (between later : ℕ)
      → (acquire_operation now key m).1 ≡ ok id
      → ((release_operation between id (acquire_operation now key m).0).1 ≡ ok tt)
        × ((acquire_operation later key
              (release_operation between id (acquire_operation now key m).0).0).1
            ≡ ok id)
  release-acquire between later g =
      let i = (granted_iff now key id m h).0 g in
      let next = acquire-Inv now key m h in
      let active = touch now (record (i.entry) { operation_active = true }) in
      let done =
        released between key active (acquire_operation now key m).0 next (granted_entry i) in
      subst
        (λ n.
          ((release_operation between n (acquire_operation now key m).0).1 ≡ ok tt)
          × ((acquire_operation later key
                (release_operation between n (acquire_operation now key m).0).0).1
              ≡ ok id))
        i.named
        (
          done.0,
          (granted_iff later key id _ (release-Inv between i.entry.session.session_id _ next)).1
              (record {
                entry = touch between (record active { operation_active = false });
                found = done.1;
                is_ready = i.is_ready;
                inactive = refl;
                named = i.named;
              }),
        )
