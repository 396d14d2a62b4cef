-- ===== src/Mcp/Session/Held.antt =====
-- A granted operation keeps its session busy until it is released or the session is replaced,
-- failed, invalidated or closed.
use aura_launcher.Common.{
  ℕ, ◌≡◌, ◌≢◌, refl, true, false, Option, none, some, List, [], ◌∷◌, arith, ◌==◌, nat_eq,
  nat_eqb_iff, ok, err, All, Option-cases, Bool-cases, inl, inr, ◌⊎◌,
}
use aura_launcher.Common.Map.{lookup, insert, lookup-insert}
use aura_launcher.Common.Map.Bulk.{lookup-map_values, lookup-retain_kept}
use aura_launcher.Common.Ids.{contains}
use aura_launcher.Mcp.Session.{
  ProtocolSessionId, RuntimeId, ProtocolSessionKey, session_key_eq, keys_match_iff, ready, busy,
  bound_to, SessionRecord, Manager, with_sessions, update_by_id, touch, acquire_operation,
  release_operation, reusable, new_session, minted, close_record, close_for_runtime, is_open,
  purge_closed,
}
use aura_launcher.Mcp.Session
use aura_launcher.Mcp.Session.Modify.{Sessions, record_ids, modify, update-modify}
use aura_launcher.Mcp.Session.Inv.{
  Inv, Call, step, run, lookup-IsOwned, acquire-cases, acquire_missing,
}
use aura_launcher.Mcp.Session.Operations.{granted_iff, granted_entry}

-- A call that does not end the operation of `r` under `key`: it releases, fails or invalidates
-- other ids only, establishes other keys only, and closes other runtimes only.
abbrev pub Spares : ProtocolSessionKey → SessionRecord → Call → Type 0
Spares key r (Call.establish wall now k rt) = k ≢ key
Spares key r (Call.mark_ready now id) = Unit
Spares key r (Call.mark_failed id) = id ≢ r.session.session_id
Spares key r (Call.acquire now k) = Unit
Spares key r (Call.release now id) = id ≢ r.session.session_id
Spares key r (Call.invalidate id) = id ≢ r.session.session_id
Spares key r (Call.close rt) = r.session.runtime_id ≢ some rt
Spares key r Call.purge = Unit
Spares key r Call.mint_elsewhere = Unit

modify_either :
    (id : ProtocolSessionId) (f : SessionRecord → SessionRecord) (key : ProtocolSessionKey)
    (e : SessionRecord) (m : Sessions)
    → lookup key m ≡ some e
    → (lookup key (modify id f m) ≡ some e)
      ⊎ ((lookup key (modify id f m) ≡ some (f e)) × (e.session.session_id ≡ id))
unfolding lookup modify
modify_either id f key e [] l = absurd (cc)
modify_either id f key e ((k, s) ∷ m) l = elim (Bool-cases (s.session.session_id == id)) [
  | inl here ↦ elim (Bool-cases (k == key)) [
    | inl same ↦
        let q : s ≡ e = ground arith in
        inr (ground arith, ground (arith, nat_eqb_iff s.session.session_id id))
    | inr other ↦ inl (ground arith)
  ]
  | inr later ↦ elim (Bool-cases (k == key)) [
    | inl same ↦ inl (ground arith)
    | inr other ↦ elim (modify_either id f key e m (ground arith)) [
      | inl kept ↦ inl (ground arith)
      | inr (changed, named) ↦ inr (ground arith, named)
    ]
  ]
]

pub bound_elsewhere : (rt : RuntimeId) (o : Option RuntimeId) → o ≢ some rt → bound_to rt o ≡ false
bound_elsewhere rt none other = refl
bound_elsewhere rt (some id) other = elim (Bool-cases (id == rt)) [
  | inl same ↦ absurd (other (ground (arith, nat_eqb_iff id rt)))
  | inr differs ↦ differs
]

module _ (key : ProtocolSessionKey) (r : SessionRecord) where
  -- An operation is in progress on the session of `r`.
  abbrev Active : SessionRecord → Type 0
  Active e =
      (e.session.state ≡ ready)
      × (e.operation_active ≡ true)
      × (e.session.session_id ≡ r.session.session_id)
      × (e.session.runtime_id ≡ r.session.runtime_id)
      × (e.session.key ≡ key)

  abbrev Held : Manager → Type 0
  Held m = (e : SessionRecord) × (lookup key m.sessions ≡ some e) × Active e

  Held-busy : (now : ℕ) (m : Manager) → Held m → acquire_operation now key m ≡ (m, err busy)
  unfolding acquire_operation
  Held-busy now m (e, found, (is_ready, active, named, bound, keyed)) =
      rw found (ground (arith, keys_match_iff e.session.key key))

  Held-update :
      (id : ProtocolSessionId) (f : SessionRecord → SessionRecord) (m : Manager)
      → ((e : SessionRecord) → Active e → e.session.session_id ≡ id → Active (f e))
      → Held m
      → Held (with_sessions m (update_by_id id f m.sessions)).0
  Held-update id f m still (e, found, a) =
      rw (update-modify id f m.sessions) (elim (Bool-cases (contains id (record_ids m.sessions))) [
        | inl there ↦ rw there (elim (modify_either id f key e m.sessions found) [
          | inl kept ↦ (e, kept, a)
          | inr (changed, named) ↦ (f e, changed, still e a named)
        ])
        | inr gone ↦ rw gone (e, found, a)
      ])

  Held-insert :
      (k : ProtocolSessionKey) (s : SessionRecord) (seq : ℕ) (m : Manager)
      → (k == key) ≡ false
      → Held m
      → Held (record { seq = seq; sessions = insert k s m.sessions })
  Held-insert k s seq m other (e, found, a) =
      (e, rw (lookup-insert k key s m.sessions, other) found, a)

  Held-acquire :
      (now : ℕ) (k : ProtocolSessionKey) (m : Manager) → Held m → Held (acquire_operation now k m).0
  Held-acquire now k m h = elim (Bool-cases (k == key)) [
    | inl same ↦ let e : k ≡ key = (keys_match_iff k key).0 same in rw (e, Held-busy now m h) h
    | inr other ↦ elim (Option-cases (lookup k m.sessions)) [
      | inl miss ↦ rw (acquire_missing now k m miss) h
      | inr (s, there) ↦ elim (acquire-cases now k m s there) [
        | inl unchanged ↦ rw unchanged h
        | inr marked ↦
            rw marked
              (Held-insert k (touch now (record s { operation_active = true })) m.seq m other h)
      ]
    ]
  ]

  Held-establish :
      (wall now : ℕ) (k : ProtocolSessionKey) (rt : Option RuntimeId) (m : Manager)
      → k ≢ key
      → Held m
      → Held (Session.establish wall now k rt m).0
  unfolding Session.establish
  Held-establish wall now k rt m other h = elim (Option-cases (reusable (lookup k m.sessions))) [
    | inl new_one ↦
        let differs : (k == key) ≡ false = elim (Bool-cases (k == key)) [
          | inl same ↦ absurd (other ((keys_match_iff k key).0 same))
          | inr d ↦ d
        ] in
        rw new_one (
          Held-insert k
            (record {
              session = new_session wall now (minted m.seq) k rt;
              operation_active = false;
            })
            (minted m.seq) m differs h)
    | inr (id, reused) ↦ rw reused h
  ]

  Held-close :
      (rt : RuntimeId) (m : Manager)
      → r.session.runtime_id ≢ some rt
      → Held m
      → Held (close_for_runtime rt m).0
  unfolding close_for_runtime
  Held-close rt m other (e, found, (is_ready, active, named, bound, keyed)) = (
    e,
    rw (lookup-map_values (close_record rt) key m.sessions, found)
        (ground (arith, bound_elsewhere rt r.session.runtime_id other)),
    (is_ready, active, named, bound, keyed),
  )

  Held-purge : (m : Manager) → Held m → Held (purge_closed m)
  unfolding purge_closed
  Held-purge m (e, found, a) =
      (e, lookup-retain_kept is_open key e m.sessions found (ground (arith, a.0)), a)

  Held-step : (c : Call) (m : Manager) → Spares key r c → Held m → Held (step c m)
  unfolding step Session.mark_ready Session.mark_failed release_operation Session.invalidate
  Held-step (Call.establish wall now k rt) m spared h = Held-establish wall now k rt m spared h
  Held-step (Call.mark_ready now id) m spared h =
      Held-update id _ m (λ e a same. (refl, a.1, a.2, a.3, a.4)) h
  Held-step (Call.mark_failed id) m spared h =
      Held-update id _ m (λ e a same. absurd (spared (cc))) h
  Held-step (Call.acquire now k) m spared h = Held-acquire now k m h
  Held-step (Call.release now id) m spared h =
      Held-update id _ m (λ e a same. absurd (spared (cc))) h
  Held-step (Call.invalidate id) m spared h =
      Held-update id _ m (λ e a same. absurd (spared (cc))) h
  Held-step (Call.close rt) m spared h = Held-close rt m spared h
  Held-step Call.purge m spared h = Held-purge m h
  Held-step Call.mint_elsewhere m spared h = h

  Held-run :
      (calls : List Call) (m : Manager) → All (Spares key r) calls → Held m → Held (run calls m)
  unfolding run
  Held-run [] m spared h = h
  Held-run (c ∷ calls) m spared h = Held-run calls (step c m) spared.1 (Held-step c m spared.0 h)

-- No second operation: once an operation was granted, every further `acquire_operation` on the
-- key is answered `Busy` and changes nothing, whatever calls come between that do not release,
-- fail or invalidate the id, establish the key, or close the session's runtime.
pub acquire-run :
    (now later : ℕ) (key : ProtocolSessionKey) (r : SessionRecord) (m : Manager)
    → Inv m
    → lookup key m.sessions ≡ some r
    → (acquire_operation now key m).1 ≡ ok r.session.session_id
    → (calls : List Call) → All (Spares key r) calls
    → acquire_operation later key (run calls (acquire_operation now key m).0)
      ≡ (run calls (acquire_operation now key m).0, err busy)
acquire-run now later key r m h found g calls spared =
    let i = (granted_iff now key r.session.session_id m h).0 g in
    let q : i.entry ≡ r = unfold lookup in ground (arith, i.found) in
    let owned = lookup-IsOwned m.seq key i.entry m.sessions h.owned i.found in
    let start : Held key r (acquire_operation now key m).0 = (
      touch now (record (i.entry) { operation_active = true }),
      granted_entry now key r.session.session_id m h i,
      (i.is_ready, refl, i.named, rw q refl, owned.0),
    ) in
    Held-busy key r later _ (Held-run key r calls (acquire_operation now key m).0 spared start)
