-- ===== src/Mcp/Session/Modify.antt =====
-- The in-place update of `record_by_id`, as a total function with its laws.
use aura_launcher.Common.{
  ◌≡◌, refl, true, false, none, some, List, [], ◌∷◌, arith, ◌==◌, nat_eq, nat_eqb_iff, ok, err, All,
  Bool-cases, inl, inr, if◌then◌else◌,
}
use aura_launcher.Common.Map.{lookup}
use aura_launcher.Common.Map.Unique.{Unique}
use aura_launcher.Common.Ids.{contains, Distinct}
use aura_launcher.Mcp.Session.{
  ProtocolSessionId, ProtocolSessionKey, session_key_eq, not_found, SessionRecord, update_by_id,
}

abbrev pub Sessions : Type 0
Sessions = List (ProtocolSessionKey × SessionRecord)

abbrev pub record_ids : Sessions → List ProtocolSessionId
record_ids [] = []
record_ids ((k, r) ∷ m) = r.session.session_id ∷ record_ids m

-- An update that leaves id and key alone.
abbrev pub Keeps : (SessionRecord → SessionRecord) → Type 0
Keeps f =
    (r : SessionRecord)
    → ((f r).session.session_id ≡ r.session.session_id) × ((f r).session.key ≡ r.session.key)

unfoldable pub modify : ProtocolSessionId → (SessionRecord → SessionRecord) → Sessions → Sessions
modify id f [] = []
modify id f ((k, r) ∷ m) =
    let rest = modify id f m in if r.session.session_id == id then (k, f r) ∷ m else (k, r) ∷ rest

pub absent_elsewhere :
    (id : ProtocolSessionId) (j : ProtocolSessionKey) (r : SessionRecord) (m : Sessions)
    → contains id (record_ids m) ≡ false
    → lookup j m ≡ some r
    → (r.session.session_id == id) ≡ false
unfolding contains lookup
absent_elsewhere id j r [] h l = cc
absent_elsewhere id j r ((k, s) ∷ m) h l = ground (arith, absent_elsewhere id j r m)

module _ (id : ProtocolSessionId) (f : SessionRecord → SessionRecord) where
  pub update-modify :
      (m : Sessions)
      → update_by_id id f m
        ≡ (if contains id (record_ids m) then ok (modify id f m) else err not_found)
  unfolding update_by_id modify contains
  update-modify [] = refl
  update-modify ((k, r) ∷ m) = ground (arith, update-modify m)

  pub modify-ids : Keeps f → (m : Sessions) → record_ids (modify id f m) ≡ record_ids m
  unfolding modify
  modify-ids keeps [] = refl
  modify-ids keeps ((k, r) ∷ m) = ground (arith, modify-ids keeps m, (keeps r).0)

  pub lookup-modify-none :
      (j : ProtocolSessionKey) (m : Sessions) → lookup j m ≡ none → lookup j (modify id f m) ≡ none
  unfolding modify lookup
  lookup-modify-none j [] h = h
  lookup-modify-none j ((k, r) ∷ m) h = ground (arith, lookup-modify-none j m)

  pub modify-Unique : (m : Sessions) → Unique m → Unique (modify id f m)
  unfolding modify
  modify-Unique [] u = tt
  modify-Unique ((k, r) ∷ m) u = ground (arith, modify-Unique m, lookup-modify-none k m)

  pub modify-All :
      (P : ProtocolSessionKey × SessionRecord → Type 0)
      → ((k : ProtocolSessionKey) (r : SessionRecord) → P (k, r) → P (k, f r))
      → (m : Sessions) → All P m
      → All P (modify id f m)
  unfolding modify
  modify-All P step [] h = tt
  modify-All P step ((k, r) ∷ m) h = elim (Bool-cases (r.session.session_id == id)) [
    | inl here ↦ rw here (step k r h.0, h.1)
    | inr later ↦ rw later (h.0, modify-All P step m h.1)
  ]

  -- With distinct ids the update reaches exactly the record with that id.
  pub lookup-modify :
      (j : ProtocolSessionKey) (r : SessionRecord) (m : Sessions)
      → Distinct (record_ids m)
      → lookup j m ≡ some r
      → lookup j (modify id f m) ≡ some (if r.session.session_id == id then f r else r)
  unfolding modify lookup
  lookup-modify j r [] d l = cc
  lookup-modify j r ((k, s) ∷ m) d l =
      ground
        (arith, lookup-modify j r m, absent_elsewhere id j r m, nat_eqb_iff s.session.session_id id)

  pub lookup-contains :
      (j : ProtocolSessionKey) (r : SessionRecord) (m : Sessions)
      → lookup j m ≡ some r
      → r.session.session_id ≡ id
      → contains id (record_ids m) ≡ true
  unfolding contains lookup
  lookup-contains j r [] l e = cc
  lookup-contains j r ((k, s) ∷ m) l e = ground (arith, lookup-contains j r m)
