-- ===== src/Mcp/Session/Tests.antt =====
-- The registry on small inputs.
use aura_launcher.Common.{
  ℕ, ◌+◌, ◌^◌, ◌<◌, All, arith, ◌≡◌, ◌≢◌, refl, Bool, true, false, none, some, List, [], ◌∷◌,
  nat_eq, ◌⊎◌, ok, err, if◌then◌else◌, ◌↔◌, ◌==◌,
}
use aura_launcher.Common.Map.{lookup, insert}
use aura_launcher.Common.Ids.{contains}
use aura_launcher.Mcp.Session.{
  ProtocolSessionKey, session_key_eq, keys_match_iff, mcp, v2025_06_18, SessionRecord, Manager, new,
  establish, mark_ready, acquire_operation, release_operation, close_for_runtime, closed_ids,
  update_by_id, minted, closed, ProtocolSessionId, busy, not_found, session_closed,
}
use aura_launcher.Mcp.Session.Modify.{record_ids}
use aura_launcher.Mcp.Session.Inv.{Call, run, Inv, run-Inv}
use aura_launcher.Mcp.Session.Operations.{IsIdle, granted_iff, release-acquire}
use aura_launcher.Mcp.Session.Held.{Spares, acquire-run}
use aura_launcher.Mcp.Session.Closing.{
  fresh_record, establish_lem, establish_displaces_busy, close_for_runtime_lem, mark_ready_revives,
}

abbrev disk : ProtocolSessionKey
disk = record { namespace = "mcp"; endpoint_id = "disk"; profile = v2025_06_18 }

abbrev calc : ProtocolSessionKey
calc = record { namespace = "mcp"; endpoint_id = "calc"; profile = v2025_06_18 }

-- One session of runtime 7, marked ready, with id 1.
abbrev opened : List Call
opened = Call.establish 0 0 calc (some 7) ∷ Call.mark_ready 1 1 ∷ []

abbrev m1 : Manager
m1 = run opened (new 0)

run-Inv_example : Inv m1
run-Inv_example = run-Inv 0 opened (omega arith)

m1_fits : m1.seq + 1 < 2 ^ 64
unfolding run establish mark_ready update_by_id lookup insert new minted
m1_fits = omega arith

granted : (acquire_operation 2 calc m1).1 ≡ ok 1
unfolding run establish mark_ready update_by_id acquire_operation lookup insert new minted
granted = refl

granted_iff_example : ((acquire_operation 2 calc m1).1 ≡ ok 1) ↔ IsIdle calc 1 m1
granted_iff_example = granted_iff 2 calc 1 m1 run-Inv_example

release-acquire_example :
    ((release_operation 3 1 (acquire_operation 2 calc m1).0).1 ≡ ok tt)
    × ((acquire_operation 4 calc (release_operation 3 1 (acquire_operation 2 calc m1).0).0).1
        ≡ ok 1)
release-acquire_example = release-acquire 2 calc 1 m1 run-Inv_example 3 4 granted

abbrev in_use : List Call
in_use = Call.establish 0 0 calc (some 7) ∷ Call.mark_ready 1 1 ∷ Call.acquire 2 calc ∷ []

abbrev record_at : Bool → SessionRecord
record_at active = record {
  session = record {
    session_id = 1;
    runtime_id = some 7;
    key = calc;
    state = aura_launcher.Mcp.Session.ProtocolSessionState.ready;
    created_at = 0;
    last_activity_at = if active then 2 else 1;
  };
  operation_active = active;
}

idle_found : lookup calc m1.sessions ≡ some (record_at false)
unfolding run establish mark_ready update_by_id lookup insert new minted
idle_found = refl

-- Calls that leave the operation on `calc` alone: another key's session is established, made
-- ready, used and released, `calc` is asked for again, and another runtime is closed.
abbrev others : List Call
others =
    Call.establish 3 3 disk (some 8)
    ∷ Call.mark_ready 4 2
    ∷ Call.acquire 5 disk
    ∷ Call.acquire 5 calc
    ∷ Call.release 6 2
    ∷ Call.close 8
    ∷ Call.purge
    ∷ []

others_spare : All (Spares calc (record_at false)) others
others_spare = (
  λ e. let h : false ≡ true = (keys_match_iff disk calc).1 e in cc,
  (tt, (tt, (tt, (λ e. omega arith, (λ e. ground arith, (tt, tt)))))),
)

acquire-run_example :
    acquire_operation 7 calc (run others (acquire_operation 2 calc m1).0)
    ≡ (run others (acquire_operation 2 calc m1).0, err busy)
acquire-run_example =
    acquire-run 2 7 calc (record_at false) m1 run-Inv_example idle_found granted others others_spare

establish_lem_example :
    ((id : ProtocolSessionId) → IsIdle calc id m1 → establish 5 5 calc none m1 ≡ (m1, id))
    × (((id : ProtocolSessionId) → IsIdle calc id m1 → ⊥)
        → (contains (establish 5 5 calc none m1).1 (record_ids m1.sessions) ≡ false)
          × ((j : ProtocolSessionKey)
              → lookup j (establish 5 5 calc none m1).0.sessions ≡ (
                  if calc == j
                  then some (fresh_record 5 5 (establish 5 5 calc none m1).1 calc none)
                  else lookup j m1.sessions)))
establish_lem_example = establish_lem 5 5 calc none m1 m1_fits run-Inv_example

in_use_fits : (run in_use (new 0)).seq + 1 < 2 ^ 64
unfolding run establish mark_ready update_by_id acquire_operation lookup insert new minted
in_use_fits = omega arith

busy_found : lookup calc (run in_use (new 0)).sessions ≡ some (record_at true)
unfolding run establish mark_ready update_by_id acquire_operation lookup insert new minted
busy_found = refl

establish_displaces_busy_example :
    let m' = (establish 3 3 calc none (run in_use (new 0))).0 in
    let id = (establish 3 3 calc none (run in_use (new 0))).1 in
    (id ≢ 1)
    × ((release_operation 4 1 m').1 ≡ err not_found)
    × ((acquire_operation 5 calc (mark_ready 4 id m').0).1 ≡ ok id)
establish_displaces_busy_example =
    establish_displaces_busy 3 3 4 5 calc none (record_at true) (run in_use (new 0)) in_use_fits
      (run-Inv 0 in_use (omega arith)) busy_found refl

close_for_runtime_lem_example :
    let m' = (close_for_runtime 7 m1).0 in
    (lookup calc m1.sessions ≡ none → lookup calc m'.sessions ≡ none)
    × ((r : SessionRecord)
        → lookup calc m1.sessions ≡ some r
        → (r.session.runtime_id ≡ some 7
            → r.session.state ≢ closed
            → (lookup calc m'.sessions
                ≡ some (record {
                  session = record (r.session) { state = closed };
                  operation_active = false;
                }))
              × (contains r.session.session_id (close_for_runtime 7 m1).1 ≡ true))
          × ((r.session.runtime_id ≢ some 7) ⊎ (r.session.state ≡ closed)
              → (lookup calc m'.sessions ≡ some r)
                × (contains r.session.session_id (close_for_runtime 7 m1).1 ≡ false))
          × (r.session.runtime_id ≡ some 7
              → (now : ℕ) → (acquire_operation now calc m').1 ≡ err session_closed))
close_for_runtime_lem_example = close_for_runtime_lem 7 m1 calc run-Inv_example

mark_ready_revives_example :
    let m' = (close_for_runtime 7 m1).0 in
    ((acquire_operation 2 calc m').1 ≡ err session_closed)
    × ((mark_ready 2 1 m').1 ≡ ok tt)
    × ((acquire_operation 3 calc (mark_ready 2 1 m').0).1 ≡ ok 1)
mark_ready_revives_example =
    mark_ready_revives 7 2 3 calc (record_at false) m1 run-Inv_example idle_found refl

-- `close_for_runtime` returns the ids that it closed.
closed_once : (close_for_runtime 7 m1).1 ≡ 1 ∷ []
unfolding run establish mark_ready update_by_id lookup insert new minted close_for_runtime
    closed_ids
closed_once = refl
