-- ===== src/Mcp/Session.antt =====
-- Protocol sessions (crates/launcher-mcp/src/protocol/session.rs) and their registry
-- (session_manager.rs). The process-wide counter `SESSION_SEQ` stands beside the map of one
-- manager; instants are numbers, given to each call that reads the clock.
pub mod Modify
pub mod Inv
pub mod Operations
pub mod Held
pub mod Closing
pub mod Tests
use text.Mathlib.TextEquality.{eq_iff}
use aura_launcher.Common.{
  ℕ, ◌+◌, ◌%◌, ◌^◌, String, ◌≡◌, ◌↔◌, Bool, true, false, ◌&&◌, not, Option, none, some, List, [],
  ◌∷◌, arith, Eq, ◌==◌, nat_eq, string_eq, Result, ok, err, if◌then◌else◌,
}
use aura_launcher.Common.Map.{lookup, insert}
use aura_launcher.Common.Map.Bulk.{map_values, retain}

pub data McpProtocolProfile : Type 0 where
  v2025_06_18 v2026_07_28 : McpProtocolProfile

abbrev pub profile_eqb : McpProtocolProfile → McpProtocolProfile → Bool
profile_eqb v2025_06_18 v2025_06_18 = true
profile_eqb v2026_07_28 v2026_07_28 = true
profile_eqb _ _ = false

abbrev pub as_str : McpProtocolProfile → String
as_str v2025_06_18 = "2025-06-18"
as_str v2026_07_28 = "2026-07-28"

-- The integers behind `ProtocolSessionId` and `RuntimeId`.
abbrev pub ProtocolSessionId : Type 0
ProtocolSessionId = ℕ

abbrev pub RuntimeId : Type 0
RuntimeId = ℕ

pub record ProtocolSessionKey : Type 0 where
  pub namespace : String
  pub endpoint_id : String
  pub profile : McpProtocolProfile

unfoldable pub mcp : String → McpProtocolProfile → ProtocolSessionKey
mcp server_id profile = record { namespace = "mcp"; endpoint_id = server_id; profile = profile }

abbrev pub keys_match : ProtocolSessionKey → ProtocolSessionKey → Bool
keys_match a b =
    (a.namespace == b.namespace)
    && (a.endpoint_id == b.endpoint_id)
    && profile_eqb a.profile b.profile

pub keys_match_iff : (a b : ProtocolSessionKey) → (keys_match a b ≡ true) ↔ (a ≡ b)
keys_match_iff a b =
    ground (arith, eq_iff a.namespace b.namespace, eq_iff a.endpoint_id b.endpoint_id)

instance abbrev pub session_key_eq : Eq ProtocolSessionKey
session_key_eq = record { beq = keys_match; beq_iff = keys_match_iff }

pub data ProtocolSessionState : Type 0 where
  fresh initializing ready invalid failed closed : ProtocolSessionState

unfoldable pub can_acquire_operation : ProtocolSessionState → Bool
can_acquire_operation ready = true
can_acquire_operation _ = false

unfoldable pub can_re_establish : ProtocolSessionState → Bool
can_re_establish fresh = true
can_re_establish invalid = true
can_re_establish failed = true
can_re_establish _ = false

abbrev pub is_ready : ProtocolSessionState → Bool
is_ready ready = true
is_ready _ = false

abbrev pub is_closed : ProtocolSessionState → Bool
is_closed closed = true
is_closed _ = false

pub record ProtocolSession : Type 0 where
  pub session_id : ProtocolSessionId
  pub runtime_id : Option RuntimeId
  pub key : ProtocolSessionKey
  pub state : ProtocolSessionState
  pub created_at : ℕ
  pub last_activity_at : ℕ

pub data SessionError : Type 0 where
  not_found key_mismatch session_closed busy not_recoverable : SessionError

pub record SessionRecord : Type 0 where
  pub session : ProtocolSession
  pub operation_active : Bool

pub record Manager : Type 0 where
  pub seq : ℕ
  pub sessions : List (ProtocolSessionKey × SessionRecord)

unfoldable pub new : ℕ → Manager
new seq = record { seq = seq; sessions = [] }

abbrev open_id : Option SessionRecord → Option ProtocolSessionId
open_id none = none
open_id (some r) = if is_closed r.session.state then none else some r.session.session_id

unfoldable pub get : ProtocolSessionKey → Manager → Option ProtocolSessionId
get key m = open_id (lookup key m.sessions)

-- `values().find(..)`
unfoldable pub find_by_id :
    ProtocolSessionId → List (ProtocolSessionKey × SessionRecord) → Option SessionRecord
find_by_id id [] = none
find_by_id id ((k, r) ∷ m) =
    let rest = find_by_id id m in if r.session.session_id == id then some r else rest

abbrev state_of : Option SessionRecord → Option ProtocolSessionState
state_of none = none
state_of (some r) = some r.session.state

unfoldable pub state : ProtocolSessionId → Manager → Option ProtocolSessionState
state id m = state_of (find_by_id id m.sessions)

-- `record_by_id`: the first record with the id, changed in place.
unfoldable pub update_by_id :
    ProtocolSessionId
    → (SessionRecord → SessionRecord)
    → List (ProtocolSessionKey × SessionRecord)
    → Result SessionError (List (ProtocolSessionKey × SessionRecord))
update_by_id id f [] = err not_found
update_by_id id f ((k, r) ∷ m) =
    let rest = update_by_id id f m in
    if r.session.session_id == id
    then ok ((k, f r) ∷ m)
    else elim rest [ ok m' ↦ ok ((k, r) ∷ m') | err e ↦ err e ]

abbrev pub with_sessions :
    Manager
    → Result SessionError (List (ProtocolSessionKey × SessionRecord))
    → Manager × Result SessionError (Unit {0})
with_sessions m (ok sessions) = (record m { sessions = sessions }, ok tt)
with_sessions m (err e) = (m, err e)

-- `SESSION_SEQ.fetch_add(1) + 1`: an `AtomicU64`, which wraps.
unfoldable pub minted : ℕ → ℕ
minted seq = (seq + 1) % 2 ^ 64

abbrev pub reusable : Option SessionRecord → Option ProtocolSessionId
reusable none = none
reusable (some r) =
    if is_ready r.session.state && not r.operation_active then some r.session.session_id else none

abbrev pub new_session :
    ℕ → ℕ → ProtocolSessionId → ProtocolSessionKey → Option RuntimeId → ProtocolSession
new_session wall now id key runtime_id = record {
  session_id = id;
  runtime_id = runtime_id;
  key = key;
  state = fresh;
  created_at = wall;
  last_activity_at = now;
}

abbrev pub establish_from :
    ℕ
    → ℕ
    → ProtocolSessionKey
    → Option RuntimeId
    → Manager
    → Option ProtocolSessionId
    → Manager × ProtocolSessionId
establish_from wall now key runtime_id m (some id) = (m, id)
establish_from wall now key runtime_id m none =
    let session = new_session wall now (minted m.seq) key runtime_id in
    (
      record {
        seq = minted m.seq;
        sessions = insert key (record { session = session; operation_active = false }) m.sessions;
      },
      minted m.seq,
    )

unfoldable pub establish :
    ℕ → ℕ → ProtocolSessionKey → Option RuntimeId → Manager → Manager × ProtocolSessionId
establish wall now key runtime_id m =
    establish_from wall now key runtime_id m (reusable (lookup key m.sessions))

abbrev pub with_state : ProtocolSessionState → SessionRecord → SessionRecord
with_state s r = record r { session = record (r.session) { state = s } }

abbrev pub touch : ℕ → SessionRecord → SessionRecord
touch now r = record r { session = record (r.session) { last_activity_at = now } }

unfoldable pub mark_ready :
    ℕ → ProtocolSessionId → Manager → Manager × Result SessionError (Unit {0})
mark_ready now id m =
    with_sessions m (update_by_id id (λ r. touch now (with_state ready r)) m.sessions)

unfoldable pub mark_failed : ProtocolSessionId → Manager → Manager × Result SessionError (Unit {0})
mark_failed id m = with_sessions m (update_by_id id (with_state failed) m.sessions)

abbrev pub acquire_from :
    ℕ
    → ProtocolSessionKey
    → Manager
    → Option SessionRecord
    → Manager × Result SessionError ProtocolSessionId
acquire_from now key m none = (m, err not_found)
acquire_from now key m (some r) =
    if not (keys_match r.session.key key) then (m, err key_mismatch) else elim r.session.state [
      | ready ↦ if r.operation_active then (m, err busy) else (
        record m {
          sessions = insert key (touch now (record r { operation_active = true })) m.sessions;
        },
        ok r.session.session_id,
      )
      | closed ↦ (m, err session_closed)
      | invalid ↦ (m, err not_recoverable)
      | failed ↦ (m, err not_recoverable)
      | _ ↦ (m, err busy)
    ]

unfoldable pub acquire_operation :
    ℕ → ProtocolSessionKey → Manager → Manager × Result SessionError ProtocolSessionId
acquire_operation now key m = acquire_from now key m (lookup key m.sessions)

unfoldable pub release_operation :
    ℕ → ProtocolSessionId → Manager → Manager × Result SessionError (Unit {0})
release_operation now id m =
    with_sessions m
      (update_by_id id (λ r. touch now (record r { operation_active = false })) m.sessions)

unfoldable pub invalidate : ProtocolSessionId → Manager → Manager × Result SessionError (Unit {0})
invalidate id m =
    with_sessions m
      (update_by_id id (λ r. record (with_state invalid r) { operation_active = false }) m.sessions)

-- `r.session.runtime_id.as_ref() == Some(runtime_id)`
abbrev pub bound_to : RuntimeId → Option RuntimeId → Bool
bound_to rt none = false
bound_to rt (some id) = id == rt

abbrev pub closes : RuntimeId → SessionRecord → Bool
closes rt r = bound_to rt r.session.runtime_id && not (is_closed r.session.state)

-- The loop over `values_mut`: the records it changes, and the ids that it collects.
abbrev pub close_record : RuntimeId → SessionRecord → SessionRecord
close_record rt r =
    if closes rt r then record (with_state closed r) { operation_active = false } else r

unfoldable pub closed_ids :
    RuntimeId → List (ProtocolSessionKey × SessionRecord) → List ProtocolSessionId
closed_ids rt [] = []
closed_ids rt ((k, r) ∷ m) =
    let rest = closed_ids rt m in if closes rt r then r.session.session_id ∷ rest else rest

unfoldable pub close_for_runtime : RuntimeId → Manager → Manager × List ProtocolSessionId
close_for_runtime rt m =
    (record m { sessions = map_values (close_record rt) m.sessions }, closed_ids rt m.sessions)

abbrev pub is_open : SessionRecord → Bool
is_open r = not (is_closed r.session.state)

unfoldable pub purge_closed : Manager → Manager
purge_closed m = record m { sessions = retain is_open m.sessions }

abbrev session_of : Option SessionRecord → Option ProtocolSession
session_of none = none
session_of (some r) = some r.session

unfoldable pub session : ProtocolSessionKey → Manager → Option ProtocolSession
session key m = session_of (lookup key m.sessions)

unfoldable pub validate_pair :
    Manager → ProtocolSessionId → ProtocolSessionKey → Result SessionError (Unit {0})
validate_pair m id key = elim (get key m) [
  | some found ↦ if found == id then ok tt else err key_mismatch
  | none ↦ err not_found
]
