-- ===== src/Reverse/Manager/Health.antt =====
-- `refresh_session_health`, `get_session` and `list_sessions` of
-- crates/dbgflow-reverse/src/ida/manager.rs.
use dbgflow.Prelude.{
  String, true, false, Option, none, some, List, [], ◌∷◌, lookup, values, leb, text_eq,
  if◌then◌else◌,
}
use dbgflow.Common.Error.{SessionId, Message, text, of_error, Result, ok, err, session_not_found}
use dbgflow.Reverse.Model.{
  ReverseSession, ReverseSessionState, is_terminal, IdaUpstreamSession, listed,
}
use dbgflow.Reverse.Upstream.{unwrap_or}
use dbgflow.Reverse.Manager.{
  Outside, IdaSessionManager, Op, ◌>>◌, pure, best_effort, update_session, append_session_warning,
  wait, list_databases,
}

unfoldable pub find_database : String → List IdaUpstreamSession → Option IdaUpstreamSession
find_database database [] = none
find_database database (entry ∷ entries) =
    if text_eq entry.database_id database then some entry else find_database database entries

unfoldable pub took_entry : IdaUpstreamSession → ReverseSession → ReverseSession
took_entry entry session = record session {
  ida_backend = entry.backend;
  adopted = entry.adopted;
  owned = entry.owned;
  pid = entry.pid;
  worker_pid = entry.worker_pid;
  is_active = entry.is_active;
  last_health = some (record {
    reachable = unwrap_or entry.is_active true;
    detail = some (listed entry);
    error = none;
  });
}

abbrev pub lost_warning : Message
lost_warning = text "upstream IDA database session is no longer listed"

unfoldable pub lost : ReverseSession → ReverseSession
lost session = record session {
  state = ReverseSessionState.error;
  error = some lost_warning;
  is_active = some false;
  last_health = some (record { reachable = false; detail = none; error = some lost_warning });
}

unfoldable pub unreachable : Message → ReverseSession → ReverseSession
unreachable error session = record session {
  last_health = some (record { reachable = false; detail = none; error = some error });
}

-- What is done with the supervisor's answer. The session is not looked at again before that.
unfoldable pub apply_listing :
    Outside → SessionId → (database : String) → Result (List IdaUpstreamSession) → Op (Unit {0})
unfolding update_session append_session_warning find_database took_entry lost unreachable
apply_listing o session_id database (ok upstream) = elim (find_database database upstream) [
  | some entry ↦ update_session o session_id (took_entry entry) >> pure tt
  | none ↦
      append_session_warning o session_id lost_warning
      >> update_session o session_id lost
      >> pure tt
]
apply_listing o session_id database (err error) =
    update_session o session_id (unreachable (of_error error)) >> pure tt

unfoldable pub refresh_session_health : Outside → SessionId → Op (Unit {0})
unfolding wait apply_listing
refresh_session_health o session_id m = elim (lookup session_id m.sessions) [
  | none ↦ (err (session_not_found session_id), m)
  | some session ↦ if is_terminal session.state then (ok tt, m) else elim session.database_id [
    | none ↦ (ok tt, m)
    | some database ↦
        apply_listing o session_id database (o.lists m.ticks) (wait o list_databases m)
  ]
]

unfoldable pub stored_session : SessionId → Op ReverseSession
stored_session session_id m = elim (lookup session_id m.sessions) [
  | none ↦ (err (session_not_found session_id), m)
  | some session ↦ (ok session, m)
]

unfoldable pub get_session : Outside → SessionId → Op ReverseSession
unfolding refresh_session_health stored_session
get_session o session_id =
    best_effort (refresh_session_health o session_id) >> stored_session session_id

unfoldable pub refresh_all : Outside → List SessionId → IdaSessionManager → IdaSessionManager
unfolding refresh_session_health
refresh_all o [] m = m
refresh_all o (id ∷ ids) m = refresh_all o ids (refresh_session_health o id m).1

-- `sort_by_key(created_at_unix_ms)`: a stable sort.
unfoldable pub insert_by_age : ReverseSession → List ReverseSession → List ReverseSession
insert_by_age s [] = s ∷ []
insert_by_age s (t ∷ ts) =
    let rest = insert_by_age s ts in
    if leb s.created_at_unix_ms t.created_at_unix_ms then s ∷ t ∷ ts else t ∷ rest

unfoldable pub sort_by_age : List ReverseSession → List ReverseSession
unfolding insert_by_age
sort_by_age [] = []
sort_by_age (s ∷ ss) = insert_by_age s (sort_by_age ss)

abbrev session_keys : List (SessionId × ReverseSession) → List SessionId
session_keys [] = []
session_keys ((id, session) ∷ table) = id ∷ session_keys table

unfoldable pub list_sessions : Outside → Op (List ReverseSession)
unfolding refresh_all sort_by_age
list_sessions o m =
    let m' = refresh_all o (session_keys m.sessions) m in
    (ok (sort_by_age (values m'.sessions)), m')
