-- ===== src/Reverse/Manager/Close.antt =====
-- `close_session_with_save` of crates/dbgflow-reverse/src/ida/manager.rs. The session's operation
-- lock is held all along; `get_session` asks the supervisor, so others may run in between.
pub mod Same
pub mod Settled
use dbgflow.Prelude.{
  String, Bool, true, false, ◌||◌, Option, none, some, List, [], ◌∷◌, erase, if◌then◌else◌,
}
use dbgflow.Common.Error.{
  SessionId, Message, text, of_error, Result, ok, err, backend, session_closed,
}
use dbgflow.Common.Json.{end, get, as_bool, as_str}
use dbgflow.Reverse.Model.{
  ReverseSession, ReverseSessionState, SaveStatus, not_requested, saved, failed,
  CloseDatabaseResult, SupervisorToolCallResult, close_report,
}
use dbgflow.Reverse.Upstream.{and_then, is_false}
use dbgflow.Reverse.Manager.{
  Outside, Op, ◌>>=◌, ◌>>◌, pure, update_session, append_session_warning,
  append_artifact_to_session, record_event, operation_lock, database_id, wait, call_database,
  EventValue, bool_value, status_value, message_value,
}
use dbgflow.Reverse.Manager.Output.{write_tool_output}
use dbgflow.Reverse.Manager.Health.{get_session}

abbrev pub is_closed : ReverseSessionState → Bool
is_closed ReverseSessionState.closed = true
is_closed _ = false

unfoldable pub state_changed :
    Outside
    → SessionId
    → (previous state : ReverseSessionState) → (operation : String) → Option Message
    → Op (Unit {0})
unfolding record_event
state_changed o session_id previous state operation error =
    record_event o session_id "state_changed" (some previous) (some state) (some operation) none
      error []

unfoldable pub update_session_state :
    Outside
    → SessionId
    → ReverseSessionState
    → (operation : String) → Option Message
    → Op ReverseSessionState
unfolding get_session update_session state_changed
update_session_state o session_id state operation error = get_session o session_id >>= λ session.
    update_session o session_id (λ s. record s { state = state; error = error }) >>= λ _.
    state_changed o session_id session.state state operation error >>= λ _. pure session.state

abbrev message_of : Option String → Option Message
message_of none = none
message_of (some t) = some (text t)

-- What an answer of `idb_save` says of the save.
unfoldable pub saved_result : SupervisorToolCallResult → CloseDatabaseResult
saved_result result = record {
  save_requested = true;
  save_status =
      if result.is_error || is_false (and_then (get "ok" result.structured_content) as_bool)
      then failed
      else saved;
  warning = none;
  error = elim result.error_message [
    | some error ↦ some (text error)
    | none ↦ message_of (and_then (get "error" result.structured_content) as_str)
  ];
}

unfoldable pub unsaved_result : Message → CloseDatabaseResult
unsaved_result error = record {
  save_requested = true;
  save_status = failed;
  warning = none;
  error = some error;
}

unfoldable pub no_save : CloseDatabaseResult
no_save = record {
  save_requested = false;
  save_status = not_requested;
  warning = none;
  error = none;
}

unfoldable pub save_answered :
    Outside → SessionId → Result SupervisorToolCallResult → Op CloseDatabaseResult
unfolding saved_result unsaved_result write_tool_output append_artifact_to_session
save_answered o session_id (err error) = pure (unsaved_result (of_error error))
save_answered o session_id (ok result) =
    write_tool_output o session_id "idb_save" end result >>= λ output.
    append_artifact_to_session o session_id output.0 >> pure (saved_result result)

unfoldable pub save_database :
    Outside → SessionId → (database : String) → Bool → Op CloseDatabaseResult
unfolding no_save save_answered wait
save_database o session_id database false m = (ok no_save, m)
save_database o session_id database true m =
    save_answered o session_id (o.calls m.ticks database "idb_save" end)
      (wait o (call_database database "idb_save" end) m)

abbrev is_failed : SaveStatus → Bool
is_failed failed = true
is_failed _ = false

abbrev is_some : Option Message → Bool
is_some none = false
is_some (some e) = true

unfoldable pub close_failed : CloseDatabaseResult → Bool
close_failed result = is_failed result.save_status || is_some result.error

unfoldable pub close_error : CloseDatabaseResult → Message
close_error result = elim result.error [
  | some error ↦ error
  | none ↦ text "ida-pro-mcp idb_save failed"
]

unfoldable pub close_fields : Bool → CloseDatabaseResult → List (String × EventValue)
close_fields save result =
    ("save_requested", bool_value save)
    ∷ ("save_status", status_value result.save_status)
    ∷ ("warning", message_value result.warning)
    ∷ ("error", message_value result.error)
    ∷ ("detached", bool_value true)
    ∷ []

unfoldable pub kept_session :
    ReverseSessionState → CloseDatabaseResult → ReverseSession → ReverseSession
unfolding close_error
kept_session previous_state result session = record session {
  state = previous_state;
  last_health = some (record {
    reachable = true;
    detail = some (close_report result false);
    error = some (close_error result);
  });
  error = some (close_error result);
}

-- `DbgFlowError::Backend(error)`, whose text is that of the error.
abbrev backend_message : (Message → String) → Message → Result ReverseSession
backend_message render error = err (backend (render error))

unfoldable pub close_failed_event :
    Outside → SessionId → Bool → ReverseSessionState → CloseDatabaseResult → Op (Unit {0})
unfolding record_event close_fields close_error
close_failed_event o session_id save previous_state result =
    record_event o session_id "close_session_failed" (some ReverseSessionState.closing)
      (some previous_state) (some "ida.close_session") none (some (close_error result))
      (close_fields save result)

unfoldable pub finish_failed :
    (render : Message → String)
    → Outside
    → SessionId
    → Bool
    → ReverseSessionState
    → CloseDatabaseResult
    → Op ReverseSession
unfolding append_session_warning update_session kept_session close_failed_event close_error
finish_failed render o session_id save previous_state result =
    append_session_warning o session_id (close_error result) >>= λ _.
    update_session o session_id (kept_session previous_state result) >>= λ _.
    close_failed_event o session_id save previous_state result >>= λ _.
    λ m. (backend_message render (close_error result), m)

unfoldable pub closed_session : CloseDatabaseResult → ReverseSession → ReverseSession
closed_session result session = record session {
  state = ReverseSessionState.closed;
  database_id = none;
  is_active = some false;
  last_health =
      some (record { reachable = false; detail = some (close_report result true); error = none });
  error = none;
}

unfoldable pub unbind_database : SessionId → Op (Unit {0})
unbind_database session_id m = (ok tt, record m { database_ids = erase session_id m.database_ids })

abbrev pub warn : Outside → SessionId → Option Message → Op (Unit {0})
warn o session_id none = pure tt
warn o session_id (some warning) = append_session_warning o session_id warning >> pure tt

unfoldable pub close_finished_event :
    Outside → SessionId → Bool → ReverseSessionState → CloseDatabaseResult → Op (Unit {0})
unfolding record_event close_fields
close_finished_event o session_id save previous_state result =
    record_event o session_id "close_session_finished" (some previous_state)
      (some ReverseSessionState.closed) (some "ida.close_session") none none
      (close_fields save result)

-- The database is given up, and stays open upstream until its idle time is over.
unfoldable pub finish_closed :
    Outside → SessionId → Bool → ReverseSessionState → CloseDatabaseResult → Op ReverseSession
unfolding append_session_warning update_session unbind_database closed_session close_finished_event
    get_session
finish_closed o session_id save previous_state result = unbind_database session_id >>= λ _.
    warn o session_id result.warning >>= λ _. warn o session_id result.error >>= λ _.
    update_session o session_id (closed_session result) >>= λ _.
    close_finished_event o session_id save previous_state result >>= λ _. get_session o session_id

unfoldable pub finish_close :
    (render : Message → String)
    → Outside
    → SessionId
    → Bool
    → ReverseSessionState
    → CloseDatabaseResult
    → Op ReverseSession
unfolding close_failed finish_failed finish_closed
finish_close render o session_id save previous_state result =
    if close_failed result
    then finish_failed render o session_id save previous_state result
    else finish_closed o session_id save previous_state result

unfoldable pub close_bound :
    (render : Message → String)
    → Outside
    → SessionId
    → Bool
    → ReverseSessionState
    → Op ReverseSession
unfolding database_id update_session_state save_database finish_close
close_bound render o session_id save previous_state = database_id o session_id >>= λ database.
    update_session_state o session_id ReverseSessionState.closing "ida.close_session" none >>= λ _.
    save_database o session_id database save >>= λ result.
    finish_close render o session_id save previous_state result

-- A session that is closed is not closed again.
unfoldable pub close_found :
    (render : Message → String) → Outside → SessionId → Bool → ReverseSession → Op ReverseSession
unfolding close_bound
close_found render o session_id save session =
    if is_closed session.state
    then (λ m. (err (session_closed session_id), m))
    else close_bound render o session_id save session.state

unfoldable pub close_session_with_save :
    (render : Message → String) → Outside → SessionId → Bool → Op ReverseSession
unfolding operation_lock get_session close_found
close_session_with_save render o session_id save = operation_lock session_id >>= λ _.
    get_session o session_id >>= λ session. close_found render o session_id save session

unfoldable pub close_session : (render : Message → String) → Outside → SessionId → Op ReverseSession
unfolding close_session_with_save
close_session render o session_id = close_session_with_save render o session_id true
