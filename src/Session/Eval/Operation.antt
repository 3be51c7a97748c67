-- ===== src/Session/Eval/Operation.antt =====
-- `apply_backend_execution_event`, `start_operation` and `finish_operation` of
-- crates/dbgflow-debug/src/session/manager.rs.
use mathlib.Core.Option
use dbgflow.Prelude.{
  ℕ, String, Bool, true, false, not, ◌&&◌, ◌||◌, Option, none, some, List, [], ◌∷◌, ◌++◌, lookup,
  if◌then◌else◌,
}
use dbgflow.Common.Error.{SessionId, Message, Result, ok, err, session_not_found}
use dbgflow.Session.State.{
  SessionState, is_closing, is_closed, is_terminal, BackendExecutionEvent, debug_backend_state,
  session_state_for_backend_execution_state,
}
use dbgflow.Session.Artifact.{ArtifactRef, Value, string}
use dbgflow.Session.Operation.{OperationStatus, OperationSummary, Session, operation_status_label}
use dbgflow.Session.Audit.{session_event, number_field, artifact_path_of}
use dbgflow.Session.Manager.{
  SessionManager, TranscriptLine, append_event, append_transcript, emit, put_session,
  notify_session_updated,
}
use dbgflow.Session.Close.{eval_event_name}

abbrev reason_field : Option String → List (String × Value)
reason_field none = []
reason_field (some reason) = ("reason", string reason) ∷ []

abbrev command_id_of : Session → Option ℕ
command_id_of s = Option.map (λ (o : OperationSummary). o.command_id) s.last_operation

-- The session with the state that the backend reports.
unfoldable pub reported_session : ℕ → SessionState → Session → Session
reported_session now next_state session = record session {
  state = next_state;
  updated_at_unix_ms = now;
  error = if is_closed next_state then none else session.error;
}

unfoldable pub audit_reported :
    SessionId → BackendExecutionEvent → SessionState → Session → SessionManager → SessionManager
unfolding session_event debug_backend_state
audit_reported id event previous s m =
    emit
      (append_transcript id
        (TranscriptLine.backend_state_changed m.clock previous s.state (command_id_of s)))
      (emit
        (append_event id (
          session_event m.clock "backend_execution_state_changed" s (some previous)
            s.current_operation (command_id_of s) none none
            (("backend_state", string (debug_backend_state event.state))
              ∷ reason_field event.reason)))
        m)

-- Closing sessions and sessions in error stay as they are.
unfoldable pub apply_backend_execution_event :
    SessionId → BackendExecutionEvent → SessionManager → Result (Unit {0}) × SessionManager
unfolding session_state_for_backend_execution_state reported_session audit_reported is_terminal
    notify_session_updated
apply_backend_execution_event session_id event m = elim (lookup session_id m.sessions) [
  | none ↦ (err (session_not_found session_id), m)
  | some session ↦
      if is_closing session.state
      then (ok tt, m)
      else if is_terminal session.state && not (is_closed session.state)
      then (ok tt, m)
      else (let updated =
            reported_session m.clock (session_state_for_backend_execution_state event.state)
              session in
          (
            ok tt,
            notify_session_updated session_id (
                audit_reported session_id event session.state updated
                  (put_session session_id updated m)),
          ))
]

-- The session with the operation under way.
unfoldable pub operating_session : ℕ → SessionState → OperationSummary → Session → Session
operating_session now state operation session = record session {
  state = state;
  updated_at_unix_ms = now;
  current_operation = some operation.command;
  last_operation = some operation;
  error = none;
}

-- A session that is closing or terminal is left alone, and the caller is not told.
unfoldable pub start_operation :
    SessionId
    → SessionState
    → OperationSummary
    → SessionManager
    → Result (Unit {0}) × SessionManager
unfolding operating_session session_event is_terminal notify_session_updated
start_operation session_id state operation m = elim (lookup session_id m.sessions) [
  | none ↦ (err (session_not_found session_id), m)
  | some session ↦
      if is_terminal session.state || is_closing session.state
      then (ok tt, m)
      else (let updated = operating_session m.clock state operation session in
          (
            ok tt,
            notify_session_updated session_id (
                emit
                  (append_transcript session_id
                    (TranscriptLine.eval_started m.clock operation.command_id operation.command))
                  (emit
                    (append_event session_id (
                      session_event m.clock "eval_started" updated (some session.state)
                        (some operation.command) (some operation.command_id) none none
                        (("status", string "Running") ∷ [])))
                    (put_session session_id updated m))),
          ))
]

-- How an operation ended.
pub record Ending : Type 0 where
  pub state : SessionState
  pub status : OperationStatus
  pub artifact : Option ArtifactRef
  pub error : Option Message
  pub output_bytes : Option ℕ
  pub duration_ms : ℕ

unfoldable pub ended_operation : ℕ → Ending → OperationSummary → OperationSummary
ended_operation now e operation = record operation {
  status = e.status;
  finished_at_unix_ms = some now;
  duration_ms = some e.duration_ms;
  artifact = e.artifact;
  error = e.error;
  output_bytes = e.output_bytes;
}

unfoldable pub ended_session : ℕ → Ending → Session → Session
unfolding ended_operation
ended_session now e session = record session {
  state = e.state;
  updated_at_unix_ms = now;
  current_operation = none;
  error = e.error;
  last_operation = Option.map (ended_operation now e) session.last_operation;
}

abbrev is_finished : OperationStatus → Bool
is_finished OperationStatus.finished = true
is_finished _ = false

-- The sessions whose end is ignored: closing, in error, or closed unless the operation itself
-- finished by closing the target.
unfoldable pub ignores_ending : SessionState → Ending → Bool
unfolding is_terminal
ignores_ending state e =
    is_closing state
    || (is_terminal state && not (is_closed state && is_closed e.state && is_finished e.status))

abbrev transcribe_ending : SessionId → Ending → Session → SessionManager → SessionManager
transcribe_ending id e s m = elim s.last_operation [
  | none ↦ m
  | some operation ↦
      emit
        (append_transcript id (
          TranscriptLine.eval_ended m.clock (eval_event_name e.status) operation.command_id
            operation.command e.duration_ms s.error))
        m
]

abbrev ended_artifact : Option OperationSummary → Option ArtifactRef
ended_artifact none = none
ended_artifact (some operation) = operation.artifact

unfoldable pub audit_ending :
    SessionId → Ending → SessionState → Session → SessionManager → SessionManager
unfolding session_event operation_status_label eval_event_name
audit_ending id e previous s m = transcribe_ending id e s (
    emit
      (append_event id (
        session_event m.clock (eval_event_name e.status) s (some previous)
          (Option.map (λ (o : OperationSummary). o.command) s.last_operation) (command_id_of s)
          (artifact_path_of (ended_artifact s.last_operation)) s.error
          (("status", string (operation_status_label e.status))
            ∷ (number_field "output_bytes" e.output_bytes
                ++ number_field "duration_ms" (some e.duration_ms)))))
      m)

-- Whether the ending was taken.
unfoldable pub finish_operation : SessionId → Ending → SessionManager → Result Bool × SessionManager
unfolding ignores_ending ended_session audit_ending notify_session_updated
finish_operation session_id e m = elim (lookup session_id m.sessions) [
  | none ↦ (err (session_not_found session_id), m)
  | some session ↦
      if ignores_ending session.state e
      then (ok false, m)
      else (let updated = ended_session m.clock e session in
          (
            ok true,
            notify_session_updated session_id (
                audit_ending session_id e session.state updated (put_session session_id updated m)),
          ))
]
