-- ===== src/Session/Monitor.antt =====
-- The monitor thread and `mark_worker_unavailable` of
-- crates/dbgflow-debug/src/session/manager.rs.
use dbgflow.Prelude.{
  ℕ, Bool, true, false, ◌||◌, Option, none, some, List, [], ◌∷◌, lookup, if◌then◌else◌,
}
use dbgflow.Common.Error.{SessionId, Message, text, of_error, Result, ok, err}
use dbgflow.Session.State.{SessionState, is_closing, is_terminal}
use dbgflow.Session.Operation.{
  OperationStatus, OperationSummary, Session, finalize_canceled_operation,
  command_record_from_operation,
}
use dbgflow.Session.Audit.{session_event, operation_artifact_event}
use dbgflow.Session.Manager.{
  SessionManager, TranscriptLine, append_event, append_transcript, append_command_record, emit,
  put_session, notify_session_updated, remove_worker,
}

-- The thread's polls of `has_exited`: the message with which it ends, or `none` while it goes on.
unfoldable pub monitor : List (Result Bool) → Option Message
monitor [] = none
monitor (err e ∷ polls) = some (of_error e)
monitor (ok true ∷ polls) = some (text "session worker exited unexpectedly")
monitor (ok false ∷ polls) = monitor polls

-- The session whose worker is gone, and the operation that ends with it.
unfoldable pub lost_session : ℕ → Message → Session → Session × Option OperationSummary
unfolding finalize_canceled_operation
lost_session now e session =
    let (s, operation) = finalize_canceled_operation now OperationStatus.failed e session in
    (
      record s {
        state = SessionState.error;
        updated_at_unix_ms = now;
        current_operation = none;
        error = some e;
      },
      operation,
    )

unfoldable pub record_lost_operation :
    SessionId → SessionState → Session → Option OperationSummary → SessionManager → SessionManager
unfolding command_record_from_operation operation_artifact_event
record_lost_operation id previous s none m = m
record_lost_operation id previous s (some operation) m =
    emit
      (append_event id (operation_artifact_event m.clock s (some previous) operation "eval_failed"))
      (emit
        (append_command_record id (command_record_from_operation operation s.backend_session_id)) m)

unfoldable pub mark_worker_unavailable : SessionId → Message → SessionManager → SessionManager
unfolding is_terminal lost_session remove_worker session_event record_lost_operation
    notify_session_updated
mark_worker_unavailable session_id e m = elim (lookup session_id m.sessions) [
  | none ↦ m
  | some session ↦
      if is_closing session.state || is_terminal session.state
      then m
      else (let (updated, lost) = lost_session m.clock e session in
          let (_, m₁) = remove_worker session_id (put_session session_id updated m) in
          notify_session_updated session_id (
            emit
              (append_transcript session_id
                (TranscriptLine.worker_unavailable m.clock updated.state e))
              (record_lost_operation session_id session.state updated lost (
                emit
                  (append_event session_id (
                    session_event m.clock "worker_exited_unexpectedly" updated (some session.state)
                      none none none (some e) []))
                  m₁))))
]
