-- ===== src/Session/Close.antt =====
-- `close_session` and `finish_worker_close` of crates/dbgflow-debug/src/session/manager.rs.
pub mod Settled
use mathlib.Core.Option
use dbgflow.Prelude.{
  ℕ, String, Bool, ◌||◌, Option, none, some, List, [], ◌∷◌, is_some, lookup, leb, if◌then◌else◌,
}
use dbgflow.Common.Error.{
  SessionId, text, of_error, Result, ok, err, backend, session_not_found, session_closed,
}
use dbgflow.Session.State.{SessionState, is_closing, is_closed}
use dbgflow.Session.Artifact.{string, bool}
use dbgflow.Session.Operation.{
  OperationStatus, OperationSummary, Session, finalize_canceled_operation,
  command_record_from_operation,
}
use dbgflow.Session.Audit.{session_event, operation_artifact_event}
use dbgflow.Session.Manager.{
  SessionManager, TranscriptLine, append_event, append_transcript, append_command_record,
  close_worker, spawn_close, emit, put_session, notify_session_updated, operation_lock, worker,
  remove_worker, kill_once,
}

unfoldable pub eval_event_name : OperationStatus → String
eval_event_name OperationStatus.canceled = "eval_canceled"
eval_event_name OperationStatus.failed = "eval_failed"
eval_event_name OperationStatus.finished = "eval_finished"
eval_event_name OperationStatus.cancel_requested = "eval_cancel_requested"
eval_event_name OperationStatus.running = "eval_running"

-- The session as `close_result` leaves it, before `updated_at` and `current_operation` are set;
-- and the operation that the close has ended.
unfoldable pub settle : ℕ → Result (Unit {0}) → Session → Session × Option OperationSummary
unfolding finalize_canceled_operation
settle now (ok _) session =
    let (s, operation) =
      finalize_canceled_operation now OperationStatus.canceled
        (text "operation canceled by close_session") session in
    (record s { state = SessionState.closed; error = none }, operation)
settle now (err e) session =
    let (s, operation) =
      finalize_canceled_operation now OperationStatus.failed (of_error e) session in
    (record s { state = SessionState.error; error = some (of_error e) }, operation)

-- The audit of the close itself.
unfoldable pub audit_close :
    SessionId → Result (Unit {0}) → SessionState → Session → SessionManager → SessionManager
unfolding session_event
audit_close id (ok _) previous s m =
    emit (append_transcript id (TranscriptLine.worker_close_finished m.clock s.state)) (
      emit
        (append_event id (
          session_event m.clock "worker_close_finished" s (some previous) (some "close_session")
            none none none (("status", string "Closed") ∷ [])))
        m)
audit_close id (err e) previous s m =
    emit (append_transcript id (TranscriptLine.worker_close_failed m.clock s.state (of_error e))) (
      emit
        (append_event id (
          session_event m.clock "worker_close_failed" s (some previous) (some "close_session") none
            none (some (of_error e)) (("status", string "Error") ∷ [])))
        m)

-- The audit of the operation that it ended.
unfoldable pub audit_ended :
    SessionId → Session → Option OperationSummary → SessionManager → SessionManager
unfolding command_record_from_operation operation_artifact_event eval_event_name
audit_ended id s none m = m
audit_ended id s (some operation) m =
    let name = eval_event_name operation.status in
    emit
      (append_transcript id (
        TranscriptLine.operation_closed m.clock name operation.command_id operation.command
          operation.error))
      (emit
        (append_event id
          (operation_artifact_event m.clock s (some SessionState.closing) operation name))
        (emit
          (append_command_record id (command_record_from_operation operation s.backend_session_id))
          m))

unfoldable pub finish_worker_close : SessionId → Result (Unit {0}) → SessionManager → SessionManager
unfolding settle audit_close audit_ended remove_worker notify_session_updated
finish_worker_close session_id close_result m =
    let (_, m₁) = remove_worker session_id m in
    elim (lookup session_id m₁.sessions) [
      | none ↦ notify_session_updated session_id m₁
      | some session ↦
          let (updated, ended) = settle m₁.clock close_result session in
          let final = record updated { updated_at_unix_ms = m₁.clock; current_operation = none } in
          notify_session_updated session_id (
            audit_ended session_id updated ended (
              audit_close session_id close_result session.state updated
                (put_session session_id final m₁)))
    ]

abbrev request_cancel : OperationSummary → OperationSummary
request_cancel operation = elim operation.status [
  | OperationStatus.running ↦ record operation { status = OperationStatus.cancel_requested }
  | _ ↦ operation
]

-- The session that `close_session` leaves, and whether an operation has to be cancelled.
unfoldable pub closing_session : ℕ → Bool → Session → Session × Bool
closing_session now has_worker session =
    let should_cancel = is_some session.current_operation in
    (
      record session {
        state = if has_worker || should_cancel then SessionState.closing else SessionState.closed;
        updated_at_unix_ms = now;
        current_operation = none;
        last_operation =
            if should_cancel
            then Option.map request_cancel session.last_operation
            else session.last_operation;
      },
      should_cancel,
    )

unfoldable pub audit_close_request :
    SessionId → Bool → Bool → SessionState → Session → SessionManager → SessionManager
unfolding session_event
audit_close_request id has_worker should_cancel previous s m =
    emit (append_transcript id (TranscriptLine.close_requested m.clock s.state should_cancel)) (
      emit
        (append_event id (
          session_event m.clock "close_session_requested" s (some previous) (some "close_session")
            none none none
            (("had_worker", bool has_worker) ∷ ("cancel_requested", bool should_cancel) ∷ [])))
        m)

-- The part from the sessions' lock on. `has_worker` was read before.
unfoldable pub request_close : Bool → SessionId → SessionManager → Result Session × SessionManager
unfolding closing_session audit_close_request notify_session_updated kill_once
request_close has_worker session_id m = elim (lookup session_id m.sessions) [
  | none ↦ (err (session_not_found session_id), m)
  | some session ↦
      if is_closed session.state
      then (err (session_closed session_id), m)
      else if is_closing session.state
      then (ok session, m)
      else (let (updated, should_cancel) = closing_session m.clock has_worker session in
          let audited = notify_session_updated session_id (
            audit_close_request session_id has_worker should_cancel session.state updated
              (put_session session_id updated m)) in
          let canceled =
            if should_cancel
            then kill_once session_id "close_session_cancel" audited
            else audited in
          (
            ok updated,
            if is_closing updated.state then emit (spawn_close session_id) canceled else canceled,
          ))
]

unfoldable pub close_session : SessionId → SessionManager → Result Session × SessionManager
unfolding operation_lock worker
close_session session_id m = elim (operation_lock session_id m) [
  | err e ↦ (err e, m)
  | ok _ ↦ request_close (is_some (worker session_id m)) session_id m
]

-- One `try_lock` of the close thread, with the milliseconds since it began.
pub data TryLock : Type 0 where
  acquired would_block poisoned : TryLock

pub data LockOutcome : Type 0 where
  guarded timed_out lock_poisoned : LockOutcome

abbrev pub close_operation_wait_timeout : ℕ
close_operation_wait_timeout = 10000

-- The thread's loop over its attempts; `none` when it still waits.
unfoldable pub wait_for_operation : List (TryLock × ℕ) → Option LockOutcome
wait_for_operation [] = none
wait_for_operation ((acquired, elapsed) ∷ rest) = some guarded
wait_for_operation ((poisoned, elapsed) ∷ rest) = some lock_poisoned
wait_for_operation ((would_block, elapsed) ∷ rest) =
    let again = wait_for_operation rest in
    if leb close_operation_wait_timeout elapsed then some timed_out else again

-- The rest of the close thread. `closed` is what `close()` of the worker answers; no other section comes
-- in while it is awaited.
unfoldable pub close_thread :
    LockOutcome → Result (Unit {0}) → SessionId → SessionManager → SessionManager
close_thread timed_out closed session_id m =
    let (_, m₁) =
      remove_worker session_id (kill_once session_id "close_operation_wait_timed_out" m) in
    finish_worker_close session_id
      (err (backend "session operation did not finish after close cancellation")) m₁
close_thread lock_poisoned closed session_id m =
    finish_worker_close session_id (err (backend "session operation lock poisoned")) m
close_thread guarded closed session_id m =
    let (removed, m₁) = remove_worker session_id m in
    elim removed [
      | none ↦ finish_worker_close session_id (ok tt) m₁
      | some w ↦ finish_worker_close session_id closed (emit (close_worker w) m₁)
    ]
