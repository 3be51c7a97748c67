-- ===== src/Session/Startup.antt =====
-- `spawn_worker_startup` and `finish_worker_startup` of
-- crates/dbgflow-debug/src/session/manager.rs.
pub mod Ended
use dbgflow.Prelude.{
  ℕ, String, ◌%◌, ◌^◌, Bool, true, false, ◌||◌, Option, none, some, List, [], ◌∷◌, lookup,
  if◌then◌else◌,
}
use dbgflow.Common.Error.{SessionId, Message, of_error, DbgFlowError, Result, ok, err, backend}
use dbgflow.Session.State.{SessionState, is_closing, is_terminal}
use dbgflow.Session.Target.{DebugTarget, dump, attach, launch}
use dbgflow.Session.Artifact.{Value, number}
use dbgflow.Session.Operation.{Session}
use dbgflow.Session.Audit.{session_event}
use dbgflow.Session.Registry
use dbgflow.Session.Registry.{WorkerId}
use dbgflow.Session.Manager.{
  SessionManager, TranscriptLine, append_event, append_transcript, kill_worker, close_worker,
  spawn_monitor, emit, put_session, notify_session_updated, operation_lock, worker, remove_worker,
  kill_once,
}
use dbgflow.Session.Close.{finish_worker_close}

-- What `create_session` of a worker answers.
pub record WorkerSession : Type 0 where
  pub backend : String
  pub backend_session_id : String
  pub warnings : List String

unfoldable pub state_for_target : DebugTarget → SessionState
state_for_target (dump path) = SessionState.break
state_for_target (attach pid) = SessionState.break
state_for_target (launch executable args) = SessionState.break

abbrev pub is_closing_or_terminal : SessionState → Bool
is_closing_or_terminal s = is_closing s || is_terminal s

unfoldable pub session_is_closing_or_terminal : SessionId → SessionManager → Bool
unfolding is_terminal
session_is_closing_or_terminal session_id m = elim (lookup session_id m.sessions) [
  | none ↦ false
  | some session ↦ is_closing_or_terminal session.state
]

abbrev duration_field : ℕ → List (String × Value)
duration_field duration_ms = ("duration_ms", number (duration_ms % 2 ^ 64)) ∷ []

-- The session once its worker has opened the target.
unfoldable pub started_session : ℕ → WorkerSession → Session → Session
unfolding state_for_target
started_session now ws session = record session {
  backend = ws.backend;
  backend_session_id = some ws.backend_session_id;
  state = state_for_target session.target;
  updated_at_unix_ms = now;
  warnings = ws.warnings;
  current_operation = none;
  error = none;
}

-- The monitor thread is spawned over the worker that is registered.
unfoldable pub spawn_worker_monitor : SessionId → SessionManager → SessionManager
unfolding worker
spawn_worker_monitor session_id m = elim (worker session_id m) [
  | none ↦ m
  | some w ↦ emit (spawn_monitor session_id w) m
]

-- A worker that came up too late is closed, unless it was killed already; `closed` is what its
-- `close()` answers. Only a session that is closing is finished here.
unfoldable pub close_late_worker :
    Result (Unit {0}) → Bool → SessionId → SessionManager → SessionManager
unfolding remove_worker
close_late_worker closed was_closing session_id m =
    let canceled = Registry.is_cancel_requested session_id m.workers in
    let (removed, m₁) = remove_worker session_id m in
    elim removed [
      | none ↦ if was_closing then finish_worker_close session_id (ok tt) m₁ else m₁
      | some w ↦
          if canceled
          then (if was_closing then finish_worker_close session_id (ok tt) m₁ else m₁)
          else (let m₂ = emit (close_worker w) m₁ in
              if was_closing then finish_worker_close session_id closed m₂ else m₂)
    ]

unfoldable pub finish_startup_ok :
    WorkerSession → Result (Unit {0}) → ℕ → SessionId → SessionManager → SessionManager
unfolding started_session session_event notify_session_updated is_terminal
finish_startup_ok ws closed duration_ms session_id m = elim (lookup session_id m.sessions) [
  | none ↦ close_late_worker closed false session_id m
  | some session ↦
      if is_terminal session.state || is_closing session.state
      then close_late_worker closed (is_closing session.state) session_id m
      else (let updated = started_session m.clock ws session in
          spawn_worker_monitor session_id (
            notify_session_updated session_id (
              emit
                (append_transcript session_id
                  (TranscriptLine.worker_startup_finished m.clock updated duration_ms))
                (emit
                  (append_event session_id (
                    session_event m.clock "worker_startup_finished" updated (some session.state)
                      (some "create_session") none none none (duration_field duration_ms)))
                  (put_session session_id updated m)))))
]

-- The worker of a failed startup is taken out, and killed unless that was asked for already.
unfoldable pub discard_worker : SessionId → SessionManager → SessionManager
unfolding remove_worker
discard_worker session_id m =
    let canceled = Registry.is_cancel_requested session_id m.workers in
    let (removed, m₁) = remove_worker session_id m in
    elim removed [
      | none ↦ m₁
      | some w ↦ if canceled then m₁ else emit (kill_worker w "startup_failed") m₁
    ]

abbrev pub fail_session : ℕ → SessionState → Option Message → Session → Session
fail_session now state e session = record session {
  state = state;
  updated_at_unix_ms = now;
  current_operation = none;
  error = e;
}

-- What a failed startup makes of the session: the new session, and the events' name.
unfoldable pub finish_startup_err : DbgFlowError → ℕ → SessionId → SessionManager → SessionManager
unfolding discard_worker session_event notify_session_updated is_terminal
finish_startup_err e duration_ms session_id m =
    let m₁ = discard_worker session_id m in
    elim (lookup session_id m₁.sessions) [
      | none ↦ m₁
      | some session ↦
          if is_closing session.state
          then (let updated = fail_session m₁.clock SessionState.closed none session in
              notify_session_updated session_id (
                emit
                  (append_transcript session_id (
                    TranscriptLine.startup_failed_after_close m₁.clock updated.state (of_error e)
                      duration_ms))
                  (emit
                    (append_event session_id (
                      session_event m₁.clock "worker_startup_failed_after_close" updated
                        (some session.state) (some "create_session") none none (some (of_error e))
                        (duration_field duration_ms)))
                    (put_session session_id updated m₁))))
          else if is_terminal session.state
          then m₁
          else (let updated =
                fail_session m₁.clock SessionState.error (some (of_error e)) session in
              notify_session_updated session_id (
                emit
                  (append_transcript session_id (
                    TranscriptLine.worker_startup_failed m₁.clock updated.state (of_error e)
                      duration_ms))
                  (emit
                    (append_event session_id (
                      session_event m₁.clock "worker_startup_failed" updated (some session.state)
                        (some "create_session") none none (some (of_error e))
                        (duration_field duration_ms)))
                    (put_session session_id updated m₁))))
    ]

unfoldable pub finish_worker_startup :
    Result WorkerSession → Result (Unit {0}) → ℕ → SessionId → SessionManager → SessionManager
finish_worker_startup (ok ws) closed duration_ms session_id m =
    finish_startup_ok ws closed duration_ms session_id m
finish_worker_startup (err e) closed duration_ms session_id m =
    finish_startup_err e duration_ms session_id m

-- The worker is registered, and given up at once if the session was closed in the meantime; the
-- answer says whether the thread goes on to open the target.
unfoldable pub register_worker : WorkerId → SessionId → SessionManager → Bool × SessionManager
unfolding session_is_closing_or_terminal
register_worker w session_id m =
    let m₁ = record m { workers = Registry.insert_worker session_id w m.workers } in
    if session_is_closing_or_terminal session_id m₁
    then (
      false,
      finish_worker_close session_id (ok tt)
          (kill_once session_id "startup_canceled_before_create" m₁),
    )
    else (true, m₁)

-- The startup thread: `launched` is the launcher's answer, `created` the worker's, and `others` is
-- what the other threads do while the worker opens the target.
pub record Launch : Type 0 where
  pub lock_poisoned : Bool
  pub launched : Result WorkerId
  pub created : Result WorkerSession
  pub closed : Result (Unit {0})
  pub others : SessionManager → SessionManager
  pub duration_ms : ℕ

unfoldable pub startup_thread : Launch → SessionId → SessionManager → SessionManager
startup_thread l session_id m = elim (operation_lock session_id m) [
  | err e ↦ finish_startup_err e l.duration_ms session_id m
  | ok _ ↦
      if l.lock_poisoned
      then finish_startup_err (backend "session operation lock poisoned") l.duration_ms session_id m
      else elim l.launched [
        | err e ↦ finish_startup_err e l.duration_ms session_id m
        | ok w ↦
            let (goes_on, m₁) = register_worker w session_id m in
            if goes_on
            then finish_worker_startup l.created l.closed l.duration_ms session_id (l.others m₁)
            else m₁
      ]
]
