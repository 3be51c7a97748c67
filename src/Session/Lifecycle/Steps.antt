-- ===== src/Session/Lifecycle/Steps.antt =====
-- The session manager under all its callers and threads: any section of session/manager.rs may
-- follow any other, with whatever the workers, the clock and the disk answer.
use dbgflow.Prelude.{ℕ, ◌≡◌, ◌⊎◌, Bool, none, some, List, lookup}
use dbgflow.Common.Error.{SessionId, DbgFlowError, Message, Result}
use dbgflow.Session.State.{SessionState, BackendExecutionEvent}
use dbgflow.Session.Operation.{OperationSummary, Session}
use dbgflow.Session.Target.{DebugTarget}
use dbgflow.Session.Artifact.{FilePath}
use dbgflow.Session.Registry.{WorkerId}
use dbgflow.Session.Manager.{SessionManager, Subscriber, new}
use dbgflow.Session.Create.{AuditDisk, get_or_create}
use dbgflow.Session.Close.{request_close, LockOutcome, close_thread}
use dbgflow.Session.Startup.{WorkerSession, register_worker, finish_worker_startup}
use dbgflow.Session.Eval.Operation.{apply_backend_execution_event, start_operation}
use dbgflow.Session.Eval.Run.{EvalSession, audit_rejected_eval, Started, EvalWorld, end_eval}
use dbgflow.Session.Monitor.{mark_worker_unavailable}

-- The state that an eval read, where the session that it starts is in state `s` by now. It is `Break`
-- or `Ready`; no session is ever in state `Ready`, so that this one is taken only where it still stands.
abbrev pub StateRead : SessionState → SessionState → Type 0
StateRead state s = (state ≡ SessionState.break) ⊎ (state ≡ s)

pub data Step (m : SessionManager) : SessionManager → Type 0 where
  clock_reads : (now : ℕ) → Step m (record m { clock = now })
  receivers_change : (rs : List Subscriber) → Step m (record m { event_subscribers = rs })
  creates :
      (disk : AuditDisk) (fresh : SessionId) (t : DebugTarget)
      → lookup fresh m.sessions ≡ none
      → Step m (get_or_create disk fresh t m).1
  close_requested : (has_worker : Bool) (id : SessionId) → Step m (request_close has_worker id m).1
  close_ends :
      (outcome : LockOutcome) (closed : Result (Unit {0})) (id : SessionId)
      → Step m (close_thread outcome closed id m)
  worker_registered : (w : WorkerId) (id : SessionId) → Step m (register_worker w id m).1
  startup_ends :
      (r : Result WorkerSession) (closed : Result (Unit {0})) (duration_ms : ℕ) (id : SessionId)
      → Step m (finish_worker_startup r closed duration_ms id m)
  backend_reports :
      (id : SessionId) (event : BackendExecutionEvent)
      → Step m (apply_backend_execution_event id event m).1
  eval_refused :
      (command_id : ℕ) (request : EvalSession) (e : DbgFlowError)
      → Step m (audit_rejected_eval command_id request e m)
  operation_starts :
      (id : SessionId) (state : SessionState) (o : OperationSummary)
      → ((s : Session) → lookup id m.sessions ≡ some s → StateRead state s.state)
      → Step m (start_operation id state o m).1
  eval_ends :
      (w : EvalWorld) (s : Started) (request : EvalSession) → Step m (end_eval w s request m).1
  worker_lost : (id : SessionId) (e : Message) → Step m (mark_worker_unavailable id e m)

pub data Reach (now : ℕ) (root : FilePath) : SessionManager → Type 0 where
  begun : Reach now root (new now root)
  next : {m n : SessionManager} → Reach now root m → Step m n → Reach now root n
