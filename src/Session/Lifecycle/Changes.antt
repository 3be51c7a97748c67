-- ===== src/Session/Lifecycle/Changes.antt =====
-- What one step does to the table of sessions.
use dbgflow.Prelude.{◌≡◌, refl, none, lookup, insert, values, option_branch}
use dbgflow.Common.Error.{SessionId, Result}
use dbgflow.Session.Target.{DebugTarget}
use dbgflow.Session.Operation.{Session}
use dbgflow.Session.Manager.{SessionManager}
use dbgflow.Session.Create.{
  AuditDisk, written, no_directory, no_event, no_transcript, find_reusable, starting_session,
  create_new, get_or_create,
}
use dbgflow.Session.Lifecycle.Steps.{
  Step, clock_reads, receivers_change, creates, close_requested, close_ends, worker_registered,
  startup_ends, backend_reports, eval_refused, operation_starts, eval_ends, worker_lost,
}
use dbgflow.Session.Lifecycle.Frame.{sessions-audit_rejected_eval}
use dbgflow.Session.Lifecycle.Touch.Defs.{Touch, keeps}
use dbgflow.Session.Lifecycle.Touch.Operations.{
  apply_backend_execution_event-Touch, start_operation-Touch, mark_worker_unavailable-Touch,
}
use dbgflow.Session.Lifecycle.Touch.Closing.{request_close-Touch, close_thread-Touch}
use dbgflow.Session.Lifecycle.Touch.Starting.{register_worker-Touch, finish_worker_startup-Touch}
use dbgflow.Session.Lifecycle.Touch.Evals.{end_eval-Touch}

pub data Change (m n : SessionManager) : Type 0 where
  touched : (id : SessionId) → Touch id m n → Change m n
  made :
      (fresh : SessionId) (t : DebugTarget)
      → lookup fresh m.sessions ≡ none
      → find_reusable t (values m.sessions) ≡ none
      → n.sessions ≡ insert fresh (starting_session fresh m.clock t) m.sessions
      → Change m n

create_new-Change :
    (disk : AuditDisk) (fresh : SessionId) (t : DebugTarget) (m : SessionManager)
    → lookup fresh m.sessions ≡ none
    → find_reusable t (values m.sessions) ≡ none
    → Change m (create_new disk fresh t m).1
unfolding create_new
create_new-Change written fresh t m absent h = made fresh t absent h refl
create_new-Change (no_directory e) fresh t m absent h = touched fresh (keeps refl)
create_new-Change (no_event e) fresh t m absent h = touched fresh (keeps refl)
create_new-Change (no_transcript e) fresh t m absent h = touched fresh (keeps refl)

creates-Change :
    (disk : AuditDisk) (fresh : SessionId) (t : DebugTarget) (m : SessionManager)
    → lookup fresh m.sessions ≡ none
    → Change m (get_or_create disk fresh t m).1
unfolding get_or_create
creates-Change disk fresh t m absent =
    option_branch (λ (r : Result Session × SessionManager). Change m r.1)
      (find_reusable t (values m.sessions)) _ _ (create_new-Change disk fresh t m absent)
      (λ _ _. touched fresh (keeps refl))

pub Step-Change : {m n : SessionManager} → Step m n → Change m n
Step-Change (clock_reads now) = touched 0 (keeps refl)
Step-Change (receivers_change rs) = touched 0 (keeps refl)
Step-Change {m} (creates disk fresh t h) = creates-Change disk fresh t m h
Step-Change {m} (close_requested w id) = touched id (request_close-Touch w id m)
Step-Change {m} (close_ends o c id) = touched id (close_thread-Touch o c id m)
Step-Change {m} (worker_registered w id) = touched id (register_worker-Touch w id m)
Step-Change {m} (startup_ends r c d id) = touched id (finish_worker_startup-Touch r c d id m)
Step-Change {m} (backend_reports id e) = touched id (apply_backend_execution_event-Touch id e m)
Step-Change {m} (eval_refused c r e) =
    touched r.session_id (keeps (sessions-audit_rejected_eval c r e m))
Step-Change {m} (operation_starts id state o h) = touched id (start_operation-Touch id state o m h)
Step-Change {m} (eval_ends w s r) = touched r.session_id (end_eval-Touch w s r m)
Step-Change {m} (worker_lost id e) = touched id (mark_worker_unavailable-Touch id e m)
