-- ===== src/Session/Lifecycle/Frame.antt =====
-- The parts of the sections of session/manager.rs that leave the sessions alone.
use dbgflow.Prelude.{ℕ, String, ◌≡◌, Option, arith}
use dbgflow.Common.Error.{SessionId, DbgFlowError, Message, Result}
use dbgflow.Session.State.{SessionState}
use dbgflow.Session.Operation.{
  OperationStatus, OperationSummary, Session, finalize_canceled_operation,
}
use dbgflow.Session.Manager.{SessionManager, kill_once}
use dbgflow.Session.Close.{audit_close, audit_ended}
use dbgflow.Session.Startup.{discard_worker, spawn_worker_monitor}
use dbgflow.Session.Eval.Operation.{Ending, audit_ending}
use dbgflow.Session.Eval.Run.{EvalSession, audit_rejected_eval}
use dbgflow.Session.Monitor.{record_lost_operation}

pub sessions-audit_ending :
    (i : SessionId) (e : Ending) (p : SessionState) (s : Session) (m : SessionManager)
    → (audit_ending i e p s m).sessions ≡ m.sessions
unfolding audit_ending
sessions-audit_ending i e p s m = ground arith

pub sessions-kill_once :
    (id : SessionId) (reason : String) (m : SessionManager)
    → (kill_once id reason m).sessions ≡ m.sessions
unfolding kill_once
sessions-kill_once id reason m = ground arith

pub sessions-audit_close :
    (i : SessionId) (r : Result (Unit {0})) (p : SessionState) (s : Session) (m : SessionManager)
    → (audit_close i r p s m).sessions ≡ m.sessions
unfolding audit_close
sessions-audit_close i r p s m = ground arith

pub sessions-audit_ended :
    (i : SessionId) (s : Session) (o : Option OperationSummary) (m : SessionManager)
    → (audit_ended i s o m).sessions ≡ m.sessions
unfolding audit_ended
sessions-audit_ended i s o m = ground arith

pub sessions-discard_worker :
    (id : SessionId) (m : SessionManager) → (discard_worker id m).sessions ≡ m.sessions
unfolding discard_worker
sessions-discard_worker id m = ground arith

pub sessions-spawn_worker_monitor :
    (id : SessionId) (m : SessionManager) → (spawn_worker_monitor id m).sessions ≡ m.sessions
unfolding spawn_worker_monitor
sessions-spawn_worker_monitor id m = ground arith

pub sessions-record_lost_operation :
    (i : SessionId) (p : SessionState) (s : Session) (o : Option OperationSummary)
    (m : SessionManager)
    → (record_lost_operation i p s o m).sessions ≡ m.sessions
unfolding record_lost_operation
sessions-record_lost_operation i p s o m = ground arith

pub sessions-audit_rejected_eval :
    (c : ℕ) (r : EvalSession) (e : DbgFlowError) (m : SessionManager)
    → (audit_rejected_eval c r e m).sessions ≡ m.sessions
unfolding audit_rejected_eval
sessions-audit_rejected_eval c r e m = ground arith

-- Ending the last operation changes nothing else.
module _ (now : ℕ) (status : OperationStatus) (e : Message) (s : Session) where
  pub id-finalize : (finalize_canceled_operation now status e s).0.id ≡ s.id
  unfolding finalize_canceled_operation
  id-finalize = ground arith

  pub target-finalize : (finalize_canceled_operation now status e s).0.target ≡ s.target
  unfolding finalize_canceled_operation
  target-finalize = ground arith

  pub created-finalize :
      (finalize_canceled_operation now status e s).0.created_at_unix_ms ≡ s.created_at_unix_ms
  unfolding finalize_canceled_operation
  created-finalize = ground arith
