-- ===== src/Session/Lifecycle/Touch/Evals.antt =====
-- The end of an eval writes one session, along the state machine.
use dbgflow.Prelude.{
  String, ◌≡◌, refl, ◌⊎◌, inl, inr, Option, some, lookup, arith, if_branch, Option-cases,
}
use dbgflow.Common.Error.{DbgFlowError, Result, result_branch}
use dbgflow.Session.State.{
  SessionState, BackendExecutionState, session_state_for_backend_execution_state,
}
use dbgflow.Session.Artifact.{ArtifactRef}
use dbgflow.Session.Operation.{OperationStatus, Session}
use dbgflow.Session.Manager.{SessionManager, query_session}
use dbgflow.Session.Eval.Operation.{Ending, finish_operation}
use dbgflow.Session.Eval.Run.{
  EvalSession, Started, EvalSessionResult, eval_failed, eval_done, eval_written,
  ExecuteBackendFailure, ExecuteBackendResult, final_state, EvalWorld, end_eval, Execution, done,
  fault, failed_ending, written_ending, unwritten_ending, write_eval_output,
}
use dbgflow.Session.Lifecycle.Touch.Defs.{Touch, Touches, Touch-before}
use dbgflow.Session.Lifecycle.Touch.Operations.{finish_operation-Touch}

from_final :
    (st : Started) (request : EvalSession) (r : ExecuteBackendResult) (m : SessionManager)
    (s : Session)
    → lookup request.session_id m.sessions ≡ some s
    → (final_state st request r m ≡ s.state)
      ⊎ ((b : BackendExecutionState) × (final_state st request r m
            ≡ session_state_for_backend_execution_state b))
unfolding final_state query_session
from_final st request r m s found = elim (Option-cases r.final_state) [
  | inl e ↦ inl (rw (e, final_state) (rw (found, query_session)))
  | inr (b, e) ↦ inr (b, rw (e, final_state))
]

module _ (st : Started) (request : EvalSession) (m : SessionManager) where
  failed-Touch :
      (e : Ending)
      → e.state ≡ SessionState.error
      → e.status ≡ OperationStatus.failed
      → Touch request.session_id m (finish_operation request.session_id e m).1
  failed-Touch e p q = finish_operation-Touch request.session_id e m λ s found. inr (inr (p, q))

  eval_failed-Touch :
      (disk : Option String) (f : ExecuteBackendFailure)
      → Touches {A = DbgFlowError} request.session_id m (eval_failed disk st request f m)
  unfolding eval_failed
  eval_failed-Touch disk f =
      result_branch (Touches {A = DbgFlowError} request.session_id m)
        (finish_operation request.session_id e m).0 _ _ (λ _ _. touched)
        λ taken _.
          if_branch (Touch request.session_id m) taken _ _
            (λ _. Touch-before touched (ground arith)) (λ _. touched)
    where
      e : Ending
      e = failed_ending disk st request f m

      touched : Touch request.session_id m (finish_operation request.session_id e m).1
      touched = failed-Touch e refl refl

  eval_written-Touch :
      (r : ExecuteBackendResult) (a : ArtifactRef)
      → Touches {A = Result EvalSessionResult} request.session_id m (eval_written st request r a m)
  unfolding eval_written
  eval_written-Touch r a =
      result_branch (Touches {A = Result EvalSessionResult} request.session_id m)
        (finish_operation request.session_id e m).0 _ _ (λ _ _. touched)
        λ taken _.
          if_branch (Touch request.session_id m) taken _ _ (λ _. Touch-before touched refl)
            (λ _. touched)
    where
      e : Ending
      e = written_ending st request r a m

      touched : Touch request.session_id m (finish_operation request.session_id e m).1
      touched = finish_operation-Touch request.session_id e m λ s found.
          elim (from_final st request r m s found) [ inl same ↦ inl same | inr b ↦ inr (inl b) ]

  eval_done-Touch :
      (disk : Option String) (r : ExecuteBackendResult)
      → Touches {A = Result EvalSessionResult} request.session_id m (eval_done disk st request r m)
  unfolding eval_done
  eval_done-Touch disk r =
      result_branch (Touches {A = Result EvalSessionResult} request.session_id m)
        (write_eval_output disk request.session_id st.command_id m) _ _
        (λ e _. failed-Touch (unwritten_ending st r e) refl refl) (λ a _. eval_written-Touch r a)

pub end_eval-Touch :
    (w : EvalWorld) (s : Started) (request : EvalSession) (m : SessionManager)
    → Touches {A = Result EvalSessionResult} request.session_id m (end_eval w s request m)
unfolding end_eval
end_eval-Touch w s request m = go w.execution
  where
    go :
        (x : Execution)
        → Touches {A = Result EvalSessionResult} request.session_id m
            (end_eval (record w { execution = x }) s request m)
    go (done r) = eval_done-Touch s request m w.disk r
    go (fault f) = eval_failed-Touch s request m w.disk f
