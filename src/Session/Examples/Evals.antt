-- ===== src/Session/Examples/Evals.antt =====
-- Runs of the theorems on `eval` of session/manager.rs.
use dbgflow.Prelude.{insert, ◌≡◌, true, refl, false, none, some, is_blank, mem, lookup, [], ◌∷◌}
use dbgflow.Common.Error.{ok}
use dbgflow.Session.Close.{request_close}
use dbgflow.Session.State.{
  SessionState, BackendExecutionState, session_state_for_backend_execution_state,
}
use dbgflow.Session.Manager.{operation_lock, query_session, worker}
use dbgflow.Session.Eval.Run.{
  EvalSession, ExecuteBackendResult, Between, eval_refusal, begin_eval, eval,
}
use dbgflow.Session.Eval.Operation.{start_operation}
use dbgflow.Session.Eval.Outcome.{ran, IsEvaluated, eval-IsEvaluated}
use dbgflow.Session.Examples.{holding, broken_1, held, running_event, break_event}

abbrev request : EvalSession
request = record { session_id = 1; command = "g"; timeout_ms = none }

abbrev answer : ExecuteBackendResult
answer = record { output = "ok"; warnings = []; final_state = some BackendExecutionState.break }

eval-IsEvaluated_example :
    IsEvaluated
      (ran 8 (running_event ∷ break_event ∷ []) answer 5)
      request
      answer
      SessionState.break
      (holding broken_1)
      (eval (ran 8 (running_event ∷ break_event ∷ []) answer 5) request (holding broken_1)).1
      (eval (ran 8 (running_event ∷ break_event ∷ []) answer 5) request (holding broken_1)).0
unfolding is_blank mem worker lookup session_state_for_backend_execution_state
eval-IsEvaluated_example =
    eval-IsEvaluated 8 (running_event ∷ break_event ∷ []) answer 5 request (holding broken_1)
      broken_1 50 refl refl (held broken_1) refl refl refl

-- Another thread asks for the close of the session once the eval has read it.
abbrev closed_between : Between
closed_between = record {
  after_lock = λ m. m;
  after_query = λ m. (request_close true 1 m).1;
  after_worker = λ m. m;
}

-- The eval goes on.
goes_on : (begin_eval closed_between false 8 request (holding broken_1)).0 ≡ ok broken_1
unfolding begin_eval request_close is_blank mem lookup worker operation_lock query_session
    eval_refusal start_operation insert
goes_on = refl
