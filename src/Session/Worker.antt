-- ===== src/Session/Worker.antt =====
-- The protocol between the server and a session worker, from
-- crates/dbgflow-debug/src/session/worker.rs: the frames, and the server's end. A line is the frame
-- that it parses as, or what is wrong with it; `show` gives the decimal text of a number.
pub mod Runtime
pub mod Exchange
use Prim.Native.String.{◌++◌}
use dbgflow.Prelude.{
  ℕ, String, Bool, true, false, not, Option, none, some, List, [], ◌∷◌, ◌==◌, if◌then◌else◌,
}
use dbgflow.Common.Error.{DbgFlowError, Result, ok, err, backend}
use dbgflow.Session.State.{BackendExecutionState, BackendExecutionEvent}
use dbgflow.Session.Target.{DebugTarget}
use dbgflow.Session.Startup.{WorkerSession}
use dbgflow.Session.Eval.Run.{ExecuteBackendResult, ExecuteBackendFailure}

-- `Result<_, ExecuteBackendFailure>`.
pub data Outcome {ℓ} (T : Type ℓ) : Type ℓ where
  went : (value : T) → Outcome T
  failed : (failure : ExecuteBackendFailure) → Outcome T

abbrev pub plain_failure : DbgFlowError → ExecuteBackendFailure
plain_failure e = record { error = e; partial_output = none }

pub data WorkerRequest : Type 0 where
  create_session : DebugTarget → WorkerRequest
  execute : (command : String) → WorkerRequest
  close_session : WorkerRequest

pub data WorkerResult : Type 0 where
  session_created : (backend backend_session_id : String) → (warnings : List String) → WorkerResult
  executed :
      (output : String)
      → (warnings : List String) → (final_state : Option BackendExecutionState) → WorkerResult
  closed : WorkerResult

pub data WorkerError : Type 0 where
  structured : (message : String) → (partial_output : Option String) → WorkerError
  legacy : (message : String) → WorkerError

pub data WorkerOutput : Type 0 where
  response : (request_id : ℕ) → Option WorkerResult → Option WorkerError → WorkerOutput
  log : (event : String) → WorkerOutput
  execution_state_changed : BackendExecutionEvent → WorkerOutput

pub data Line : Type 0 where
  frame : WorkerOutput → Line
  unreadable : (problem : String) → Line
  unparsable : (problem : String) → Line

unfoldable pub into_execute_failure : WorkerError → ExecuteBackendFailure
into_execute_failure (structured message partial) = record {
  error = backend message;
  partial_output = partial;
}
into_execute_failure (legacy message) = plain_failure (backend message)

-- The answer of a response that came under the request's id.
unfoldable pub accept_response : Option WorkerResult → Option WorkerError → Outcome WorkerResult
unfolding into_execute_failure
accept_response result (some error) = failed (into_execute_failure error)
accept_response (some result) none = went result
accept_response none none = failed (plain_failure (backend "worker response missing result"))

-- The loop that reads lines up to the response: the answer, the events that were handed to the
-- sink, if there is one, and the lines that are left.
unfoldable pub read_response :
    (ℕ → String)
    → (pid : ℕ) → (request_id : ℕ) → (event_sink : Bool) → List Line
    → Outcome WorkerResult × List BackendExecutionEvent × List Line
unfolding accept_response
read_response show pid request_id event_sink [] = (
  failed
      (plain_failure (backend ("session worker process exited before response: pid " ++ show pid))),
  [],
  [],
)
read_response show pid request_id event_sink (unreadable problem ∷ lines) =
    (failed (plain_failure (backend ("read worker response failed: " ++ problem))), [], lines)
read_response show pid request_id event_sink (unparsable problem ∷ lines) =
    (failed (plain_failure (backend ("parse worker response failed: " ++ problem))), [], lines)
read_response show pid request_id event_sink (frame (log event) ∷ lines) =
    read_response show pid request_id event_sink lines
read_response show pid request_id event_sink (frame (execution_state_changed event) ∷ lines) =
    let (answer, events, rest) = read_response show pid request_id event_sink lines in
    (answer, if event_sink then event ∷ events else events, rest)
read_response show pid request_id event_sink (frame (response response_id result error) ∷ lines) =
    if response_id == request_id then (accept_response result error, [], lines) else (
      failed (
          plain_failure (
            backend (
              "unexpected worker response id: expected "
              ++ show request_id
              ++ ", got "
              ++ show response_id))),
      [],
      lines,
    )

-- Only a command is given a sink for the events.
abbrev pub has_sink : WorkerRequest → Bool
has_sink (execute command) = true
has_sink _ = false

-- `create_session` and `execute_with_output_on_error`, on the answer.
unfoldable pub created_answer : Outcome WorkerResult → Result WorkerSession
created_answer (failed failure) = err failure.error
created_answer (went (session_created name id warnings)) =
    ok (record { backend = name; backend_session_id = id; warnings = warnings })
created_answer (went _) = err (backend "unexpected worker create response")

unfoldable pub executed_answer : Outcome WorkerResult → Outcome ExecuteBackendResult
executed_answer (failed failure) = failed failure
executed_answer (went (executed output warnings final_state)) =
    went (record { output = output; warnings = warnings; final_state = final_state })
executed_answer (went _) = failed (plain_failure (backend "unexpected worker execute response"))
