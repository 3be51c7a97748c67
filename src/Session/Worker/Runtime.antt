-- ===== src/Session/Worker/Runtime.antt =====
-- The worker's end: `WorkerRuntime::handle` and `run_session_worker_stdio` of
-- crates/dbgflow-debug/src/session/worker.rs. The backend is a parameter.
use Prim.Native.String.{◌++◌ as append}
use dbgflow.Prelude.{
  ℕ, String, Bool, true, false, Option, none, some, List, [], ◌∷◌, ◌++◌, if◌then◌else◌,
}
use dbgflow.Common.Error.{DbgFlowError, Result, ok, err, backend}
use dbgflow.Session.State.{BackendExecutionEvent}
use dbgflow.Session.Target.{DebugTarget}
use dbgflow.Session.Eval.Run.{ExecuteBackendResult}
use dbgflow.Session.Worker.{
  Outcome, went, failed, plain_failure, WorkerRequest, create_session, execute, close_session,
  WorkerResult, session_created, executed, closed, structured, WorkerOutput, response, log,
  execution_state_changed,
}

pub record BackendSession : Type 0 where
  pub id : String
  pub warnings : List String

-- What the backend does on the way to its answer.
pub data Emission : Type 0 where
  logs : (event : String) → Emission
  changes : BackendExecutionEvent → Emission

-- `DebugBackend`. Only a command is given a sink for events, the rest may log.
pub record DebugBackend : Type 0 where
  pub name : String
  pub create : DebugTarget → List String × Result BackendSession
  pub run : (backend_session_id command : String) → List Emission × Outcome ExecuteBackendResult
  pub close : (backend_session_id : String) → List String × Result (Unit {0})

abbrev pub emitted : List Emission → List WorkerOutput
emitted [] = []
emitted (logs event ∷ es) = log event ∷ emitted es
emitted (changes event ∷ es) = execution_state_changed event ∷ emitted es

abbrev pub logged : List String → List WorkerOutput
logged [] = []
logged (event ∷ events) = log event ∷ logged events

-- What handling a request leaves: the frames before the response, the answer, whether the worker
-- exits, and its backend session.
pub record Handled : Type 0 where
  pub frames : List WorkerOutput
  pub answer : Outcome WorkerResult
  pub should_exit : Bool
  pub backend_session_id : Option String

abbrev refuse : String → Option String → Handled
refuse reason held = record {
  frames = [];
  answer = failed (plain_failure (backend reason));
  should_exit = true;
  backend_session_id = held;
}

abbrev created : String → Result BackendSession → Outcome WorkerResult
created name (ok session) = went (session_created name session.id session.warnings)
created name (err error) = failed (plain_failure error)

abbrev created_id : Result BackendSession → Option String
created_id (ok session) = some session.id
created_id (err error) = none

abbrev is_err {ℓ} : {T : Type ℓ} → Result T → Bool
is_err (ok value) = false
is_err (err error) = true

abbrev ran_answer : Outcome ExecuteBackendResult → Outcome WorkerResult
ran_answer (went result) = went (executed result.output result.warnings result.final_state)
ran_answer (failed failure) = failed failure

abbrev closed_answer : Result (Unit {0}) → Outcome WorkerResult
closed_answer (ok _) = went closed
closed_answer (err error) = failed (plain_failure error)

unfoldable pub handle : DebugBackend → WorkerRequest → Option String → Handled
handle b (create_session target) (some held) =
    refuse "worker backend session already exists" (some held)
handle b (create_session target) none =
    let (lines, made) = b.create target in
    record {
      frames = logged lines;
      answer = created b.name made;
      should_exit = is_err made;
      backend_session_id = created_id made;
    }
handle b (execute command) none = refuse "worker backend session is not initialized" none
handle b (execute command) (some held) =
    let (lines, result) = b.run held command in
    record {
      frames = emitted lines;
      answer = ran_answer result;
      should_exit = false;
      backend_session_id = some held;
    }
handle b close_session none = record {
  frames = [];
  answer = went closed;
  should_exit = true;
  backend_session_id = none;
}
handle b close_session (some held) =
    let (lines, result) = b.close held in
    record {
      frames = logged lines;
      answer = closed_answer result;
      should_exit = true;
      backend_session_id = none;
    }

-- `write_response`; `display` is `to_string` of an error.
unfoldable pub response_frame : (DbgFlowError → String) → ℕ → Outcome WorkerResult → WorkerOutput
response_frame display request_id (went result) = response request_id (some result) none
response_frame display request_id (failed failure) =
    response request_id none (some (structured (display failure.error) failure.partial_output))

-- A line of the worker's input.
pub data Input : Type 0 where
  blank : Input
  invalid : (problem : String) → Input
  request : (request_id : ℕ) → WorkerRequest → Input

-- The frames that the worker writes. An input that cannot be read ends the list.
unfoldable pub run_session_worker_stdio :
    DebugBackend → (DbgFlowError → String) → Option String → List Input → List WorkerOutput
run_session_worker_stdio b display held [] = []
run_session_worker_stdio b display held (blank ∷ inputs) =
    run_session_worker_stdio b display held inputs
run_session_worker_stdio b display held (invalid problem ∷ inputs) =
    response_frame display 0
      (failed (plain_failure (backend (append "invalid session worker request: " problem))))
    ∷ run_session_worker_stdio b display held inputs
run_session_worker_stdio b display held (request request_id r ∷ inputs) =
    let h = handle b r held in
    let rest = run_session_worker_stdio b display h.backend_session_id inputs in
    h.frames ++ response_frame display request_id h.answer ∷ (if h.should_exit then [] else rest)
