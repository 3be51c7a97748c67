-- ===== src/Session/Eval/Run.antt =====
-- The calls of `eval` of crates/dbgflow-debug/src/session/manager.rs, and `audit_rejected_eval`.
use mathlib.Core.Option
use Prim.Native.String.{◌++◌, len}
use dbgflow.Prelude.{
  ℕ, String, Bool, true, false, not, Option, none, some, List, [], ◌∷◌, codes, is_blank,
  if◌then◌else◌,
}
use dbgflow.Common.Error.{
  SessionId, DbgFlowError, of_error, Result, ok, err, backend, artifact, session_closed, ◌>>=◌,
}
use dbgflow.Session.State.{
  SessionState, is_terminal, debug_state, BackendExecutionState, BackendExecutionEvent,
  session_state_for_backend_execution_state,
}
use dbgflow.Session.Artifact.{ArtifactRef, command_output, command_output_path}
use dbgflow.Session.Operation.{OperationStatus, OperationSummary, Session}
use dbgflow.Session.Audit.{session_event, artifact_path_of}
use dbgflow.Session.Manager.{
  SessionManager, TranscriptLine, append_event, append_transcript, append_command_record, emit,
  query_session, operation_lock, worker,
}
use dbgflow.Session.Eval.Operation.{
  Ending, apply_backend_execution_event, start_operation, finish_operation,
}

pub record EvalSession : Type 0 where
  pub session_id : SessionId
  pub command : String
  pub timeout_ms : Option ℕ

unfoldable pub audit_rejected_eval :
    ℕ → EvalSession → DbgFlowError → SessionManager → SessionManager
unfolding query_session session_event
audit_rejected_eval command_id request e m = elim (query_session request.session_id m) [
  | err _ ↦ m
  | ok session ↦
      emit
        (append_transcript request.session_id
          (TranscriptLine.eval_rejected m.clock command_id request.command (of_error e)))
        (emit
          (append_event request.session_id (
            session_event m.clock "eval_rejected" session (some session.state)
              (some request.command) (some command_id) none (some (of_error e)) []))
          (emit
            (append_command_record request.session_id (record {
              command_id = command_id;
              command = request.command;
              status = "Rejected";
              output_path = none;
              started_at_unix_ms = m.clock;
              duration_ms = some 0;
              output_bytes = none;
              warnings = [];
              error = some (of_error e);
              backend_session_id = session.backend_session_id;
            }))
            m))
]

abbrev accepts_eval : SessionState → Bool
accepts_eval SessionState.ready = true
accepts_eval SessionState.break = true
accepts_eval _ = false

abbrev pub new_operation : ℕ → ℕ → String → OperationSummary
new_operation now command_id command = record {
  command_id = command_id;
  command = command;
  status = OperationStatus.running;
  started_at_unix_ms = now;
  finished_at_unix_ms = none;
  duration_ms = none;
  artifact = none;
  error = none;
  output_bytes = none;
}

-- Why an eval is refused: the session as it was read, or nothing.
unfoldable pub eval_refusal : EvalSession → Session → SessionManager → Option DbgFlowError
unfolding is_terminal debug_state worker
eval_refusal request session m =
    if is_terminal session.state
    then some (session_closed request.session_id)
    else if not (accepts_eval session.state)
    then some (backend ("session is not ready: " ++ debug_state session.state))
    else elim (worker request.session_id m) [
      | none ↦ some (backend "session worker is not initialized")
      | some w ↦ none
    ]

-- What the other threads do to the manager while an eval begins, between its calls that take the
-- lock: until it has the operation lock and reads the session, until it asks for the worker, and until
-- it starts the operation.
pub record Between : Type 0 where
  pub after_lock : SessionManager → SessionManager
  pub after_query : SessionManager → SessionManager
  pub after_worker : SessionManager → SessionManager

-- No other thread comes between.
abbrev pub alone : Between
alone = record { after_lock = λ m. m; after_query = λ m. m; after_worker = λ m. m }

-- Up to the call of the worker: the session as it was read. `start_operation` gets the state that was
-- read, whatever has become of the session by then.
unfoldable pub begin_eval :
    Between → Bool → ℕ → EvalSession → SessionManager → Result Session × SessionManager
begin_eval between lock_poisoned command_id request m =
    if is_blank (codes request.command)
    then (let e = backend "empty command" in (err e, audit_rejected_eval command_id request e m))
    else elim (operation_lock request.session_id m) [
      | err e ↦ (err e, m)
      | ok _ ↦
          let locked = between.after_lock m in
          if lock_poisoned
          then (err (backend "session operation lock poisoned"), locked)
          else elim (query_session request.session_id locked) [
            | err e ↦ (err e, locked)
            | ok session ↦
                let read = between.after_query locked in
                elim (eval_refusal request session read) [
                  | some e ↦ (err e, audit_rejected_eval command_id request e read)
                  | none ↦
                      let ready = between.after_worker read in
                      let operation = new_operation ready.clock command_id request.command in
                      let (begun, m₁) =
                        start_operation request.session_id session.state operation ready in
                      elim begun [ err e ↦ (err e, m₁) | ok _ ↦ (ok session, m₁) ]
                ]
          ]
    ]

pub record ExecuteBackendResult : Type 0 where
  pub output : String
  pub warnings : List String
  pub final_state : Option BackendExecutionState

pub record ExecuteBackendFailure : Type 0 where
  pub error : DbgFlowError
  pub partial_output : Option String

pub data Execution : Type 0 where
  done : ExecuteBackendResult → Execution
  fault : ExecuteBackendFailure → Execution

-- What happens while the worker executes: the events that it reports, and the other threads.
pub data Happening : Type 0 where
  reported : BackendExecutionEvent → Happening
  others : (SessionManager → SessionManager) → Happening

unfoldable pub while_executing : SessionId → List Happening → SessionManager → SessionManager
while_executing session_id [] m = m
while_executing session_id (reported event ∷ hs) m =
    while_executing session_id hs (apply_backend_execution_event session_id event m).1
while_executing session_id (others f ∷ hs) m = while_executing session_id hs (f m)

-- `write_eval_output`: the disk's error, if it has one.
unfoldable pub write_eval_output :
    Option String → SessionId → ℕ → SessionManager → Result ArtifactRef
unfolding command_output_path
write_eval_output none session_id command_id m = ok (record {
  kind = command_output;
  path = command_output_path m.artifact_root session_id command_id;
})
write_eval_output (some e) session_id command_id m = err (artifact e)

-- What an eval carries from its beginning to its end.
pub record Started : Type 0 where
  pub session : Session
  pub command_id : ℕ
  pub started_at_unix_ms : ℕ
  pub duration_ms : ℕ

abbrev ok_or_none : Result ArtifactRef → Option ArtifactRef
ok_or_none (ok a) = some a
ok_or_none (err _) = none

abbrev transcribe_partial : ℕ → EvalSession → Option String → SessionManager → SessionManager
transcribe_partial command_id request none m = m
transcribe_partial command_id request (some output) m =
    emit
      (append_transcript request.session_id
        (TranscriptLine.command_partial_output command_id request.command output))
      m

-- The output that a worker wrote before it failed, if it could be kept.
abbrev pub partial_artifact :
    Option String
    → Started
    → EvalSession
    → ExecuteBackendFailure
    → SessionManager
    → Option ArtifactRef
partial_artifact disk s request failure m = elim failure.partial_output [
  | none ↦ none
  | some _ ↦ ok_or_none (write_eval_output disk request.session_id s.command_id m)
]

abbrev pub failed_ending :
    Option String → Started → EvalSession → ExecuteBackendFailure → SessionManager → Ending
failed_ending disk s request failure m = record {
  state = SessionState.error;
  status = OperationStatus.failed;
  artifact = partial_artifact disk s request failure m;
  error = some (of_error failure.error);
  output_bytes = Option.map len failure.partial_output;
  duration_ms = s.duration_ms;
}

abbrev pub record_failed :
    Option ArtifactRef
    → Started
    → EvalSession
    → ExecuteBackendFailure
    → SessionManager
    → SessionManager
record_failed kept s request failure m =
    transcribe_partial s.command_id request failure.partial_output (
      emit
        (append_command_record request.session_id (record {
          command_id = s.command_id;
          command = request.command;
          status = "Failed";
          output_path = artifact_path_of kept;
          started_at_unix_ms = s.started_at_unix_ms;
          duration_ms = some s.duration_ms;
          output_bytes = Option.map len failure.partial_output;
          warnings = [];
          error = some (of_error failure.error);
          backend_session_id = s.session.backend_session_id;
        }))
        m)

-- The end of an eval whose worker failed.
unfoldable pub eval_failed :
    Option String
    → Started
    → EvalSession
    → ExecuteBackendFailure
    → SessionManager
    → DbgFlowError × SessionManager
eval_failed disk s request failure m =
    let (ended, m₁) =
      finish_operation request.session_id (failed_ending disk s request failure m) m in
    elim ended [
      | err e ↦ (e, m₁)
      | ok taken ↦ (
        failure.error,
        if taken
            then record_failed (partial_artifact disk s request failure m) s request failure m₁
            else m₁,
      )
    ]

pub record EvalSessionResult : Type 0 where
  pub session : Session
  pub output : String
  pub artifact : ArtifactRef
  pub warnings : List String
  pub duration_ms : ℕ

-- The state that a finished command leaves: the backend's, else the session's at that moment.
unfoldable pub final_state :
    Started → EvalSession → ExecuteBackendResult → SessionManager → SessionState
unfolding session_state_for_backend_execution_state query_session
final_state s request result m = elim result.final_state [
  | some state ↦ session_state_for_backend_execution_state state
  | none ↦ elim (query_session request.session_id m) [
    | err _ ↦ s.session.state
    | ok session ↦ session.state
  ]
]

abbrev record_finished :
    Started → EvalSession → ExecuteBackendResult → ArtifactRef → SessionManager → SessionManager
record_finished s request result a m =
    emit
      (append_transcript request.session_id
        (TranscriptLine.command_output s.command_id request.command result.output))
      (emit
        (append_command_record request.session_id (record {
          command_id = s.command_id;
          command = request.command;
          status = "Finished";
          output_path = some a.path;
          started_at_unix_ms = s.started_at_unix_ms;
          duration_ms = some s.duration_ms;
          output_bytes = some (len result.output);
          warnings = result.warnings;
          error = none;
          backend_session_id = s.session.backend_session_id;
        }))
        m)

abbrev pub written_ending :
    Started → EvalSession → ExecuteBackendResult → ArtifactRef → SessionManager → Ending
written_ending s request result a m = record {
  state = final_state s request result m;
  status = OperationStatus.finished;
  artifact = some a;
  error = none;
  output_bytes = some (len result.output);
  duration_ms = s.duration_ms;
}

abbrev pub eval_result :
    Started → ExecuteBackendResult → ArtifactRef → Result Session → Result EvalSessionResult
eval_result s result a read = read >>= λ session. ok (record {
  session = session;
  output = result.output;
  artifact = a;
  warnings = result.warnings;
  duration_ms = s.duration_ms;
})

-- The end of an eval whose output is on the disk.
unfoldable pub eval_written :
    Started
    → EvalSession
    → ExecuteBackendResult
    → ArtifactRef
    → SessionManager
    → Result EvalSessionResult × SessionManager
eval_written s request result a m =
    let (ended, m₁) = finish_operation request.session_id (written_ending s request result a m) m in
    elim ended [
      | err e ↦ (err e, m₁)
      | ok taken ↦
          let m₂ = if taken then record_finished s request result a m₁ else m₁ in
          (eval_result s result a (query_session request.session_id m₂), m₂)
    ]

abbrev pub unwritten_ending : Started → ExecuteBackendResult → DbgFlowError → Ending
unwritten_ending s result e = record {
  state = SessionState.error;
  status = OperationStatus.failed;
  artifact = none;
  error = some (of_error e);
  output_bytes = some (len result.output);
  duration_ms = s.duration_ms;
}

-- The end of an eval whose worker went through.
unfoldable pub eval_done :
    Option String
    → Started
    → EvalSession
    → ExecuteBackendResult
    → SessionManager
    → Result EvalSessionResult × SessionManager
eval_done disk s request result m =
    elim (write_eval_output disk request.session_id s.command_id m) [
      | ok a ↦ eval_written s request result a m
      | err e ↦
          let (ended, m₁) = finish_operation request.session_id (unwritten_ending s result e) m in
          (ended >>= λ _. err e, m₁)
    ]

-- What the world answers to one eval.
pub record EvalWorld : Type 0 where
  pub lock_poisoned : Bool
  pub between : Between
  pub command_id : ℕ
  pub happenings : List Happening
  pub execution : Execution
  pub disk : Option String
  pub duration_ms : ℕ

unfoldable pub end_eval :
    EvalWorld → Started → EvalSession → SessionManager → Result EvalSessionResult × SessionManager
end_eval w s request m = elim w.execution [
  | done result ↦ eval_done w.disk s request result m
  | fault failure ↦ let (e, m₁) = eval_failed w.disk s request failure m in (err e, m₁)
]

-- The operation starts at the time that the clock shows once it has begun.
unfoldable pub eval :
    EvalWorld → EvalSession → SessionManager → Result EvalSessionResult × SessionManager
eval w request m =
    let (begun, m₁) = begin_eval w.between w.lock_poisoned w.command_id request m in
    elim begun [
      | err e ↦ (err e, m₁)
      | ok session ↦
          let s : Started = record {
            session = session;
            command_id = w.command_id;
            started_at_unix_ms = m₁.clock;
            duration_ms = w.duration_ms;
          } in
          end_eval w s request (while_executing request.session_id w.happenings m₁)
    ]
