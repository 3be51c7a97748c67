-- ===== src/Session/Eval/Outcome.antt =====
-- What an eval of session/manager.rs leaves when its command runs through.
use dbgflow.Prelude.{
  ℕ, String, ◌≡◌, refl, ap, ◌∙◌, Bool, true, false, Option, none, some, List, [], ◌∷◌, lookup,
  lookup-insert, mem, arith, is_blank, codes,
}
use Prim.Native.String.{len}
use dbgflow.Common.Error.{SessionId, Result, ok}
use dbgflow.Session.State.{
  SessionState, BackendExecutionState, BackendExecutionEvent, is_terminal,
  session_state_for_backend_execution_state,
}
use dbgflow.Session.Artifact.{ArtifactRef, command_output, command_output_path}
use dbgflow.Session.Operation.{OperationStatus, OperationSummary, Session}
use dbgflow.Session.Registry.{WorkerId}
use dbgflow.Session.Manager.{SessionManager, query_session, operation_lock, worker}
use dbgflow.Session.Eval.Operation.{
  Ending, apply_backend_execution_event, reported_session, start_operation, operating_session,
  finish_operation, ended_session, ignores_ending,
}
use dbgflow.Session.Eval.Run.{
  EvalSession, ExecuteBackendResult, Happening, reported, while_executing, Started, begin_eval,
  eval_refusal, new_operation, write_eval_output, final_state, eval_written, eval_done,
  written_ending, EvalSessionResult, EvalWorld, alone, done, end_eval, eval,
}

-- A state in which an operation may go on.
abbrev pub is_live : SessionState → Bool
is_live SessionState.break = true
is_live SessionState.running = true
is_live _ = false

-- The worker reports these events, in this order, and nothing else happens.
abbrev pub reports : List BackendExecutionEvent → List Happening
reports [] = []
reports (event ∷ events) = reported event ∷ reports events

abbrev pub stays_open : List BackendExecutionEvent → Bool
stays_open [] = true
stays_open (event ∷ events) = elim event.state [
  | BackendExecutionState.closed ↦ false
  | _ ↦ stays_open events
]

-- The state after the reports.
abbrev pub state_after : SessionState → List BackendExecutionEvent → SessionState
state_after state [] = state
state_after state (event ∷ events) =
    state_after (session_state_for_backend_execution_state event.state) events

-- The state once the command has finished.
abbrev pub finished_state :
    SessionState → List BackendExecutionEvent → Option BackendExecutionState → SessionState
finished_state state events (some last) = session_state_for_backend_execution_state last
finished_state state events none = state_after state events

-- What the reports leave of a session, and of the manager around it.
record IsReported (id : SessionId) (m n : SessionManager) (s : Session) (state : SessionState)
    : Type 0 where
  now : Session
  entry : lookup id n.sessions ≡ some now
  state_is : now.state ≡ state
  operation : now.last_operation ≡ s.last_operation
  clock : n.clock ≡ m.clock
  root : n.artifact_root ≡ m.artifact_root

report_once :
    (id : SessionId) (event : BackendExecutionEvent) (m : SessionManager) (s : Session)
    → lookup id m.sessions ≡ some s
    → is_live s.state ≡ true
    → IsReported id m
        (apply_backend_execution_event id event m).1
        s
        (session_state_for_backend_execution_state event.state)
unfolding apply_backend_execution_event reported_session
report_once id event m s found live =
    let t : Session =
      reported_session m.clock (session_state_for_backend_execution_state event.state) s in
    record {
      now = t;
      entry = ground (arith, lookup-insert id id t m.sessions);
      state_is = refl;
      operation = refl;
      clock = ground arith;
      root = ground arith;
    }

live_after :
    (event : BackendExecutionEvent) (events : List BackendExecutionEvent)
    → stays_open (event ∷ events) ≡ true
    → (is_live (session_state_for_backend_execution_state event.state) ≡ true)
      × (stays_open events ≡ true)
unfolding session_state_for_backend_execution_state
live_after event events h = ground arith

report_all :
    (id : SessionId) (events : List BackendExecutionEvent) (m : SessionManager) (s : Session)
    → lookup id m.sessions ≡ some s
    → is_live s.state ≡ true
    → stays_open events ≡ true
    → IsReported id m (while_executing id (reports events) m) s (state_after s.state events)
unfolding while_executing
report_all id [] m s found live open_events = record {
  now = s;
  entry = found;
  state_is = refl;
  operation = refl;
  clock = refl;
  root = refl;
}
report_all id (event ∷ events) m s found live open_events =
    let (goes_on, rest) = live_after event events open_events in
    let once = report_once id event m s found live in
    let all =
      report_all id events (apply_backend_execution_event id event m).1 once.now once.entry
        (rw once.state_is goes_on) rest in
    record {
      now = all.now;
      entry = all.entry;
      state_is = all.state_is ∙ ap (λ x. state_after x events) once.state_is;
      operation = all.operation ∙ once.operation;
      clock = all.clock ∙ once.clock;
      root = all.root ∙ once.root;
    }

-- The start of an eval whose guards let it pass.
begin_eval-passes :
    (c : ℕ) (request : EvalSession) (m : SessionManager) (s : Session) (w : WorkerId)
    → is_blank (codes request.command) ≡ false
    → mem request.session_id m.operation_locks ≡ true
    → lookup request.session_id m.sessions ≡ some s
    → s.state ≡ SessionState.break
    → worker request.session_id m ≡ some w
    → (begin_eval alone false c request m).0 ≡ ok s
unfolding begin_eval operation_lock query_session eval_refusal start_operation
begin_eval-passes c request m s w named locked found ready has_worker = ground arith

begin_eval-enters :
    (c : ℕ) (request : EvalSession) (m : SessionManager) (s : Session) (w : WorkerId)
    → is_blank (codes request.command) ≡ false
    → mem request.session_id m.operation_locks ≡ true
    → lookup request.session_id m.sessions ≡ some s
    → s.state ≡ SessionState.break
    → worker request.session_id m ≡ some w
    → IsReported request.session_id m
        (begin_eval alone false c request m).1
        (operating_session m.clock s.state (new_operation m.clock c request.command) s)
        SessionState.break
unfolding begin_eval operation_lock query_session eval_refusal start_operation operating_session
begin_eval-enters c request m s w named locked found ready has_worker =
    let t : Session =
      operating_session m.clock s.state (new_operation m.clock c request.command) s in
    record {
      now = t;
      entry = ground (arith, lookup-insert request.session_id request.session_id t m.sessions);
      state_is = ready;
      operation = refl;
      clock = ground arith;
      root = ground arith;
    }

abbrev pub finished_operation : ℕ → ℕ → String → ArtifactRef → ℕ → ℕ → OperationSummary
finished_operation now c command a size duration_ms = record {
  command_id = c;
  command = command;
  status = OperationStatus.finished;
  started_at_unix_ms = now;
  finished_at_unix_ms = some now;
  duration_ms = some duration_ms;
  artifact = some a;
  error = none;
  output_bytes = some size;
}

abbrev pub output_of : SessionManager → SessionId → ℕ → ArtifactRef
output_of m id c = record { kind = command_output; path = command_output_path m.artifact_root id c }

-- An eval that has gone through, from the manager `m` to `n`.
pub record IsEvaluated (w : EvalWorld) (request : EvalSession) (r : ExecuteBackendResult)
    (state : SessionState) (m n : SessionManager) (answer : Result EvalSessionResult) : Type 0 where
  pub session : Session
  pub answered :
      answer
      ≡ ok (record {
        session = session;
        output = r.output;
        artifact = output_of m request.session_id w.command_id;
        warnings = r.warnings;
        duration_ms = w.duration_ms;
      })
  pub entry : lookup request.session_id n.sessions ≡ some session
  pub state_is : session.state ≡ state
  pub idle : session.current_operation ≡ none
  pub fine : session.error ≡ none
  pub operation :
      session.last_operation
      ≡ some (
          finished_operation m.clock w.command_id request.command
            (output_of m request.session_id w.command_id)
            (len r.output)
            w.duration_ms)

finish_live :
    (id : SessionId) (e : Ending) (m : SessionManager) (s : Session)
    → lookup id m.sessions ≡ some s
    → is_live s.state ≡ true
    → ((finish_operation id e m).0 ≡ ok true)
      × (lookup id (finish_operation id e m).1.sessions ≡ some (ended_session m.clock e s))
unfolding finish_operation ignores_ending is_terminal
finish_live id e m s found live =
    (ground arith, ground (arith, lookup-insert id id (ended_session m.clock e s) m.sessions))

is_live-state_after :
    (events : List BackendExecutionEvent) (state : SessionState)
    → is_live state ≡ true
    → stays_open events ≡ true
    → is_live (state_after state events) ≡ true
is_live-state_after [] state live open_events = live
is_live-state_after (event ∷ events) state live open_events =
    let (goes_on, rest) = live_after event events open_events in
    is_live-state_after events (session_state_for_backend_execution_state event.state) goes_on rest

-- The end of an eval whose output is written, in a manager where the session is live.
written :
    (st : Started) (request : EvalSession) (r : ExecuteBackendResult) (a : ArtifactRef)
    (m : SessionManager) (s : Session)
    → lookup request.session_id m.sessions ≡ some s
    → is_live s.state ≡ true
    → let t : Session = ended_session m.clock (written_ending st request r a m) s in
      ((eval_written st request r a m).0
        ≡ ok (record {
          session = t;
          output = r.output;
          artifact = a;
          warnings = r.warnings;
          duration_ms = st.duration_ms;
        }))
      × (lookup request.session_id (eval_written st request r a m).1.sessions ≡ some t)
unfolding eval_written query_session
written st request r a m s found live =
    let (taken, entry) =
      finish_live request.session_id (written_ending st request r a m) m s found live in
    (ground (arith, taken, entry), ground (arith, taken, entry))

final_state-finished :
    (st : Started) (request : EvalSession) (r : ExecuteBackendResult) (m : SessionManager)
    (t : Session) (state : SessionState) (events : List BackendExecutionEvent)
    → lookup request.session_id m.sessions ≡ some t
    → t.state ≡ state_after state events
    → final_state st request r m ≡ finished_state state events r.final_state
unfolding final_state query_session
final_state-finished st request r m t state events found same = ground arith

-- A world in which the command runs through: the lock is taken, the worker reports `events` and
-- answers `r`, and the output is written.
abbrev pub ran : ℕ → List BackendExecutionEvent → ExecuteBackendResult → ℕ → EvalWorld
ran c events r duration_ms = record {
  lock_poisoned = false;
  between = alone;
  command_id = c;
  happenings = reports events;
  execution = done r;
  disk = none;
  duration_ms = duration_ms;
}

abbrev begun : EvalWorld → SessionManager → Session → Started
begun w m s = record {
  session = s;
  command_id = w.command_id;
  started_at_unix_ms = m.clock;
  duration_ms = w.duration_ms;
}

-- The end of an eval, after the reports, on the manager `k` that its beginning left.
ends :
    (w : EvalWorld) (request : EvalSession) (r : ExecuteBackendResult)
    (events : List BackendExecutionEvent) (m k : SessionManager) (s t : Session)
    → IsReported request.session_id m k t (state_after SessionState.break events)
    → stays_open events ≡ true
    → t.last_operation ≡ some (new_operation m.clock w.command_id request.command)
    → IsEvaluated w request r
        (finished_state SessionState.break events r.final_state)
        m
        (eval_done none (begun w m s) request r k).1
        (eval_done none (begun w m s) request r k).0
unfolding eval_done write_eval_output ended_session
ends w request r events m k s t h open_events running =
    let st : Started = begun w m s in
    let live : is_live h.now.state ≡ true =
      rw h.state_is (is_live-state_after events SessionState.break refl open_events) in
    let a : ArtifactRef = output_of k request.session_id st.command_id in
    let (answered, entry) = written st request r a k h.now h.entry live in
    record {
      session = ended_session k.clock (written_ending st request r a k) h.now;
      answered = ground (arith, answered, h.root);
      entry = entry;
      state_is =
          final_state-finished st request r k h.now SessionState.break events h.entry h.state_is;
      idle = refl;
      fine = refl;
      operation = ground (arith, h.operation, running, h.root, h.clock);
    }

-- A command that is not blank runs through in a session that is in state `Break` and has its
-- operation lock and a worker: if the worker's reports are not of a closed target, no other thread
-- changes the manager meanwhile and the output can be written, then the eval answers the output,
-- the artifact, the warnings and the session as it stands in the table, which is in the state that
-- the worker reports last, has no current operation and no error, and whose last operation is this
-- command, finished.
pub eval-IsEvaluated :
    (c : ℕ) (events : List BackendExecutionEvent) (r : ExecuteBackendResult) (duration_ms : ℕ)
    (request : EvalSession) (m : SessionManager) (s : Session) (w : WorkerId)
    → is_blank (codes request.command) ≡ false
    → mem request.session_id m.operation_locks ≡ true
    → lookup request.session_id m.sessions ≡ some s
    → s.state ≡ SessionState.break
    → worker request.session_id m ≡ some w
    → stays_open events ≡ true
    → IsEvaluated
        (ran c events r duration_ms)
        request
        r
        (finished_state SessionState.break events r.final_state)
        m
        (eval (ran c events r duration_ms) request m).1
        (eval (ran c events r duration_ms) request m).0
unfolding eval end_eval operating_session
eval-IsEvaluated c events r duration_ms request m s w named locked found ready has_worker
      open_events =
    let passes = begin_eval-passes c request m s w named locked found ready has_worker in
    let enters = begin_eval-enters c request m s w named locked found ready has_worker in
    let m₁ = (begin_eval alone false c request m).1 in
    let all =
      report_all request.session_id events m₁ enters.now enters.entry (rw enters.state_is refl)
        open_events in
    rw (passes, enters.clock, eval)
      (ends (ran c events r duration_ms) request r events m
        (while_executing request.session_id (reports events) m₁) s
        (operating_session m.clock s.state (new_operation m.clock c request.command) s)
        (record {
          now = all.now;
          entry = all.entry;
          state_is = all.state_is ∙ ap (λ x. state_after x events) enters.state_is;
          operation = all.operation ∙ enters.operation;
          clock = all.clock ∙ enters.clock;
          root = all.root ∙ enters.root;
        })
        open_events refl)
