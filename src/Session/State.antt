-- ===== src/Session/State.antt =====
-- crates/dbgflow-debug/src/session/state.rs, and BackendExecutionState of backend/mod.rs.
use dbgflow.Prelude.{String, Bool, true, false, Option}

pub data SessionState : Type 0 where
  created starting ready break running closing closed error : SessionState

unfoldable pub is_terminal : SessionState → Bool
is_terminal SessionState.closed = true
is_terminal SessionState.error = true
is_terminal _ = false

unfoldable pub is_reusable : SessionState → Bool
is_reusable SessionState.created = true
is_reusable SessionState.starting = true
is_reusable SessionState.ready = true
is_reusable SessionState.break = true
is_reusable SessionState.running = true
is_reusable _ = false

-- The tests `state == SessionState::Closing` and `state == SessionState::Closed`.
abbrev pub is_closing : SessionState → Bool
is_closing SessionState.closing = true
is_closing _ = false

abbrev pub is_closed : SessionState → Bool
is_closed SessionState.closed = true
is_closed _ = false

-- `{state:?}`.
unfoldable pub debug_state : SessionState → String
debug_state SessionState.created = "Created"
debug_state SessionState.starting = "Starting"
debug_state SessionState.ready = "Ready"
debug_state SessionState.break = "Break"
debug_state SessionState.running = "Running"
debug_state SessionState.closing = "Closing"
debug_state SessionState.closed = "Closed"
debug_state SessionState.error = "Error"

pub data BackendExecutionState : Type 0 where
  break running closed : BackendExecutionState

unfoldable pub debug_backend_state : BackendExecutionState → String
debug_backend_state BackendExecutionState.break = "Break"
debug_backend_state BackendExecutionState.running = "Running"
debug_backend_state BackendExecutionState.closed = "Closed"

pub record BackendExecutionEvent : Type 0 where
  pub state : BackendExecutionState
  pub reason : Option String

unfoldable pub session_state_for_backend_execution_state : BackendExecutionState → SessionState
session_state_for_backend_execution_state BackendExecutionState.break = SessionState.break
session_state_for_backend_execution_state BackendExecutionState.running = SessionState.running
session_state_for_backend_execution_state BackendExecutionState.closed = SessionState.closed
