-- ===== src/Session/Operation.antt =====
-- crates/dbgflow-debug/src/session/operation.rs, and the session record of session/manager.rs.
use mathlib.Core.Option
use dbgflow.Prelude.{ℕ, String, ◌-◌, Option, none, some, List, []}
use dbgflow.Common.Error.{SessionId, Message}
use dbgflow.Session.State.{SessionState}
use dbgflow.Session.Target.{DebugTarget}
use dbgflow.Session.Artifact.{ArtifactRef, CommandArtifactRecord}

pub data OperationStatus : Type 0 where
  running cancel_requested canceled finished failed : OperationStatus

pub record OperationSummary : Type 0 where
  pub command_id : ℕ
  pub command : String
  pub status : OperationStatus
  pub started_at_unix_ms : ℕ
  pub finished_at_unix_ms : Option ℕ
  pub duration_ms : Option ℕ
  pub artifact : Option ArtifactRef
  pub error : Option Message
  pub output_bytes : Option ℕ

pub record Session : Type 0 where
  pub id : SessionId
  pub backend : String
  pub backend_session_id : Option String
  pub target : DebugTarget
  pub state : SessionState
  pub created_at_unix_ms : ℕ
  pub updated_at_unix_ms : ℕ
  pub warnings : List String
  pub current_operation : Option String
  pub last_operation : Option OperationSummary
  pub error : Option Message

unfoldable pub operation_status_label : OperationStatus → String
operation_status_label OperationStatus.running = "Running"
operation_status_label OperationStatus.cancel_requested = "CancelRequested"
operation_status_label OperationStatus.canceled = "Canceled"
operation_status_label OperationStatus.finished = "Finished"
operation_status_label OperationStatus.failed = "Failed"

-- `now.saturating_sub(started)` is the truncated difference.
unfoldable pub close_operation : ℕ → OperationStatus → Message → OperationSummary → OperationSummary
close_operation now status e operation = record operation {
  status = status;
  finished_at_unix_ms = some now;
  duration_ms = some (now - operation.started_at_unix_ms);
  error = some e;
}

-- An operation that still runs, or whose cancellation was asked for, is closed; any other stays.
unfoldable pub finalize_operation :
    ℕ → OperationStatus → Message → OperationSummary → OperationStatus → Option OperationSummary
unfolding close_operation
finalize_operation now status e operation OperationStatus.running =
    some (close_operation now status e operation)
finalize_operation now status e operation OperationStatus.cancel_requested =
    some (close_operation now status e operation)
finalize_operation now status e operation _ = none

-- The session after the call, and the operation that was closed.
unfoldable pub finalize_canceled_operation :
    ℕ → OperationStatus → Message → Session → Session × Option OperationSummary
unfolding finalize_operation
finalize_canceled_operation now status e session = elim session.last_operation [
  | none ↦ (session, none)
  | some operation ↦ elim (finalize_operation now status e operation operation.status) [
    | none ↦ (session, none)
    | some closed ↦ (record session { last_operation = some closed }, some closed)
  ]
]

unfoldable pub command_record_from_operation :
    OperationSummary → Option String → CommandArtifactRecord
unfolding operation_status_label
command_record_from_operation operation backend_session_id = record {
  command_id = operation.command_id;
  command = operation.command;
  status = operation_status_label operation.status;
  output_path = Option.map (λ (a : ArtifactRef). a.path) operation.artifact;
  started_at_unix_ms = operation.started_at_unix_ms;
  duration_ms = operation.duration_ms;
  output_bytes = operation.output_bytes;
  warnings = [];
  error = operation.error;
  backend_session_id = backend_session_id;
}
