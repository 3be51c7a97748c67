-- ===== src/Session/Audit.antt =====
-- crates/dbgflow-debug/src/session/audit.rs. The clock is an argument.
use mathlib.Core.Option
use dbgflow.Prelude.{ℕ, String, ◌%◌, ◌^◌, Option, none, some, List, [], ◌∷◌, ◌++◌}
use dbgflow.Common.Error.{Message}
use dbgflow.Session.State.{SessionState, debug_state}
use dbgflow.Session.Artifact.{FilePath, ArtifactRef, Value, string, number, SessionArtifactEvent}
use dbgflow.Session.Operation.{OperationSummary, Session, operation_status_label}

unfoldable pub session_event :
    ℕ
    → String
    → Session
    → Option SessionState
    → Option String
    → Option ℕ
    → Option FilePath
    → Option Message
    → List (String × Value)
    → SessionArtifactEvent
unfolding debug_state
session_event now event session previous_state operation command_id artifact_path e fields =
    record {
      timestamp_unix_ms = now;
      event = event;
      session_id = session.id;
      previous_state = Option.map debug_state previous_state;
      new_state = some (debug_state session.state);
      backend = some session.backend;
      backend_session_id = session.backend_session_id;
      operation = operation;
      command_id = command_id;
      artifact_path = artifact_path;
      error = e;
      fields = fields;
    }

-- A field for a value that is there; `as u64` keeps the low 64 bits.
abbrev pub number_field : String → Option ℕ → List (String × Value)
number_field key none = []
number_field key (some n) = (key, number (n % 2 ^ 64)) ∷ []

abbrev pub artifact_path_of : Option ArtifactRef → Option FilePath
artifact_path_of artifact = Option.map (λ (a : ArtifactRef). a.path) artifact

unfoldable pub operation_artifact_event :
    ℕ → Session → Option SessionState → OperationSummary → String → SessionArtifactEvent
unfolding session_event operation_status_label
operation_artifact_event now session previous_state operation event =
    session_event now event session previous_state (some operation.command)
      (some operation.command_id) (artifact_path_of operation.artifact) operation.error
      (("status", string (operation_status_label operation.status))
        ∷ (number_field "duration_ms" operation.duration_ms
            ++ number_field "output_bytes" operation.output_bytes))
