-- ===== src/Session/Artifact.antt =====
-- The records of crates/dbgflow-common/src/artifacts/manager.rs that a session writes, and where
-- they go. What reaches the disk is not modelled: a write is an entry of the manager's journal.
use dbgflow.Prelude.{ℕ, String, Bool, Option, List, [], ◌∷◌, ◌++◌}
use dbgflow.Common.Error.{SessionId, Message}
use dbgflow.Session.Target.{DebugTarget}

-- One component of a path; an id is written as its UUID, with or without the suffix `.txt`, and a
-- name that the code puts together is the list of its code points.
pub data PathPart : Type 0 where
  name : String → PathPart
  letters : List ℕ → PathPart
  uuid : SessionId → PathPart
  uuid_txt : SessionId → PathPart

abbrev pub FilePath : Type 0
FilePath = List PathPart

pub data ArtifactKind : Type 0 where
  command_output : ArtifactKind
  profile_trace profile_metadata profile_events profile_stdout profile_stderr : ArtifactKind
  profile_collector_trace profile_collector_summary profile_collector_events : ArtifactKind
  ttd_trace ttd_trace_index ttd_recorder_output ttd_recording_metadata : ArtifactKind
  ttd_recording_events ttd_target_stdout ttd_target_stderr : ArtifactKind
  reverse_session_request reverse_session_metadata reverse_session_events : ArtifactKind
  reverse_session_output : ArtifactKind

pub record ArtifactRef : Type 0 where
  pub kind : ArtifactKind
  pub path : FilePath

-- A command id is a fresh UUID too.
unfoldable pub command_output_path : FilePath → SessionId → ℕ → FilePath
command_output_path root session_id command_id =
    root ++ name "sessions" ∷ uuid session_id ∷ name "outputs" ∷ uuid_txt command_id ∷ []

-- The values of `serde_json` that the events carry.
pub data Value : Type 0 where
  string : String → Value
  number : ℕ → Value
  bool : Bool → Value
  target : DebugTarget → Value

pub record SessionArtifactEvent : Type 0 where
  pub timestamp_unix_ms : ℕ
  pub event : String
  pub session_id : SessionId
  pub previous_state : Option String
  pub new_state : Option String
  pub backend : Option String
  pub backend_session_id : Option String
  pub operation : Option String
  pub command_id : Option ℕ
  pub artifact_path : Option FilePath
  pub error : Option Message
  pub fields : List (String × Value)

pub record CommandArtifactRecord : Type 0 where
  pub command_id : ℕ
  pub command : String
  pub status : String
  pub output_path : Option FilePath
  pub started_at_unix_ms : ℕ
  pub duration_ms : Option ℕ
  pub output_bytes : Option ℕ
  pub warnings : List String
  pub error : Option Message
  pub backend_session_id : Option String
