-- ===== src/Reverse/Model.antt =====
-- crates/dbgflow-reverse/src/ida/model.rs, and the target of target.rs.
use dbgflow.Prelude.{ℕ, String, Bool, true, false, Option, List, text_eq}
use dbgflow.Common.Error.{SessionId, Message}
use dbgflow.Common.Json.{Json, Fields}
use dbgflow.Session.Artifact.{ArtifactRef}

pub data ReverseSessionState : Type 0 where
  starting ready closing closed error : ReverseSessionState

unfoldable pub is_reusable : ReverseSessionState → Bool
is_reusable ReverseSessionState.starting = true
is_reusable ReverseSessionState.ready = true
is_reusable _ = false

unfoldable pub is_terminal : ReverseSessionState → Bool
is_terminal ReverseSessionState.closed = true
is_terminal ReverseSessionState.error = true
is_terminal _ = false

-- `{state:?}`.
unfoldable pub debug_state : ReverseSessionState → String
debug_state ReverseSessionState.starting = "Starting"
debug_state ReverseSessionState.ready = "Ready"
debug_state ReverseSessionState.closing = "Closing"
debug_state ReverseSessionState.closed = "Closed"
debug_state ReverseSessionState.error = "Error"

pub data IdaOpenMode : Type 0 where
  prefer_headless force_headless prefer_gui force_gui : IdaOpenMode

unfoldable pub as_upstream : IdaOpenMode → String
as_upstream prefer_headless = "prefer_headless"
as_upstream force_headless = "force_headless"
as_upstream prefer_gui = "prefer_gui"
as_upstream force_gui = "force_gui"

pub data IdaTarget : Type 0 where
  binary : String → IdaTarget
  database : String → IdaTarget

-- `==`, derived.
unfoldable pub target_eq : IdaTarget → IdaTarget → Bool
target_eq (binary p) (binary q) = text_eq p q
target_eq (database p) (database q) = text_eq p q
target_eq _ _ = false

pub record IdaUpstreamSession : Type 0 where
  pub database_id : String
  pub input_path : String
  pub filename : String
  pub backend : Option String
  pub adopted : Option Bool
  pub owned : Option Bool
  pub pid : Option ℕ
  pub worker_pid : Option ℕ
  pub is_active : Option Bool
  pub is_analyzing : Option Bool
  pub metadata : Json

pub data SaveStatus : Type 0 where
  not_requested saved failed unknown : SaveStatus

pub record CloseDatabaseResult : Type 0 where
  pub save_requested : Bool
  pub save_status : SaveStatus
  pub warning : Option Message
  pub error : Option Message

-- The values that the code puts into `detail`.
pub data HealthDetail : Type 0 where
  opened : IdaUpstreamSession → (warmup : Option Json) → (text : Option String) → HealthDetail
  listed : IdaUpstreamSession → HealthDetail
  close_report : CloseDatabaseResult → (detached : Bool) → HealthDetail

pub record IdaSessionHealth : Type 0 where
  pub reachable : Bool
  pub detail : Option HealthDetail
  pub error : Option Message

pub record ReverseSession : Type 0 where
  pub id : SessionId
  pub backend : String
  pub target : IdaTarget
  pub state : ReverseSessionState
  pub database_id : Option String
  pub ida_backend : Option String
  pub adopted : Option Bool
  pub owned : Option Bool
  pub pid : Option ℕ
  pub worker_pid : Option ℕ
  pub is_active : Option Bool
  pub last_health : Option IdaSessionHealth
  pub created_at_unix_ms : ℕ
  pub updated_at_unix_ms : ℕ
  pub warnings : List Message
  pub artifacts : List ArtifactRef
  pub error : Option Message

pub record OpenIdaDatabase : Type 0 where
  pub input_path : String
  pub mode : IdaOpenMode
  pub run_auto_analysis : Bool
  pub build_caches : Bool
  pub init_hexrays : Bool
  pub idle_ttl_sec : ℕ
  pub preferred_session_id : SessionId
  pub startup_timeout_ms : ℕ

pub record OpenIdaDatabaseResult : Type 0 where
  pub session : IdaUpstreamSession
  pub warmup : Option Json
  pub text : Option String

pub record SupervisorToolCallResult : Type 0 where
  pub structured_content : Json
  pub mcp_result : Json
  pub is_error : Bool
  pub error_message : Option String

pub record UpstreamIdaToolRequest : Type 0 where
  pub session_id : SessionId
  pub arguments : Fields

pub record IdaToolCallResult : Type 0 where
  pub session_id : SessionId
  pub tool : String
  pub result : Json
  pub artifact : ArtifactRef
  pub warnings : List Message
