-- ===== src/Reverse/Manager.antt =====
-- The state of crates/dbgflow-reverse/src/ida/manager.rs, and the parts that its operations share.
-- The supervisor, the disk, the clock and the other threads are the parameter `Outside`.
pub mod Output
pub mod Health
pub mod Create
pub mod Close
pub mod Call
pub mod Rules
pub mod Races
use Prim.Native.String.{◌++◌ as append}
use dbgflow.Prelude.{
  ℕ, zero, suc, String, ◌+◌, ◌-◌, ◌/◌, ◌%◌, ◌^◌, Bool, ◌&&◌, ◌||◌, Option, none, some, List, [],
  ◌∷◌, ◌++◌, map, lookup, insert, add, values, codes, leb, ltb, ◌==◌, is_control, any, text_eq,
  if◌then◌else◌,
}
use dbgflow.Common.Error.{
  SessionId, Message, text, of_error, Result, ok, err, backend, artifact, session_not_found,
  session_closed,
}
use dbgflow.Common.Json.{Json, Fields, get, as_str}
use dbgflow.Session.Artifact.{FilePath, name, letters, uuid, ArtifactKind, ArtifactRef}
use dbgflow.Reverse.Model.{
  ReverseSession, ReverseSessionState, debug_state, IdaTarget, IdaUpstreamSession, OpenIdaDatabase,
  OpenIdaDatabaseResult, SupervisorToolCallResult, SaveStatus, is_reusable, target_eq,
}
use dbgflow.Reverse.Upstream.{and_then}

-- The values in the fields of an event.
pub data EventValue : Type 0 where
  text_value : Option String → EventValue
  bool_value : Bool → EventValue
  target_value : IdaTarget → EventValue
  status_value : SaveStatus → EventValue
  message_value : Option Message → EventValue
  messages_value : List Message → EventValue

pub record ReverseSessionArtifactEvent : Type 0 where
  pub timestamp_unix_ms : ℕ
  pub event : String
  pub session_id : SessionId
  pub previous_state : Option String
  pub new_state : Option String
  pub operation : Option String
  pub artifact_path : Option FilePath
  pub error : Option Message
  pub fields : List (String × EventValue)

-- What `download_ida_mcp_output` answers.
pub data Download : Type 0 where
  downloaded : Json → Download
  not_downloaded : String → Download

-- The content of an output file.
pub data ToolOutput : Type 0 where
  tool_output : (tool : String) → Fields → SupervisorToolCallResult → Option Download → ToolOutput
  tool_error : (tool : String) → Fields → Message → ToolOutput

-- What the manager did to the world around it: best-effort writes, outputs, calls of the supervisor.
pub data Effect : Type 0 where
  write_metadata : SessionId → ReverseSession → Effect
  append_event : SessionId → ReverseSessionArtifactEvent → Effect
  write_output : FilePath → ToolOutput → Effect
  open_database : OpenIdaDatabase → Effect
  list_databases : Effect
  call_database : (database_id tool : String) → Fields → Effect

-- `ticks` counts the calls of the supervisor; `output_sequence` is the static OUTPUT_SEQUENCE.
pub record IdaSessionManager : Type 0 where
  pub sessions : List (SessionId × ReverseSession)
  pub database_ids : List (SessionId × String)
  pub operation_locks : List SessionId
  pub artifact_root : FilePath
  pub output_sequence : ℕ
  pub ticks : ℕ
  pub journal : List Effect

-- The answers of the n-th call of the supervisor, and what other threads do while it is awaited.
-- The clock stands still between two calls. `writes` has the error's text where a write fails.
pub record Outside : Type 0 where
  pub now : ℕ → ℕ
  pub meanwhile : ℕ → IdaSessionManager → IdaSessionManager
  pub opens : ℕ → OpenIdaDatabase → Result OpenIdaDatabaseResult
  pub lists : ℕ → Result (List IdaUpstreamSession)
  pub calls : ℕ → (database_id tool : String) → Fields → Result SupervisorToolCallResult
  pub downloads : ℕ → String → Download
  pub writes : ℕ → FilePath → Option String
  pub uuid_text : SessionId → String

-- An operation answers and gives the manager back; a failure keeps what was done before it.
abbrev pub Op : Type 0 → Type 0
Op A = IdaSessionManager → Result A × IdaSessionManager

infixl 5 ◌>>=◌
abbrev pub ◌>>=◌ : {A B : Type 0} → Op A → (A → Op B) → Op B
◌>>=◌ m f s = let (r, t) = m s in elim r [ ok a ↦ f a t | err e ↦ (err e, t) ]

infixl 5 ◌>>◌
abbrev pub ◌>>◌ : {A B : Type 0} → Op A → Op B → Op B
m >> k = m >>= λ _. k

abbrev pub pure : {A : Type 0} → A → Op A
pure a m = (ok a, m)

abbrev pub emit : Effect → Op (Unit {0})
emit e m = (ok tt, record m { journal = e ∷ m.journal })

-- `let _ = op`: a failure is let go.
abbrev pub best_effort : {A : Type 0} → Op A → Op (Unit {0})
best_effort op m = (ok tt, (op m).1)

unfoldable pub insert_session : ReverseSession → Op (Unit {0})
insert_session session m = (ok tt, record m { sessions = insert session.id session m.sessions })

unfoldable pub update_session :
    Outside → SessionId → (ReverseSession → ReverseSession) → Op ReverseSession
update_session o session_id update m = elim (lookup session_id m.sessions) [
  | none ↦ (err (session_not_found session_id), m)
  | some session ↦
      let session' = record (update session) { updated_at_unix_ms = o.now m.ticks } in
      (
        ok session',
        record m {
          sessions = insert session_id session' m.sessions;
          journal = write_metadata session_id session' ∷ m.journal;
        },
      )
]

unfoldable pub append_artifact_to_session : Outside → SessionId → ArtifactRef → Op ReverseSession
unfolding update_session
append_artifact_to_session o session_id a =
    update_session o session_id
      (λ session. record session { artifacts = session.artifacts ++ a ∷ [] })

unfoldable pub append_session_warning : Outside → SessionId → Message → Op ReverseSession
unfolding update_session
append_session_warning o session_id warning =
    update_session o session_id
      (λ session. record session { warnings = session.warnings ++ warning ∷ [] })

abbrev state_text : Option ReverseSessionState → Option String
state_text none = none
state_text (some state) = some (debug_state state)

unfoldable pub record_event :
    Outside
    → SessionId
    → (event : String) → (previous_state new_state : Option ReverseSessionState)
    → (operation : Option String) → Option FilePath
    → Option Message
    → List (String × EventValue)
    → Op (Unit {0})
record_event o session_id event previous_state new_state operation path error fields m =
    emit
      (append_event session_id (record {
        timestamp_unix_ms = o.now m.ticks;
        event = event;
        session_id = session_id;
        previous_state = state_text previous_state;
        new_state = state_text new_state;
        operation = operation;
        artifact_path = path;
        error = error;
        fields = fields;
      }))
      m

-- The lock is made if it is not there; it is the caller's until the operation ends.
unfoldable pub operation_lock : SessionId → Op (Unit {0})
operation_lock session_id m =
    (ok tt, record m { operation_locks = add session_id m.operation_locks })

unfoldable pub database_id : Outside → SessionId → Op String
database_id o session_id m = elim (lookup session_id m.database_ids) [
  | some database ↦ (ok database, m)
  | none ↦ (
    err (
        backend (
          append "IDA session "
            (append (o.uuid_text session_id) " is not bound to an upstream database"))),
    m,
  )
]

-- A call of the supervisor: other threads run while it is awaited.
unfoldable pub wait : Outside → Effect → IdaSessionManager → IdaSessionManager
wait o request m =
    let m' = o.meanwhile m.ticks (record m { journal = request ∷ m.journal }) in
    record m' { ticks = m.ticks + 1 }

-- `values().find(…)`: the order of a hash map is that of the list here.
unfoldable pub find_reusable : IdaTarget → List ReverseSession → Option ReverseSession
find_reusable target [] = none
find_reusable target (session ∷ sessions) =
    if target_eq session.target target && is_reusable session.state
    then some session
    else find_reusable target sessions

unfoldable pub reusable_session_for_target : IdaTarget → IdaSessionManager → Option ReverseSession
unfolding find_reusable
reusable_session_for_target target m = find_reusable target (values m.sessions)
