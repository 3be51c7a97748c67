-- ===== src/Reverse/Manager/Create.antt =====
-- `create_session_with_context` of crates/dbgflow-reverse/src/ida/manager.rs: the create lock is held
-- from the look for a session to the end.
pub mod Opened
use dbgflow.Prelude.{
  ℕ, String, ◌++◌, Bool, true, false, Option, none, some, [], ◌∷◌, insert, ◌==◌, if◌then◌else◌,
}
use dbgflow.Common.Error.{SessionId, DbgFlowError, of_error, Result, ok, err, artifact}
use dbgflow.Session.Artifact.{FilePath, name, uuid, ArtifactKind, ArtifactRef}
use dbgflow.Session.Target.{Files}
use dbgflow.Reverse.Model.{
  ReverseSession, ReverseSessionState, IdaTarget, IdaOpenMode, OpenIdaDatabase,
  OpenIdaDatabaseResult, opened,
}
use dbgflow.Reverse.Target.{validate_ida_target, path_of}
use dbgflow.Reverse.Manager.{
  Outside, Op, ◌>>=◌, ◌>>◌, pure, insert_session, update_session, record_event, operation_lock,
  wait, open_database, reusable_session_for_target, text_value, target_value,
}
use dbgflow.Reverse.Manager.Health.{get_session}

pub record CreateIdaSession : Type 0 where
  pub target : IdaTarget
  pub run_auto_analysis : Bool
  pub build_caches : Bool
  pub init_hexrays : Bool
  pub mode : IdaOpenMode
  pub idle_ttl_sec : ℕ
  pub startup_timeout_ms : Option ℕ

abbrev pub backend_name : String
backend_name = "ida-pro-mcp"

unfoldable pub reverse_session_request_path : FilePath → SessionId → FilePath
reverse_session_request_path root id =
    root ++ name "reverse_sessions" ∷ uuid id ∷ name "request.json" ∷ []

unfoldable pub reverse_session_metadata_path : FilePath → SessionId → FilePath
reverse_session_metadata_path root id =
    root ++ name "reverse_sessions" ∷ uuid id ∷ name "session.json" ∷ []

unfoldable pub starting_session : SessionId → ℕ → IdaTarget → ReverseSession
starting_session fresh now target = record {
  id = fresh;
  backend = backend_name;
  target = target;
  state = ReverseSessionState.starting;
  database_id = none;
  ida_backend = none;
  adopted = none;
  owned = none;
  pid = none;
  worker_pid = none;
  is_active = none;
  last_health = none;
  created_at_unix_ms = now;
  updated_at_unix_ms = now;
  warnings = [];
  artifacts = [];
  error = none;
}

-- A write that has to go through.
abbrev written : Outside → ArtifactKind → FilePath → Op ArtifactRef
written o kind path m = elim (o.writes m.ticks path) [
  | some error ↦ (err (artifact error), m)
  | none ↦ (ok (record { kind = kind; path = path }), m)
]

-- The session with the two files in its list.
unfoldable pub initialize_session_audit : Outside → ReverseSession → Op ReverseSession
unfolding reverse_session_request_path reverse_session_metadata_path record_event
initialize_session_audit o session m =
    let request_path = reverse_session_request_path m.artifact_root session.id in
    let metadata_path = reverse_session_metadata_path m.artifact_root session.id in
    (written o ArtifactKind.reverse_session_request request_path >>= λ request.
    written o ArtifactKind.reverse_session_metadata metadata_path >>= λ metadata.
    record_event o session.id "create_session_started" none (some ReverseSessionState.starting)
      (some "ida.create_session") (some request_path) none
      (("backend", text_value (some backend_name)) ∷ ("target", target_value session.target) ∷ [])
    >> pure (record session { artifacts = request ∷ metadata ∷ [] }))
      m

abbrev at_least_one : ℕ → ℕ
at_least_one n = if n == 0 then 1 else n

-- `unwrap_or(DEFAULT_STARTUP_TIMEOUT_MS).max(1)`.
abbrev startup_timeout : Option ℕ → ℕ
startup_timeout none = 1800000
startup_timeout (some timeout_ms) = at_least_one timeout_ms

unfoldable pub open_request : CreateIdaSession → IdaTarget → SessionId → OpenIdaDatabase
open_request request target id = record {
  input_path = path_of target;
  mode = request.mode;
  run_auto_analysis = request.run_auto_analysis;
  build_caches = request.build_caches;
  init_hexrays = request.init_hexrays;
  idle_ttl_sec = request.idle_ttl_sec;
  preferred_session_id = id;
  startup_timeout_ms = startup_timeout request.startup_timeout_ms;
}

unfoldable pub ready_session : OpenIdaDatabaseResult → ReverseSession → ReverseSession
ready_session answer session = record session {
  state = ReverseSessionState.ready;
  database_id = some answer.session.database_id;
  ida_backend = answer.session.backend;
  adopted = answer.session.adopted;
  owned = answer.session.owned;
  pid = answer.session.pid;
  worker_pid = answer.session.worker_pid;
  is_active = answer.session.is_active;
  last_health = some (record {
    reachable = true;
    detail = some (opened answer.session answer.warmup answer.text);
    error = none;
  });
  error = none;
}

unfoldable pub failed_session : DbgFlowError → ReverseSession → ReverseSession
failed_session error session = record session {
  state = ReverseSessionState.error;
  error = some (of_error error);
  last_health = some (record { reachable = false; detail = none; error = some (of_error error) });
}

unfoldable pub bind_database : SessionId → String → Op (Unit {0})
bind_database id database m = (ok tt, record m { database_ids = insert id database m.database_ids })

unfoldable pub opened_event : Outside → SessionId → ReverseSession → Op (Unit {0})
unfolding record_event
opened_event o id session =
    record_event o id "create_session_finished" (some ReverseSessionState.starting)
      (some ReverseSessionState.ready) (some "ida.create_session") none none
      (("database_id", text_value session.database_id) ∷ [])

-- The supervisor has answered.
unfoldable pub finish_open : Outside → SessionId → Result OpenIdaDatabaseResult → Op ReverseSession
unfolding bind_database update_session ready_session failed_session opened_event get_session
finish_open o id (ok answer) = bind_database id answer.session.database_id >>= λ _.
    update_session o id (ready_session answer) >>= λ session.
    opened_event o id session >>= λ _. get_session o id
finish_open o id (err error) =
    update_session o id (failed_session error) >>= λ session m. (err error, m)

-- The session is entered and its operation lock taken; `fresh` is the new UUID.
unfoldable pub enter_session : Outside → SessionId → IdaTarget → Op (Unit {0})
unfolding starting_session initialize_session_audit insert_session operation_lock
enter_session o fresh target m =
    (initialize_session_audit o (starting_session fresh (o.now m.ticks) target) >>= λ session.
    insert_session session >> operation_lock fresh)
      m

unfoldable pub open_session : Outside → SessionId → OpenIdaDatabase → Op ReverseSession
unfolding wait finish_open
open_session o id request m =
    finish_open o id (o.opens m.ticks request) (wait o (open_database request) m)

unfoldable pub get_or_create :
    Outside → SessionId → CreateIdaSession → IdaTarget → Op ReverseSession
unfolding reusable_session_for_target enter_session open_request open_session
get_or_create o fresh request target m = elim (reusable_session_for_target target m) [
  | some existing ↦ (ok existing, m)
  | none ↦
      (enter_session o fresh target >> open_session o fresh (open_request request target fresh)) m
]

unfoldable pub create_session :
    Files
    → (normalize : String → String) → (extension : String → Option String) → Outside
    → SessionId
    → CreateIdaSession
    → Op ReverseSession
unfolding get_or_create
create_session fs normalize extension o fresh request m =
    elim (validate_ida_target fs normalize extension request.target) [
      | err error ↦ (err error, m)
      | ok target ↦ get_or_create o fresh request target m
    ]
