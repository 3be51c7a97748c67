-- ===== src/Session/Create.antt =====
-- `create_session` of crates/dbgflow-debug/src/session/manager.rs: get or create by target.
pub mod Reuse
use dbgflow.Prelude.{ℕ, String, ◌&&◌, Option, none, some, List, [], ◌∷◌, values, add, if◌then◌else◌}
use dbgflow.Common.Error.{SessionId, Result, ok, err, artifact}
use dbgflow.Session.State.{SessionState, is_reusable}
use dbgflow.Session.Target.{DebugTarget, target_eq, Files, validate_target}
use dbgflow.Session.Artifact.{target}
use dbgflow.Session.Operation.{Session}
use dbgflow.Session.Audit.{session_event}
use dbgflow.Session.Manager.{
  SessionManager, append_event, append_transcript, spawn_startup, session_created, emit,
  put_session, notify_session_updated,
}

pub record CreateSession : Type 0 where
  pub target : DebugTarget
  pub startup_timeout_ms : Option ℕ

-- `values().find(…)`: the order of a hash map is that of the list here.
unfoldable pub find_reusable : DebugTarget → List Session → Option Session
find_reusable t [] = none
find_reusable t (s ∷ ss) =
    if target_eq s.target t && is_reusable s.state then some s else find_reusable t ss

-- How far the writes of `initialize_session_audit` come: each failure has the error's text.
pub data AuditDisk : Type 0 where
  written : AuditDisk
  no_directory no_event no_transcript : String → AuditDisk

unfoldable pub initialize_session_audit :
    AuditDisk → Session → SessionManager → Result (Unit {0}) × SessionManager
unfolding session_event
initialize_session_audit disk session m =
    let event = append_event session.id (
      session_event m.clock "session_created" session none (some "create_session") none none none
        (("target", target session.target) ∷ [])) in
    let transcript = append_transcript session.id (session_created m.clock session) in
    elim disk [
      | no_directory e ↦ (err (artifact e), m)
      | no_event e ↦ (err (artifact e), m)
      | no_transcript e ↦ (err (artifact e), emit event m)
      | written ↦ (ok tt, emit transcript (emit event m))
    ]

unfoldable pub starting_session : SessionId → ℕ → DebugTarget → Session
starting_session fresh now t = record {
  id = fresh;
  backend = "worker";
  backend_session_id = none;
  target = t;
  state = SessionState.starting;
  created_at_unix_ms = now;
  updated_at_unix_ms = now;
  warnings = [];
  current_operation = some "create_session";
  last_operation = none;
  error = none;
}

-- The session is entered, its lock is made and its startup thread spawned. The source makes the lock
-- once it has let go of the sessions' lock.
unfoldable pub enter_session : Session → SessionManager → SessionManager
unfolding notify_session_updated
enter_session session m =
    let entered = put_session session.id session m in
    let locked = record entered { operation_locks = add session.id entered.operation_locks } in
    notify_session_updated session.id (emit (spawn_startup session.id session.target) locked)

-- No session can be used again; `fresh` is the new UUID.
unfoldable pub create_new :
    AuditDisk → SessionId → DebugTarget → SessionManager → Result Session × SessionManager
unfolding initialize_session_audit starting_session enter_session
create_new disk fresh t m =
    let session = starting_session fresh m.clock t in
    let (audited, m') = initialize_session_audit disk session m in
    elim audited [ err e ↦ (err e, m') | ok _ ↦ (ok session, enter_session session m') ]

-- From the sessions' lock on, with a target that has been validated.
unfoldable pub get_or_create :
    AuditDisk → SessionId → DebugTarget → SessionManager → Result Session × SessionManager
unfolding create_new
get_or_create disk fresh t m = elim (find_reusable t (values m.sessions)) [
  | some existing ↦ (ok existing, m)
  | none ↦ create_new disk fresh t m
]

unfoldable pub create_session :
    Files → AuditDisk → SessionId → CreateSession → SessionManager → Result Session × SessionManager
create_session fs disk fresh request m = elim (validate_target fs request.target) [
  | err e ↦ (err e, m)
  | ok t ↦ get_or_create disk fresh t m
]
