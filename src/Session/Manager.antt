-- ===== src/Session/Manager.antt =====
-- The state of crates/dbgflow-debug/src/session/manager.rs, and the parts that its operations share.
-- The journal is what the manager did to the world around it, newest first: an append to an
-- artifact file (whose failure only reaches the log), a kill of a worker, a thread that is spawned.
pub mod Queries
use dbgflow.Prelude.{
  ℕ, String, Bool, true, Option, none, some, List, [], ◌∷◌, ◌++◌, lookup, insert, values, mem, leb,
  if◌then◌else◌,
}
use dbgflow.Common.Error.{SessionId, Message, Result, ok, err, session_not_found}
use dbgflow.Session.State.{SessionState}
use dbgflow.Session.Target.{DebugTarget}
use dbgflow.Session.Artifact.{FilePath, SessionArtifactEvent, CommandArtifactRecord}
use dbgflow.Session.Operation.{Session}
use dbgflow.Session.Registry
use dbgflow.Session.Registry.{WorkerId, WorkerRegistry}

-- The lines of transcript.log, by what is put into their text.
pub data TranscriptLine : Type 0 where
  session_created : (now : ℕ) → Session → TranscriptLine
  close_requested : (now : ℕ) → SessionState → (cancel_requested : Bool) → TranscriptLine
  backend_state_changed :
      (now : ℕ) → (from to : SessionState) → (command_id : Option ℕ) → TranscriptLine
  eval_started : (now : ℕ) → (command_id : ℕ) → (command : String) → TranscriptLine
  eval_ended :
      (now : ℕ)
      → (event : String) → (command_id : ℕ) → (command : String) → (duration_ms : ℕ)
      → Option Message
      → TranscriptLine
  eval_rejected : (now : ℕ) → (command_id : ℕ) → (command : String) → Message → TranscriptLine
  command_output : (command_id : ℕ) → (command output : String) → TranscriptLine
  command_partial_output : (command_id : ℕ) → (command output : String) → TranscriptLine
  operation_closed :
      (now : ℕ)
      → (event : String) → (command_id : ℕ) → (command : String) → Option Message
      → TranscriptLine
  worker_close_finished : (now : ℕ) → SessionState → TranscriptLine
  worker_close_failed : (now : ℕ) → SessionState → Message → TranscriptLine
  worker_startup_finished : (now : ℕ) → Session → (duration_ms : ℕ) → TranscriptLine
  startup_failed_after_close :
      (now : ℕ) → SessionState → Message → (duration_ms : ℕ) → TranscriptLine
  worker_startup_failed : (now : ℕ) → SessionState → Message → (duration_ms : ℕ) → TranscriptLine
  worker_unavailable : (now : ℕ) → SessionState → Message → TranscriptLine

pub data Effect : Type 0 where
  append_event : SessionId → SessionArtifactEvent → Effect
  append_transcript : SessionId → TranscriptLine → Effect
  append_command_record : SessionId → CommandArtifactRecord → Effect
  kill_worker : WorkerId → (reason : String) → Effect
  close_worker : WorkerId → Effect
  spawn_startup : SessionId → DebugTarget → Effect
  spawn_close : SessionId → Effect
  spawn_monitor : SessionId → WorkerId → Effect

-- One receiver of `subscribe_session_updates`: whether it still listens, and what it was sent.
pub record Subscriber : Type 0 where
  pub connected : Bool
  pub received : List SessionId

-- `clock` is what `now_unix_ms` reads: a section of code under the lock happens at one instant.
pub record SessionManager : Type 0 where
  pub clock : ℕ
  pub workers : WorkerRegistry
  pub sessions : List (SessionId × Session)
  pub operation_locks : List SessionId
  pub artifact_root : FilePath
  pub event_subscribers : List Subscriber
  pub journal : List Effect

unfoldable pub new : ℕ → FilePath → SessionManager
unfolding Registry.empty
new now root = record {
  clock = now;
  workers = Registry.empty;
  sessions = [];
  operation_locks = [];
  artifact_root = root;
  event_subscribers = [];
  journal = [];
}

abbrev pub emit : Effect → SessionManager → SessionManager
emit e m = record m { journal = e ∷ m.journal }

-- A write through `sessions.get_mut(&session_id)`.
abbrev pub put_session : SessionId → Session → SessionManager → SessionManager
put_session session_id session m = record m { sessions = insert session_id session m.sessions }

-- `subscribers.retain(|s| s.send(id).is_ok())`: a receiver that is gone is taken out.
unfoldable pub send_all : SessionId → List Subscriber → List Subscriber
send_all session_id [] = []
send_all session_id (s ∷ ss) =
    let rest = send_all session_id ss in
    if s.connected then record s { received = session_id ∷ s.received } ∷ rest else rest

unfoldable pub notify_session_updated : SessionId → SessionManager → SessionManager
unfolding send_all
notify_session_updated session_id m = record m {
  event_subscribers = send_all session_id m.event_subscribers;
}

unfoldable pub subscribe_session_updates : SessionManager → SessionManager
subscribe_session_updates m = record m {
  event_subscribers = m.event_subscribers ++ record { connected = true; received = [] } ∷ [];
}

unfoldable pub query_session : SessionId → SessionManager → Result Session
query_session session_id m = elim (lookup session_id m.sessions) [
  | none ↦ err (session_not_found session_id)
  | some session ↦ ok session
]

-- `sort_by_key(created_at_unix_ms)`: a stable sort.
unfoldable pub insert_by_age : Session → List Session → List Session
insert_by_age s [] = s ∷ []
insert_by_age s (t ∷ ts) =
    let rest = insert_by_age s ts in
    if leb s.created_at_unix_ms t.created_at_unix_ms then s ∷ t ∷ ts else t ∷ rest

unfoldable pub sort_by_age : List Session → List Session
unfolding insert_by_age
sort_by_age [] = []
sort_by_age (s ∷ ss) = insert_by_age s (sort_by_age ss)

unfoldable pub list_sessions : SessionManager → List Session
unfolding sort_by_age
list_sessions m = sort_by_age (values m.sessions)

-- Whether the session has an operation lock; without one it was never created.
unfoldable pub operation_lock : SessionId → SessionManager → Result (Unit {0})
operation_lock session_id m =
    if mem session_id m.operation_locks then ok tt else err (session_not_found session_id)

unfoldable pub worker : SessionId → SessionManager → Option WorkerId
unfolding Registry.get
worker session_id m = Registry.get session_id m.workers

unfoldable pub remove_worker : SessionId → SessionManager → Option WorkerId × SessionManager
unfolding Registry.remove_worker
remove_worker session_id m =
    let (removed, registry) = Registry.remove_worker session_id m.workers in
    (removed, record m { workers = registry })

-- `workers.kill_once(id, reason)`: the kill itself is an effect.
unfoldable pub kill_once : SessionId → String → SessionManager → SessionManager
unfolding Registry.kill_once
kill_once session_id reason m =
    let (killed, registry) = Registry.kill_once session_id m.workers in
    elim killed [
      | none ↦ record m { workers = registry }
      | some w ↦ emit (kill_worker w reason) (record m { workers = registry })
    ]
