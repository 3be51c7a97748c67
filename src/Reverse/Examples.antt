-- ===== src/Reverse/Examples.antt =====
-- Runs of the theorems on the sessions of IDA.
use dbgflow.Prelude.{
  String, ◌+◌, ◌≡◌, refl, true, false, Option, is_some, none, some, [], ◌∷◌, lookup, insert, arith,
  codes, is_control, values,
}
use dbgflow.Common.Error.{SessionId, Message, text, of_error, Result, ok, err}
use dbgflow.Common.Json.{Json, null, object, string, end, field, get, get_field}
use dbgflow.Session.Artifact.{name, letters, uuid, ArtifactKind}
use dbgflow.Reverse.Model.{
  ReverseSession, ReverseSessionState, binary, IdaUpstreamSession, OpenIdaDatabase, prefer_headless,
  SupervisorToolCallResult, UpstreamIdaToolRequest, IdaToolCallResult, is_terminal, is_reusable,
  target_eq, CloseDatabaseResult, failed,
}
use dbgflow.Reverse.Tools.{
  default_upstream_tools, contains_text, is_allowed_upstream_tool, tool_descriptors,
}
use dbgflow.Reverse.Tools.Offered.{AllAllowed, tool_descriptors-AllAllowed}
use dbgflow.Reverse.Manager.{
  Outside, IdaSessionManager, not_downloaded, operation_lock, database_id,
  reusable_session_for_target, wait, list_databases,
}
use dbgflow.Reverse.Manager.Health.{get_session, find_database, refresh_session_health}
use dbgflow.Reverse.Manager.Create.{enter_session, open_session}
use dbgflow.Reverse.Manager.Create.Opened.{Opened, open_session-Opened}
use dbgflow.Reverse.Manager.Close.{close_session_with_save, finish_failed}
use dbgflow.Reverse.Manager.Close.Settled.{Settled, close_session_with_save-Settled}
use dbgflow.Reverse.Manager.Call.{
  call_upstream_tool, call_locked, ensure_ready, check_ready, call_bound, finish_call,
}
use dbgflow.Reverse.Manager.Call.Answered.{Answers, call_upstream_tool-Answers}
use dbgflow.Reverse.Manager.Output.Names.{names, Apart, names-Apart}
use dbgflow.Reverse.Manager.Races.{apply_listing_late, asked, late_state, restored_twin}
use dbgflow.Reverse.Manager.Rules.{Alone, Ensures}

-- A session over the file a.exe.
abbrev session_in : SessionId → ReverseSessionState → Option String → ReverseSession
session_in id state database = record {
  id = id;
  backend = "ida-pro-mcp";
  target = binary "a.exe";
  state = state;
  database_id = database;
  ida_backend = none;
  adopted = none;
  owned = none;
  pid = none;
  worker_pid = none;
  is_active = none;
  last_health = none;
  created_at_unix_ms = 10;
  updated_at_unix_ms = 10;
  warnings = [];
  artifacts = [];
  error = none;
}

abbrev manager_with : ReverseSession → Option String → IdaSessionManager
manager_with s database = record {
  sessions = (s.id, s) ∷ [];
  database_ids = elim database [ none ↦ [] | some d ↦ (s.id, d) ∷ [] ];
  operation_locks = [];
  artifact_root = name "root" ∷ [];
  output_sequence = 5;
  ticks = 0;
  journal = [];
}

abbrev upstream : IdaUpstreamSession
upstream = record {
  database_id = "db";
  input_path = "a.exe";
  filename = "a.exe";
  backend = some "idalib";
  adopted = none;
  owned = some true;
  pid = some 4;
  worker_pid = none;
  is_active = some true;
  is_analyzing = none;
  metadata = null;
}

abbrev content : Json
content = object (field "addr" (string "0x10") end)

abbrev result : SupervisorToolCallResult
result = record {
  structured_content = content;
  mcp_result = null;
  is_error = false;
  error_message = none;
}

-- The supervisor lists the database and answers every call; no other thread runs.
abbrev outside : Outside
outside = record {
  now = λ n. 20 + n;
  meanwhile = λ n m. m;
  opens = λ n request. ok (record { session = upstream; warmup = none; text = none });
  lists = λ n. ok (upstream ∷ []);
  calls = λ n database tool fields. ok result;
  downloads = λ n url. not_downloaded "unused";
  writes = λ n path. none;
  uuid_text = λ id. "id";
}

abbrev render : Message → String
render (text t) = t
render (of_error e) = "an error"

alone : (id : SessionId) → Alone outside id
alone id = record { session = λ n m. refl; database = λ n m. refl }

abbrev ready : IdaSessionManager
ready = manager_with (session_in 1 ReverseSessionState.ready (some "db")) (some "db")

ready_stored : lookup 1 ready.sessions ≡ some (session_in 1 ReverseSessionState.ready (some "db"))
unfolding lookup
ready_stored = refl

close_session_with_save-Settled_example :
    Ensures
      (Settled 1 (session_in 1 ReverseSessionState.ready (some "db")) (lookup 1 ready.database_ids))
      (close_session_with_save render outside 1 true ready)
close_session_with_save-Settled_example =
    close_session_with_save-Settled render outside 1 true
      (session_in 1 ReverseSessionState.ready (some "db")) ready (alone 1) ready_stored

abbrev starting : IdaSessionManager
starting = manager_with (session_in 1 ReverseSessionState.starting none) none

abbrev request_1 : OpenIdaDatabase
request_1 = record {
  input_path = "a.exe";
  mode = prefer_headless;
  run_auto_analysis = true;
  build_caches = true;
  init_hexrays = false;
  idle_ttl_sec = 60;
  preferred_session_id = 1;
  startup_timeout_ms = 1000;
}

starting_stored : lookup 1 starting.sessions ≡ some (session_in 1 ReverseSessionState.starting none)
unfolding lookup
starting_stored = refl

open_session-Opened_example :
    Ensures
      (Opened 1
        (session_in 1 ReverseSessionState.starting none)
        (outside.opens starting.ticks request_1))
      (open_session outside 1 request_1 starting)
open_session-Opened_example =
    open_session-Opened outside 1 request_1 (session_in 1 ReverseSessionState.starting none)
      starting (alone 1) starting_stored

abbrev tool_request : UpstreamIdaToolRequest
tool_request = record { session_id = 1; arguments = field "addr" (string "main") end }

-- The name of the fifth output of `decompile`, `0000000000000005-decompile.json`.
abbrev answer : IdaToolCallResult
answer = record {
  session_id = 1;
  tool = "ida.decompile";
  result = content;
  artifact = record {
    kind = ArtifactKind.reverse_session_output;
    path =
        name "root"
        ∷ name "reverse_sessions"
        ∷ uuid 1
        ∷ name "outputs"
        ∷ letters (codes "0000000000000005-decompile.json")
        ∷ [];
  };
  warnings = [];
}

tool_called : (call_upstream_tool outside "decompile" tool_request ready).0 ≡ ok answer
unfolding call_upstream_tool is_allowed_upstream_tool get_field call_locked ensure_ready get_session
    lookup operation_lock is_terminal insert check_ready database_id call_bound finish_call
    is_control get
tool_called = refl

call_upstream_tool-Answers_example :
    (session : ReverseSession) × (database : String) × (r : SupervisorToolCallResult) × Answers
      outside "decompile" tool_request answer ready session database r
call_upstream_tool-Answers_example =
    call_upstream_tool-Answers outside "decompile" tool_request answer ready tool_called

names-Apart_example : Apart (names ready (codes "a.json" ∷ codes "a.json" ∷ []))
names-Apart_example = names-Apart ready (codes "a.json" ∷ codes "a.json" ∷ []) (omega arith)

tool_descriptors-AllAllowed_example :
    (is_allowed_upstream_tool "py_exec_file" ≡ contains_text "py_exec_file" default_upstream_tools)
    × AllAllowed (tool_descriptors none)
tool_descriptors-AllAllowed_example = tool_descriptors-AllAllowed "py_exec_file" none

-- While the supervisor makes its list, in which no database stands, another thread closes the session.
abbrev closed_meanwhile : Outside
closed_meanwhile = record outside {
  meanwhile = λ n m. (close_session_with_save render outside 1 false m).1;
  lists = λ n. ok [];
}

-- The session that it answers.
abbrev answered_session : Result ReverseSession → ReverseSession
answered_session (ok s) = s
answered_session (err e) = session_in 1 ReverseSessionState.error none

abbrev closed_1 : ReverseSession
closed_1 = answered_session (close_session_with_save render outside 1 false (asked ready)).0

closes_1 : (close_session_with_save render outside 1 false (asked ready)).0 ≡ ok closed_1
unfolding close_session_with_save lookup is_terminal insert
closes_1 = refl

apply_listing_late_example :
    (lookup 1 (wait closed_meanwhile list_databases ready).sessions ≡ some closed_1)
    × (closed_1.state ≡ ReverseSessionState.closed)
    × ((t : ReverseSession) × (lookup 1 (refresh_session_health closed_meanwhile 1 ready).1.sessions
          ≡ some t)
        × (t.state ≡ late_state (is_some (find_database "db" []))))
unfolding is_terminal
apply_listing_late_example =
    apply_listing_late render closed_meanwhile outside 1 false "db" []
      (session_in 1 ReverseSessionState.ready (some "db")) closed_1 ready ready_stored refl refl
      refl (alone 1) closes_1 refl

abbrev closing : IdaSessionManager
closing = manager_with (session_in 1 ReverseSessionState.closing (some "db")) (some "db")

closing_stored :
    lookup 1 closing.sessions ≡ some (session_in 1 ReverseSessionState.closing (some "db"))
unfolding lookup
closing_stored = refl

none_reusable : reusable_session_for_target (binary "a.exe") closing ≡ none
unfolding reusable_session_for_target values target_eq is_reusable
none_reusable = refl

second_entered : (enter_session outside 2 (binary "a.exe") closing).0 ≡ ok tt
unfolding enter_session
second_entered = refl

abbrev unsaved : CloseDatabaseResult
unsaved = record { save_requested = true; save_status = failed; warning = none; error = none }

restored_twin_example :
    let n =
      (finish_failed render outside 1 true ReverseSessionState.ready unsaved
        (enter_session outside 2 (binary "a.exe") closing).1).1 in
    (a b : ReverseSession) × (lookup 1 n.sessions ≡ some a)
    × (lookup 2 n.sessions ≡ some b)
    × (a.target ≡ binary "a.exe")
    × (b.target ≡ binary "a.exe")
    × (is_reusable a.state ≡ true)
    × (is_reusable b.state ≡ true)
restored_twin_example =
    restored_twin render outside 1 2 true unsaved (binary "a.exe")
      (session_in 1 ReverseSessionState.closing (some "db")) closing (omega arith) closing_stored
      refl refl none_reusable second_entered
