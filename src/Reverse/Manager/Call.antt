-- ===== src/Reverse/Manager/Call.antt =====
-- `call_upstream_tool` of crates/dbgflow-reverse/src/ida/manager.rs. A failed operation has the
-- text `render` of its error.
pub mod Answered
use Prim.Native.String.{◌++◌ as append}
use dbgflow.Prelude.{String, Bool, true, false, not, none, some, List, [], ◌∷◌, if◌then◌else◌}
use dbgflow.Common.Error.{
  SessionId, DbgFlowError, Message, text, of_error, Result, ok, err, backend, session_closed,
}
use dbgflow.Common.Json.{Fields, get_field}
use dbgflow.Reverse.Model.{
  ReverseSessionState, debug_state, SupervisorToolCallResult, UpstreamIdaToolRequest,
  IdaToolCallResult,
}
use dbgflow.Session.Artifact.{ArtifactRef}
use dbgflow.Reverse.Tools.{is_allowed_upstream_tool}
use dbgflow.Reverse.Upstream.{unwrap_or}
use dbgflow.Reverse.Manager.{
  Outside, Op, ◌>>=◌, ◌>>◌, pure, append_artifact_to_session, record_event, operation_lock,
  database_id, wait, call_database, text_value, messages_value, EventValue,
}
use dbgflow.Reverse.Manager.Output.{write_tool_output, write_tool_error_output}
use dbgflow.Reverse.Manager.Health.{get_session}

unfoldable pub check_ready :
    SessionId → (operation : String) → ReverseSessionState → Result (Unit {0})
unfolding debug_state
check_ready session_id operation ReverseSessionState.ready = ok tt
check_ready session_id operation ReverseSessionState.closed = err (session_closed session_id)
check_ready session_id operation state = err (
    backend (
      append operation
        (append " requires Ready IDA session; current state is " (debug_state state))))

unfoldable pub ensure_ready : Outside → SessionId → (operation : String) → Op (Unit {0})
ensure_ready o session_id operation =
    get_session o session_id >>= λ session m. (check_ready session_id operation session.state, m)

unfoldable pub unanswered_event :
    Outside → (tool_name : String) → SessionId → DbgFlowError → ArtifactRef → Op (Unit {0})
unfolding record_event
unanswered_event o tool_name session_id error a =
    record_event o session_id "upstream_tool_failed" none none (some (append "ida." tool_name))
      (some a.path) (some (of_error error)) (("tool", text_value (some tool_name)) ∷ [])

-- The call itself failed: no answer of the tool.
unfoldable pub tool_unanswered :
    Outside → (tool_name : String) → UpstreamIdaToolRequest → DbgFlowError → Op IdaToolCallResult
unfolding write_tool_error_output append_artifact_to_session unanswered_event
tool_unanswered o tool_name request error =
    write_tool_error_output o request.session_id tool_name request.arguments (of_error error)
    >>= λ a. append_artifact_to_session o request.session_id a >>= λ _.
        unanswered_event o tool_name request.session_id error a >>= λ _. λ m. (err error, m)

abbrev tool_fields : String → List Message → List (String × EventValue)
tool_fields tool_name warnings =
    ("tool", text_value (some tool_name)) ∷ ("warnings", messages_value warnings) ∷ []

-- What is recorded and answered once the output is written.
unfoldable pub report_tool :
    Outside
    → (tool_name : String) → SessionId
    → SupervisorToolCallResult
    → ArtifactRef
    → List Message
    → Op IdaToolCallResult
unfolding record_event
report_tool o tool_name session_id result a warnings m =
    let error = unwrap_or result.error_message "ida-pro-mcp upstream tool failed" in
    if result.is_error
    then (
      err (backend error),
      (record_event o session_id "upstream_tool_failed" none none (some (append "ida." tool_name))
          (some a.path) (some (text error)) (tool_fields tool_name warnings) m).1,
    )
    else (
      ok (record {
        session_id = session_id;
        tool = append "ida." tool_name;
        result = result.structured_content;
        artifact = a;
        warnings = warnings;
      }),
      (record_event o session_id "upstream_tool_finished" none none (some (append "ida." tool_name))
          (some a.path) none (tool_fields tool_name warnings) m).1,
    )

unfoldable pub tool_answered :
    Outside
    → (tool_name : String) → UpstreamIdaToolRequest
    → SupervisorToolCallResult
    → Op IdaToolCallResult
unfolding write_tool_output append_artifact_to_session report_tool
tool_answered o tool_name request result =
    write_tool_output o request.session_id tool_name request.arguments result >>= λ output.
    append_artifact_to_session o request.session_id output.0 >>= λ _.
    report_tool o tool_name request.session_id result output.0 output.1

unfoldable pub finish_call :
    Outside
    → (tool_name : String) → UpstreamIdaToolRequest
    → Result SupervisorToolCallResult
    → Op IdaToolCallResult
unfolding tool_unanswered tool_answered
finish_call o tool_name request (ok result) = tool_answered o tool_name request result
finish_call o tool_name request (err error) = tool_unanswered o tool_name request error

unfoldable pub call_bound :
    Outside → (tool_name database : String) → UpstreamIdaToolRequest → Op IdaToolCallResult
call_bound o tool_name database request m =
    finish_call o tool_name request (o.calls m.ticks database tool_name request.arguments)
      (wait o (call_database database tool_name request.arguments) m)

abbrev pub has_database : Fields → Bool
has_database fields = elim (get_field "database" fields) [ none ↦ false | some v ↦ true ]

-- With the session's operation lock.
unfoldable pub call_locked :
    Outside → (tool_name : String) → UpstreamIdaToolRequest → Op IdaToolCallResult
call_locked o tool_name request = ensure_ready o request.session_id tool_name >>= λ _.
    database_id o request.session_id >>= λ database. call_bound o tool_name database request

unfoldable pub call_upstream_tool :
    Outside → (tool_name : String) → UpstreamIdaToolRequest → Op IdaToolCallResult
call_upstream_tool o tool_name request m =
    if not (is_allowed_upstream_tool tool_name)
    then (err (backend (append "IDA upstream tool is not exposed by dbgflow: " tool_name)), m)
    else if has_database request.arguments
    then (err (backend "IDA tools accept dbgflow session_id, not upstream database"), m)
    else call_locked o tool_name request (operation_lock request.session_id m).1
