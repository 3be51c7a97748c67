-- ===== src/Reverse/Manager/Call/Answered.antt =====
-- What a tool call of ida/manager.rs comes to.
use dbgflow.Prelude.{String, ◌≡◌, ◌≢◌, refl, true, false, some, List, lookup, arith}
use dbgflow.Common.Error.{SessionId, DbgFlowError, Message, of_error, Result, ok, err}
use dbgflow.Session.Artifact.{ArtifactRef}
use dbgflow.Reverse.Model.{
  ReverseSession, ReverseSessionState, UpstreamIdaToolRequest, IdaToolCallResult,
  SupervisorToolCallResult,
}
use dbgflow.Reverse.Tools.{is_allowed_upstream_tool}
use dbgflow.Reverse.Manager.{
  Outside, IdaSessionManager, Op, ◌>>=◌, wait, database_id, append_artifact_to_session,
  call_database, operation_lock,
}
use dbgflow.Reverse.Manager.Output.{write_tool_output, write_tool_error_output}
use dbgflow.Reverse.Manager.Rules.{bind_ok, database_id_lem, bind-answer}
use dbgflow.Reverse.Manager.Call.{
  call_upstream_tool, has_database, ensure_ready, call_bound, finish_call, tool_answered,
  tool_unanswered, check_ready, report_tool, unanswered_event, call_locked,
}
use dbgflow.Reverse.Manager.Health.{get_session}

-- The manager once the session's health was looked at.
abbrev pub looked : Outside → SessionId → IdaSessionManager → IdaSessionManager
looked o id m = (get_session o id (operation_lock id m).1).1

-- The answer is the supervisor's to the call that was made for the database of the session, with
-- the arguments as they were given, and the session was found ready before it.
pub record Answers (o : Outside) (tool : String) (request : UpstreamIdaToolRequest)
    (answer : IdaToolCallResult) (m : IdaSessionManager) (session : ReverseSession)
    (database : String) (result : SupervisorToolCallResult) : Type 0 where
  pub allowed : is_allowed_upstream_tool tool ≡ true
  pub plain : has_database request.arguments ≡ false
  pub found :
      (get_session o request.session_id (operation_lock request.session_id m).1).0 ≡ ok session
  pub ready : session.state ≡ ReverseSessionState.ready
  pub bound : lookup request.session_id (looked o request.session_id m).database_ids ≡ some database
  pub called :
      o.calls (looked o request.session_id m).ticks database tool request.arguments ≡ ok result
  pub succeeded : result.is_error ≡ false
  pub content : answer.result ≡ result.structured_content
  pub session_id : answer.session_id ≡ request.session_id

module _ (o : Outside) (tool : String) (request : UpstreamIdaToolRequest)
    (answer : IdaToolCallResult) where
  report_tool-ok :
      (result : SupervisorToolCallResult) (a : ArtifactRef) (ws : List Message)
      (m : IdaSessionManager)
      → (report_tool o tool request.session_id result a ws m).0 ≡ ok answer
      → (result.is_error ≡ false)
        × (answer.result ≡ result.structured_content)
        × (answer.session_id ≡ request.session_id)
  unfolding report_tool
  report_tool-ok result a ws m h = ground arith

  tool_answered-ok :
      (result : SupervisorToolCallResult) (m : IdaSessionManager)
      → (tool_answered o tool request result m).0 ≡ ok answer
      → (result.is_error ≡ false)
        × (answer.result ≡ result.structured_content)
        × (answer.session_id ≡ request.session_id)
  unfolding tool_answered
  tool_answered-ok result m h =
      let (output, _, h') =
        bind_ok (write_tool_output o request.session_id tool request.arguments result)
          (λ output. append_artifact_to_session o request.session_id output.0 >>= λ _.
            report_tool o tool request.session_id result output.0 output.1)
          m answer h in
      let (_, _, h'') =
        bind_ok (append_artifact_to_session o request.session_id output.0)
          (λ _. report_tool o tool request.session_id result output.0 output.1)
          (write_tool_output o request.session_id tool request.arguments result m).1 answer h' in
      report_tool-ok result output.0 output.1 _ h''

  tool_unanswered-err :
      (e : DbgFlowError) (m : IdaSessionManager)
      → (tool_unanswered o tool request e m).0 ≢ ok answer
  unfolding tool_unanswered
  tool_unanswered-err e m h =
      let (a, _, h') =
        bind_ok (write_tool_error_output o request.session_id tool request.arguments (of_error e))
          (λ a. append_artifact_to_session o request.session_id a >>= λ _.
            unanswered_event o tool request.session_id e a >>= λ _ n. (err e, n))
          m answer h in
      let (_, _, h'') =
        bind_ok (append_artifact_to_session o request.session_id a)
          (λ _. unanswered_event o tool request.session_id e a >>= λ _ n. (err e, n))
          (write_tool_error_output o request.session_id tool request.arguments (of_error e) m).1
          answer h' in
      let (_, _, h₃) =
        bind_ok (unanswered_event o tool request.session_id e a) (λ _ n. (err e, n))
          (append_artifact_to_session o request.session_id a
            (write_tool_error_output o request.session_id tool request.arguments (of_error e)
              m).1).1
          answer h'' in
      ground arith

  finish_call-ok :
      (r : Result SupervisorToolCallResult) (m : IdaSessionManager)
      → (finish_call o tool request r m).0 ≡ ok answer
      → (result : SupervisorToolCallResult) × (r ≡ ok result)
        × (result.is_error ≡ false)
        × (answer.result ≡ result.structured_content)
        × (answer.session_id ≡ request.session_id)
  unfolding finish_call
  finish_call-ok (ok result) m h =
      let (a, b, c) = tool_answered-ok result m h in (result, refl, a, b, c)
  finish_call-ok (err e) m h = absurd (tool_unanswered-err e m h)

  ready_state :
      (id : SessionId) (state : ReverseSessionState)
      → check_ready id tool state ≡ ok tt
      → state ≡ ReverseSessionState.ready
  unfolding check_ready
  ready_state id ReverseSessionState.ready h = refl
  ready_state id _ h = absurd (ground arith)

  bound_database :
      (id : SessionId) (m : IdaSessionManager) (d : String)
      → (database_id o id m).0 ≡ ok d
      → lookup id m.database_ids ≡ some d
  unfolding database_id
  bound_database id m d h = ground arith

guards :
    (o : Outside) (tool : String) (request : UpstreamIdaToolRequest) (answer : IdaToolCallResult)
    (m : IdaSessionManager)
    → (call_upstream_tool o tool request m).0 ≡ ok answer
    → (is_allowed_upstream_tool tool ≡ true)
      × (has_database request.arguments ≡ false)
      × ((call_locked o tool request (operation_lock request.session_id m).1).0 ≡ ok answer)
unfolding call_upstream_tool
guards o tool request answer m h = ground arith

call_locked-Answers :
    (o : Outside) (tool : String) (request : UpstreamIdaToolRequest) (answer : IdaToolCallResult)
    (m : IdaSessionManager)
    → is_allowed_upstream_tool tool ≡ true
    → has_database request.arguments ≡ false
    → (call_locked o tool request (operation_lock request.session_id m).1).0 ≡ ok answer
    → (session : ReverseSession) × (database : String) × (result : SupervisorToolCallResult)
      × Answers o tool request answer m session database result
unfolding call_locked ensure_ready call_bound
call_locked-Answers o tool request answer m allowed plain h =
    let id = request.session_id in
    let locked : IdaSessionManager = (operation_lock id m).1 in
    let bind_database : Op IdaToolCallResult =
      (database_id o id >>= λ database. call_bound o tool database request) in
    let check : ReverseSession → Result (Unit {0}) = λ session. check_ready id tool session.state in
    let (_, ready, h') = bind_ok (ensure_ready o id tool) (λ _. bind_database) locked answer h in
    let (session, found, is_ready) =
      bind_ok (get_session o id) (λ session n. (check session, n)) locked tt ready in
    let at_looked : (bind_database (looked o id m)).0 ≡ ok answer =
      rw (← bind-answer (get_session o id) check locked) h' in
    let (database, bound, h'') =
      bind_ok (database_id o id) (λ database. call_bound o tool database request) (looked o id m)
        answer at_looked in
    let unchanged : (database_id o id (looked o id m)).1 ≡ looked o id m =
      database_id_lem o id (looked o id m) in
    let called : (call_bound o tool database request (looked o id m)).0 ≡ ok answer =
      rw (← unchanged) h'' in
    let (result, answered, succeeded, content, answer_id) =
      finish_call-ok o tool request answer
        (o.calls (looked o id m).ticks database tool request.arguments)
        (wait o (call_database database tool request.arguments) (looked o id m)) called in
    (
      session,
      database,
      result,
      record {
        allowed = allowed;
        plain = plain;
        found = found;
        ready = ready_state o tool request answer id session.state is_ready;
        bound = bound_database o tool request answer id (looked o id m) database bound;
        called = answered;
        succeeded = succeeded;
        content = content;
        session_id = answer_id;
      },
    )

-- A tool call that answers was allowed and named no database of its own; the session was found
-- ready, and the answer is the supervisor's to the call of this tool with these arguments for the
-- database that is bound to the session, and no error of the tool.
pub call_upstream_tool-Answers :
    (o : Outside) (tool : String) (request : UpstreamIdaToolRequest) (answer : IdaToolCallResult)
    (m : IdaSessionManager)
    → (call_upstream_tool o tool request m).0 ≡ ok answer
    → (session : ReverseSession) × (database : String) × (result : SupervisorToolCallResult)
      × Answers o tool request answer m session database result
unfolding call_upstream_tool
call_upstream_tool-Answers o tool request answer m h =
    let (allowed, plain, h') = guards o tool request answer m h in
    call_locked-Answers o tool request answer m allowed plain h'
