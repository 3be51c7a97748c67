-- ===== src/Session/Lifecycle/Reopen.antt =====
-- What a report of the backend does to a closed session of session/manager.rs.
use dbgflow.Prelude.{
  ℕ, ◌≡◌, refl, ◌≢◌, true, none, some, lookup, lookup-insert, insert, values, arith,
}
use dbgflow.Common.Error.{SessionId}
use dbgflow.Session.State.{
  SessionState, BackendExecutionState, BackendExecutionEvent, is_reusable,
  session_state_for_backend_execution_state,
}
use dbgflow.Session.Target.{DebugTarget}
use dbgflow.Session.Operation.{Session}
use dbgflow.Session.Manager.{SessionManager}
use dbgflow.Session.Create.{written, find_reusable, starting_session, create_new, get_or_create}
use dbgflow.Session.Eval.Operation.{reported_session, apply_backend_execution_event}
use dbgflow.Session.Lifecycle.Unique.{HasUniqueTargets}

-- A report takes a closed session to the reported state.
sessions-report_closed :
    (i : SessionId) (event : BackendExecutionEvent) (m : SessionManager) (s : Session)
    → lookup i m.sessions ≡ some s
    → s.state ≡ SessionState.closed
    → (apply_backend_execution_event i event m).1.sessions
      ≡ insert i
          (reported_session m.clock (session_state_for_backend_execution_state event.state) s)
          m.sessions
unfolding apply_backend_execution_event
sessions-report_closed i event m s found h = ground arith

-- A creation for a target that has no session in use enters the new session.
sessions-create_new :
    (j : SessionId) (m : SessionManager) (t : DebugTarget)
    → find_reusable t (values m.sessions) ≡ none
    → (get_or_create written j t m).1.sessions ≡ insert j (starting_session j m.clock t) m.sessions
unfolding get_or_create
sessions-create_new j m t h = rw (h, get_or_create) (unfold create_new in refl)

break_reusable :
    (now : ℕ) (event : BackendExecutionEvent) (s : Session)
    → event.state ≡ BackendExecutionState.break
    → is_reusable
        (reported_session now (session_state_for_backend_execution_state event.state) s).state
      ≡ true
unfolding is_reusable reported_session session_state_for_backend_execution_state
break_reusable now event s h = ground arith

starting_reusable :
    (j now : ℕ) (t : DebugTarget) → is_reusable (starting_session j now t).state ≡ true
unfolding is_reusable starting_session
starting_reusable j now t = refl

-- When a closed session's target has no session in use, a session is created for the target under a
-- new id, and a report `Break` of the closed session's backend comes in afterwards, then two
-- sessions can be used again for the one target.
pub reopened_twin :
    (i j : SessionId) (m : SessionManager) (s : Session) (event : BackendExecutionEvent)
    → lookup i m.sessions ≡ some s
    → s.state ≡ SessionState.closed
    → event.state ≡ BackendExecutionState.break
    → find_reusable s.target (values m.sessions) ≡ none
    → lookup j m.sessions ≡ none
    → ¬ HasUniqueTargets
        (apply_backend_execution_event i event (get_or_create written j s.target m).1).1
unfolding reported_session starting_session
reopened_twin i j m s event found shut break_event none_found fresh unique = absurd (
    apart (
      unique i j old young at_i at_j (break_reusable made.clock event s break_event)
        (starting_reusable j m.clock s.target) refl))
  where
    made : SessionManager
    made = (get_or_create written j s.target m).1

    entered : made.sessions ≡ insert j (starting_session j m.clock s.target) m.sessions
    entered = sessions-create_new j m s.target none_found

    old : Session
    old = reported_session made.clock (session_state_for_backend_execution_state event.state) s

    young : Session
    young = starting_session j m.clock s.target

    apart : i ≢ j
    apart e = ground arith

    still : lookup i made.sessions ≡ some s
    still = ground (arith, lookup-insert j i young m.sessions, entered, apart)

    reported : (apply_backend_execution_event i event made).1.sessions ≡ insert i old made.sessions
    reported = sessions-report_closed i event made s still shut

    at_i : lookup i (apply_backend_execution_event i event made).1.sessions ≡ some old
    at_i = ground (arith, reported, lookup-insert i i old made.sessions)

    at_j : lookup j (apply_backend_execution_event i event made).1.sessions ≡ some young
    at_j = ground (
      arith,
      reported,
      lookup-insert i j old made.sessions,
      entered,
      lookup-insert j j young m.sessions,
      apart,
    )
