-- ===== src/Session/Lifecycle/Edge.antt =====
-- The state machine of a session, as the code of session/manager.rs moves it.
use mathlib.Core.Bool.{false≢true}
use dbgflow.Prelude.{◌≡◌, refl, sym, ◌⊎◌, inl, inr, true, false, not, ◌&&◌, ◌||◌, none}
use dbgflow.Session.State.{
  SessionState, is_reusable, is_terminal, is_closing, is_closed, BackendExecutionState,
  session_state_for_backend_execution_state,
}
use dbgflow.Session.Operation.{Session}

-- A live session goes on, or is closing, closed or in error. A closing one ends closed or in
-- error. A closed one is opened again by a report of the backend, and a late close can turn it
-- into an error. One in error can be closed.
pub data Edge : SessionState → SessionState → Type 0 where
  stay : {s : SessionState} → Edge s s
  go_break : {s : SessionState} → is_reusable s ≡ true → Edge s SessionState.break
  go_running : {s : SessionState} → is_reusable s ≡ true → Edge s SessionState.running
  go_closing : {s : SessionState} → is_reusable s ≡ true → Edge s SessionState.closing
  go_closed : {s : SessionState} → is_reusable s ≡ true → Edge s SessionState.closed
  go_error : {s : SessionState} → is_reusable s ≡ true → Edge s SessionState.error
  close_done : Edge SessionState.closing SessionState.closed
  close_failed : Edge SessionState.closing SessionState.error
  reopen_break : Edge SessionState.closed SessionState.break
  reopen_running : Edge SessionState.closed SessionState.running
  late_failure : Edge SessionState.closed SessionState.error
  retry_close : Edge SessionState.error SessionState.closing
  error_closed : Edge SessionState.error SessionState.closed

pub ruleset edges = (
  stay, go_break, go_running, go_closing, go_closed, go_error, close_done, close_failed,
  reopen_break, reopen_running, late_failure, retry_close, error_closed,
)

-- A session that is closing or in error has no current operation.
abbrev pub IsQuiet : Session → Type 0
IsQuiet s =
    (s.state ≡ SessionState.closing) ⊎ (s.state ≡ SessionState.error) → s.current_operation ≡ none

-- What a section may do to a session.
pub record Update (s t : Session) : Type 0 where
  pub id : t.id ≡ s.id
  pub target : t.target ≡ s.target
  pub created : t.created_at_unix_ms ≡ s.created_at_unix_ms
  pub edge : Edge s.state t.state
  pub quiet : IsQuiet s → IsQuiet t

pub to_closed : (s : SessionState) → Edge s SessionState.closed
unfolding is_reusable
to_closed SessionState.created = search edges
to_closed _ = search edges

pub to_error : (s : SessionState) → Edge s SessionState.error
unfolding is_reusable
to_error SessionState.created = search edges
to_error _ = search edges

pub to_closing : (s : SessionState) → is_closed s ≡ false → Edge s SessionState.closing
unfolding is_reusable
to_closing SessionState.closed h = absurd (false≢true (sym h))
to_closing SessionState.created h = search edges
to_closing _ h = search edges

pub live-Edge :
    (s t : SessionState)
    → (is_terminal s || is_closing s) ≡ false
    → (t ≡ SessionState.break) ⊎ (t ≡ SessionState.error)
    → Edge s t
unfolding is_terminal is_reusable
live-Edge SessionState.closing t h k = absurd (false≢true (sym h))
live-Edge SessionState.closed t h k = absurd (false≢true (sym h))
live-Edge SessionState.error t h k = absurd (false≢true (sym h))
live-Edge SessionState.created t h (inl e) = rw e (go_break refl)
live-Edge SessionState.created t h (inr e) = rw e (go_error refl)
live-Edge _ t h (inl e) = rw e (go_break refl)
live-Edge _ t h (inr e) = rw e (go_error refl)

pub reported-Edge :
    (s : SessionState) (b : BackendExecutionState)
    → is_closing s ≡ false
    → (is_terminal s && not (is_closed s)) ≡ false
    → Edge s (session_state_for_backend_execution_state b)
unfolding is_terminal is_reusable session_state_for_backend_execution_state
reported-Edge SessionState.closing b h k = absurd (false≢true (sym h))
reported-Edge SessionState.error b h k = absurd (false≢true (sym k))
reported-Edge SessionState.created BackendExecutionState.break h k = search edges
reported-Edge _ BackendExecutionState.break h k = search edges
reported-Edge _ BackendExecutionState.running h k = search edges
reported-Edge _ BackendExecutionState.closed h k = search edges
