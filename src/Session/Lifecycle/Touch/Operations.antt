-- ===== src/Session/Lifecycle/Touch/Operations.antt =====
-- The sections of an eval and of the monitor write one session, along the state machine.
use dbgflow.Prelude.{
  ℕ, ◌≡◌, refl, ◌⊎◌, inl, inr, Bool, true, false, not, ◌&&◌, ◌||◌, some, lookup, arith,
  option_branch, if_branch,
}
use dbgflow.Common.Error.{SessionId, Message, Result}
use dbgflow.Session.State.{
  SessionState, is_closing, is_closed, is_terminal, is_reusable, BackendExecutionEvent,
  BackendExecutionState, session_state_for_backend_execution_state,
}
use dbgflow.Session.Operation.{OperationStatus, OperationSummary, Session}
use dbgflow.Session.Manager.{SessionManager}
use dbgflow.Session.Eval.Operation.{
  Ending, ignores_ending, ended_session, finish_operation, reported_session,
  apply_backend_execution_event, operating_session, start_operation,
}
use dbgflow.Session.Monitor.{lost_session, mark_worker_unavailable}
use dbgflow.Session.Lifecycle.Edge.{
  Edge, stay, go_break, go_running, go_closed, go_error, Update, reported-Edge, live-Edge,
}
use dbgflow.Session.Lifecycle.Frame.{
  sessions-audit_ending, id-finalize, target-finalize, created-finalize,
}
use dbgflow.Session.Lifecycle.Touch.Defs.{Touch, keeps, puts, Touches}

-- The endings that an eval asks for.
abbrev pub FromEval : SessionState → Ending → Type 0
FromEval s e =
    (e.state ≡ s)
    ⊎ (((b : BackendExecutionState) × (e.state ≡ session_state_for_backend_execution_state b))
        ⊎ ((e.state ≡ SessionState.error) × (e.status ≡ OperationStatus.failed)))

live_of_ending :
    (s : SessionState) (e : Ending)
    → ignores_ending s e ≡ false
    → (is_reusable s ≡ true) ⊎ ((s ≡ SessionState.closed) × (e.state ≡ SessionState.closed))
unfolding ignores_ending is_reusable is_terminal
live_of_ending s e h = ground arith

backend-Edge :
    (s : SessionState) (b : BackendExecutionState)
    → is_reusable s ≡ true
    → Edge s (session_state_for_backend_execution_state b)
unfolding session_state_for_backend_execution_state
backend-Edge s BackendExecutionState.break h = go_break h
backend-Edge s BackendExecutionState.running h = go_running h
backend-Edge s BackendExecutionState.closed h = go_closed h

pub ending-Edge :
    (s : SessionState) (e : Ending) → ignores_ending s e ≡ false → FromEval s e → Edge s e.state
ending-Edge s e h f = elim (live_of_ending s e h) [
  | inr (p, q) ↦ rw (p, q) stay
  | inl live ↦ elim f [
    | inl same ↦ rw same stay
    | inr (inl (b, q)) ↦ rw q (backend-Edge s b live)
    | inr (inr (q, _)) ↦ rw q (go_error live)
  ]
]

pub finish_operation-Touch :
    (id : SessionId) (e : Ending) (m : SessionManager)
    → ((s : Session) → lookup id m.sessions ≡ some s → FromEval s.state e)
    → Touches {A = Result Bool} id m (finish_operation id e m)
unfolding finish_operation
finish_operation-Touch id e m from =
    option_branch (Touches {A = Result Bool} id m) (lookup id m.sessions) _ _ (λ _. keeps refl)
      λ s found.
        if_branch (Touches {A = Result Bool} id m) (ignores_ending s.state e) _ _ (λ _. keeps refl)
          λ h.
            let t = ended_session m.clock e s in
            puts s t found
              (record {
                id = refl;
                target = refl;
                created = refl;
                edge = ending-Edge s.state e h (from s found);
                quiet = λ _ _. refl;
              })
              (sessions-audit_ending _ e s.state t _)

reported_state_ne :
    (b : BackendExecutionState)
    → (session_state_for_backend_execution_state b ≡ SessionState.closing)
      ⊎ (session_state_for_backend_execution_state b ≡ SessionState.error)
    → ⊥
unfolding session_state_for_backend_execution_state
reported_state_ne b h = ground arith

pub apply_backend_execution_event-Touch :
    (id : SessionId) (event : BackendExecutionEvent) (m : SessionManager)
    → Touches {A = Result (Unit {0})} id m (apply_backend_execution_event id event m)
unfolding apply_backend_execution_event
apply_backend_execution_event-Touch id event m =
    option_branch (Touches {A = Result (Unit {0})} id m) (lookup id m.sessions) _ _
      (λ _. keeps refl)
      λ s found.
        if_branch (Touches {A = Result (Unit {0})} id m) (is_closing s.state) _ _ (λ _. keeps refl)
          λ open_state.
            if_branch (Touches {A = Result (Unit {0})} id m)
              (is_terminal s.state && not (is_closed s.state)) _ _ (λ _. keeps refl)
              λ no_error.
                puts s
                  (reported_session m.clock (session_state_for_backend_execution_state event.state)
                    s)
                  found
                  (record {
                    id = refl;
                    target = refl;
                    created = refl;
                    edge = reported-Edge s.state event.state open_state no_error;
                    quiet = λ _ h. absurd (reported_state_ne event.state h);
                  })
                  refl

live_ne :
    (s t : SessionState)
    → (t ≡ SessionState.break) ⊎ (t ≡ s)
    → (is_terminal s || is_closing s) ≡ false
    → (t ≡ SessionState.closing) ⊎ (t ≡ SessionState.error)
    → ⊥
unfolding is_terminal
live_ne s t e live h = ground arith

started-Edge :
    (s t : SessionState)
    → (t ≡ SessionState.break) ⊎ (t ≡ s)
    → (is_terminal s || is_closing s) ≡ false
    → Edge s t
started-Edge s t (inl e) live = rw e (live-Edge s SessionState.break live (inl refl))
started-Edge s t (inr e) live = rw e stay

pub start_operation-Touch :
    (id : SessionId) (state : SessionState) (o : OperationSummary) (m : SessionManager)
    → ((s : Session)
        → lookup id m.sessions ≡ some s
        → (state ≡ SessionState.break) ⊎ (state ≡ s.state))
    → Touches {A = Result (Unit {0})} id m (start_operation id state o m)
unfolding start_operation
start_operation-Touch id state o m was_read =
    option_branch (Touches {A = Result (Unit {0})} id m) (lookup id m.sessions) _ _
      (λ _. keeps refl)
      λ s found.
        if_branch (Touches {A = Result (Unit {0})} id m) (is_terminal s.state || is_closing s.state)
          _ _ (λ _. keeps refl)
          λ live.
            puts s (operating_session m.clock state o s) found
              (record {
                id = refl;
                target = refl;
                created = refl;
                edge = started-Edge s.state state (was_read s found) live;
                quiet = λ _ h. absurd (live_ne s.state state (was_read s found) live h);
              })
              refl

lost-Update :
    (now : ℕ) (e : Message) (s : Session)
    → (is_terminal s.state || is_closing s.state) ≡ false
    → Update s (lost_session now e s).0
unfolding lost_session
lost-Update now e s live = record {
  id = id-finalize now OperationStatus.failed e s;
  target = target-finalize now OperationStatus.failed e s;
  created = created-finalize now OperationStatus.failed e s;
  edge = live-Edge s.state SessionState.error live (inr refl);
  quiet = λ _ _. refl;
}

or_false_comm : (a b : Bool) → (a || b) ≡ false → (b || a) ≡ false
or_false_comm a b h = ground arith

pub mark_worker_unavailable-Touch :
    (id : SessionId) (e : Message) (m : SessionManager)
    → Touch id m (mark_worker_unavailable id e m)
unfolding mark_worker_unavailable
mark_worker_unavailable-Touch id e m =
    option_branch (Touch id m) (lookup id m.sessions) _ _ (λ _. keeps refl)
      λ s found.
        if_branch (Touch id m) (is_closing s.state || is_terminal s.state) _ _ (λ _. keeps refl)
          λ live.
            puts s (lost_session m.clock e s).0 found
              (lost-Update m.clock e s
                (or_false_comm (is_closing s.state) (is_terminal s.state) live))
              (ground arith)
