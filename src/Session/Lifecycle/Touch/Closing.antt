-- ===== src/Session/Lifecycle/Touch/Closing.antt =====
-- The sections of a close write one session, along the state machine.
use dbgflow.Prelude.{
  ℕ, ◌≡◌, refl, Bool, false, none, ◌||◌, lookup, arith, option_branch, if_branch, is_some,
}
use dbgflow.Common.Error.{SessionId, text, of_error, Result, ok, err, backend}
use dbgflow.Session.State.{is_closing, is_closed}
use dbgflow.Session.Operation.{OperationStatus, Session}
use dbgflow.Session.Manager.{SessionManager, close_worker, emit, remove_worker}
use dbgflow.Session.Close.{
  settle, finish_worker_close, closing_session, request_close, LockOutcome, guarded, timed_out,
  lock_poisoned, close_thread,
}
use dbgflow.Session.Lifecycle.Edge.{Edge, Update, to_closed, to_error, to_closing}
use dbgflow.Session.Lifecycle.Frame.{
  id-finalize, target-finalize, created-finalize, sessions-kill_once,
}
use dbgflow.Session.Lifecycle.Touch.Defs.{Touch, keeps, puts, Touches, Touch-after}

abbrev final_session : ℕ → Result (Unit {0}) → Session → Session
final_session now r s = record (settle now r s).0 {
  updated_at_unix_ms = now;
  current_operation = none;
}

settle-Update : (now : ℕ) (r : Result (Unit {0})) (s : Session) → Update s (final_session now r s)
unfolding settle
settle-Update now (ok _) s = record {
  id = id-finalize now OperationStatus.canceled (text "operation canceled by close_session") s;
  target =
      target-finalize now OperationStatus.canceled (text "operation canceled by close_session") s;
  created =
      created-finalize now OperationStatus.canceled (text "operation canceled by close_session") s;
  edge = to_closed s.state;
  quiet = λ _ _. refl;
}
settle-Update now (err e) s = record {
  id = id-finalize now OperationStatus.failed (of_error e) s;
  target = target-finalize now OperationStatus.failed (of_error e) s;
  created = created-finalize now OperationStatus.failed (of_error e) s;
  edge = to_error s.state;
  quiet = λ _ _. refl;
}

pub finish_worker_close-Touch :
    (id : SessionId) (r : Result (Unit {0})) (m : SessionManager)
    → Touch id m (finish_worker_close id r m)
unfolding finish_worker_close
finish_worker_close-Touch id r m =
    option_branch (Touch id m) (lookup id m.sessions) _ _ (λ _. keeps refl)
      λ s found. puts s (final_session m.clock r s) found (settle-Update m.clock r s) (ground arith)

closing-Update :
    (now : ℕ) (has_worker : Bool) (s : Session)
    → is_closed s.state ≡ false
    → Update s (closing_session now has_worker s).0
unfolding closing_session
closing-Update now has_worker s h = record {
  id = refl;
  target = refl;
  created = refl;
  edge =
      if_branch (Edge s.state) (has_worker || is_some s.current_operation) _ _
        (λ _. to_closing s.state h) (λ _. to_closed s.state);
  quiet = λ _ _. refl;
}

pub request_close-Touch :
    (has_worker : Bool) (id : SessionId) (m : SessionManager)
    → Touches {A = Result Session} id m (request_close has_worker id m)
unfolding request_close
request_close-Touch has_worker id m =
    option_branch (Touches {A = Result Session} id m) (lookup id m.sessions) _ _ (λ _. keeps refl)
      λ s found.
        if_branch (Touches {A = Result Session} id m) (is_closed s.state) _ _ (λ _. keeps refl)
          λ not_closed.
            if_branch (Touches {A = Result Session} id m) (is_closing s.state) _ _ (λ _. keeps refl)
              λ not_closing.
                puts s (closing_session m.clock has_worker s).0 found
                  (closing-Update m.clock has_worker s not_closed) (ground arith)

pub close_thread-Touch :
    (outcome : LockOutcome) (closed : Result (Unit {0})) (id : SessionId) (m : SessionManager)
    → Touch id m (close_thread outcome closed id m)
unfolding close_thread remove_worker
close_thread-Touch timed_out closed id m =
    Touch-after (sessions-kill_once id "close_operation_wait_timed_out" m) (
      finish_worker_close-Touch id
        (err (backend "session operation did not finish after close cancellation")) _)
close_thread-Touch lock_poisoned closed id m =
    finish_worker_close-Touch id (err (backend "session operation lock poisoned")) m
close_thread-Touch guarded closed id m =
    option_branch (Touch id m) (remove_worker id m).0 _ _
      (λ _. Touch-after {m' = (remove_worker id m).1} refl (finish_worker_close-Touch id (ok tt) _))
      λ w _.
        Touch-after {m' = emit (close_worker w) (remove_worker id m).1} refl
          (finish_worker_close-Touch id closed _)
