-- ===== src/Session/Lifecycle/Touch/Starting.antt =====
-- The sections of a startup write one session, along the state machine.
use dbgflow.Prelude.{
  ℕ, ◌≡◌, refl, inl, Bool, false, Option, none, some, ◌||◌, lookup, option_branch, if_branch,
}
use dbgflow.Common.Error.{SessionId, Message, of_error, DbgFlowError, Result, ok, err}
use dbgflow.Session.State.{SessionState, is_closing, is_terminal}
use dbgflow.Session.Operation.{Session}
use dbgflow.Session.Target.{DebugTarget, dump, attach, launch}
use dbgflow.Session.Registry
use dbgflow.Session.Registry.{WorkerId}
use dbgflow.Session.Manager.{SessionManager, close_worker, emit, remove_worker}
use dbgflow.Session.Close.{finish_worker_close}
use dbgflow.Session.Startup.{
  WorkerSession, state_for_target, started_session, close_late_worker, finish_startup_ok,
  fail_session, discard_worker, finish_startup_err, finish_worker_startup, register_worker,
  session_is_closing_or_terminal,
}
use dbgflow.Session.Lifecycle.Edge.{Edge, Update, to_closed, to_error, live-Edge}
use dbgflow.Session.Lifecycle.Frame.{
  sessions-kill_once, sessions-discard_worker, sessions-spawn_worker_monitor,
}
use dbgflow.Session.Lifecycle.Touch.Defs.{Touch, keeps, puts, Touches, Touch-after}
use dbgflow.Session.Lifecycle.Touch.Closing.{finish_worker_close-Touch}

pub state_for_target_lem : (t : DebugTarget) → state_for_target t ≡ SessionState.break
unfolding state_for_target
state_for_target_lem (dump p) = refl
state_for_target_lem (attach p) = refl
state_for_target_lem (launch e xs) = refl

close_late_worker-Touch :
    (closed : Result (Unit {0})) (was_closing : Bool) (id : SessionId) (m : SessionManager)
    → Touch id m (close_late_worker closed was_closing id m)
unfolding close_late_worker
close_late_worker-Touch closed was_closing id m =
    option_branch (Touch id m) (remove_worker id m).0 _ _
      (λ _. if_branch (Touch id m) was_closing _ _ (λ _. finish (ok tt)) (λ _. keeps refl))
      λ w _.
        if_branch (Touch id m) (Registry.is_cancel_requested id m.workers) _ _
          (λ _. if_branch (Touch id m) was_closing _ _ (λ _. finish (ok tt)) (λ _. keeps refl))
          λ _.
            if_branch (Touch id m) was_closing _ _
              (λ _.
                Touch-after {m' = emit (close_worker w) (remove_worker id m).1} refl
                  (finish_worker_close-Touch id closed _))
              (λ _. keeps refl)
  where
    finish : (r : Result (Unit {0})) → Touch id m (finish_worker_close id r (remove_worker id m).1)
    finish r = Touch-after {m' = (remove_worker id m).1} refl (finish_worker_close-Touch id r _)

started-Update :
    (now : ℕ) (ws : WorkerSession) (s : Session)
    → (is_terminal s.state || is_closing s.state) ≡ false
    → Update s (started_session now ws s)
unfolding started_session
started-Update now ws s live = record {
  id = refl;
  target = refl;
  created = refl;
  edge = live-Edge s.state (state_for_target s.target) live (inl (state_for_target_lem s.target));
  quiet = λ _ _. refl;
}

finish_startup_ok-Touch :
    (ws : WorkerSession) (closed : Result (Unit {0})) (d : ℕ) (id : SessionId) (m : SessionManager)
    → Touch id m (finish_startup_ok ws closed d id m)
unfolding finish_startup_ok
finish_startup_ok-Touch ws closed d id m =
    option_branch (Touch id m) (lookup id m.sessions) _ _
      (λ _. close_late_worker-Touch closed false id m)
      λ s found.
        if_branch (Touch id m) (is_terminal s.state || is_closing s.state) _ _
          (λ _. close_late_worker-Touch closed (is_closing s.state) id m)
          λ live.
            puts s (started_session m.clock ws s) found (started-Update m.clock ws s live)
              (sessions-spawn_worker_monitor id _)

fail-Update :
    (now : ℕ) (state : SessionState) (e : Option Message) (s : Session)
    → Edge s.state state
    → Update s (fail_session now state e s)
fail-Update now state e s edge = record {
  id = refl;
  target = refl;
  created = refl;
  edge = edge;
  quiet = λ _ _. refl;
}

finish_startup_err-Touch :
    (e : DbgFlowError) (d : ℕ) (id : SessionId) (m : SessionManager)
    → Touch id m (finish_startup_err e d id m)
unfolding finish_startup_err
finish_startup_err-Touch e d id m = Touch-after {m' = n} (sessions-discard_worker id m) after
  where
    n : SessionManager
    n = discard_worker id m

    after : Touch id n (finish_startup_err e d id m)
    after =
        option_branch (Touch id n) (lookup id n.sessions) _ _ (λ _. keeps refl)
          λ s found.
            if_branch (Touch id n) (is_closing s.state) _ _
              (λ _.
                puts s (fail_session n.clock SessionState.closed none s) found
                  (fail-Update n.clock SessionState.closed none s (to_closed s.state)) refl)
              λ _.
                if_branch (Touch id n) (is_terminal s.state) _ _ (λ _. keeps refl)
                  λ _.
                    puts s (fail_session n.clock SessionState.error (some (of_error e)) s) found
                      (fail-Update n.clock SessionState.error (some (of_error e)) s
                        (to_error s.state))
                      refl

pub finish_worker_startup-Touch :
    (r : Result WorkerSession) (closed : Result (Unit {0})) (d : ℕ) (id : SessionId)
    (m : SessionManager)
    → Touch id m (finish_worker_startup r closed d id m)
unfolding finish_worker_startup
finish_worker_startup-Touch (ok ws) closed d id m = finish_startup_ok-Touch ws closed d id m
finish_worker_startup-Touch (err e) closed d id m = finish_startup_err-Touch e d id m

pub register_worker-Touch :
    (w : WorkerId) (id : SessionId) (m : SessionManager)
    → Touches {A = Bool} id m (register_worker w id m)
unfolding register_worker
register_worker-Touch w id m =
    if_branch (Touches {A = Bool} id m) (session_is_closing_or_terminal id n) _ _
      (λ _. Touch-after {m' = n} refl (
        Touch-after (sessions-kill_once id "startup_canceled_before_create" n)
          (finish_worker_close-Touch id (ok tt) _)))
      (λ _. keeps refl)
  where
    n : SessionManager
    n = record m { workers = Registry.insert_worker id w m.workers }
