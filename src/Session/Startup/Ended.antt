-- ===== src/Session/Startup/Ended.antt =====
-- How the startup thread of session/manager.rs ends.
use dbgflow.Prelude.{
  if◌then◌else◌, ℕ, ◌≡◌, refl, ap, ◌∙◌, Bool, true, false, ◌||◌, some, lookup, lookup-insert, arith,
  if_branch, option_branch, insert,
}
use dbgflow.Common.Error.{SessionId, DbgFlowError, Result, ok, err, result_branch}
use dbgflow.Session.State.{SessionState, is_closing, is_terminal}
use dbgflow.Session.Target.{DebugTarget, dump, attach, launch}
use dbgflow.Session.Operation.{Session}
use dbgflow.Session.Manager.{
  SessionManager, emit, close_worker, remove_worker, operation_lock, kill_once,
}
use dbgflow.Session.Registry.{WorkerId, insert_worker, is_cancel_requested}
use dbgflow.Session.Close.{finish_worker_close}
use dbgflow.Session.Close.Settled.{finish_worker_close-IsSettled, settled_state}
use dbgflow.Session.Startup.{
  WorkerSession, state_for_target, started_session, close_late_worker, finish_startup_ok,
  finish_startup_err, discard_worker, finish_worker_startup, register_worker, Launch,
  startup_thread, session_is_closing_or_terminal,
}
use dbgflow.Session.Lifecycle.Frame.{
  sessions-discard_worker, sessions-kill_once, sessions-spawn_worker_monitor,
}

-- The states that a startup can leave.
abbrev pub has_ended : SessionState → Bool
has_ended SessionState.break = true
has_ended SessionState.closed = true
has_ended SessionState.error = true
has_ended _ = false

-- The session's startup has ended.
abbrev pub IsEnded : SessionId → SessionManager → Type 0
IsEnded id n = (t : Session) × (lookup id n.sessions ≡ some t) × (has_ended t.state ≡ true)

has_ended-settled_state : (r : Result (Unit {0})) → has_ended (settled_state r) ≡ true
has_ended-settled_state (ok _) = refl
has_ended-settled_state (err e) = refl

closed-IsEnded :
    (id : SessionId) (r : Result (Unit {0})) (m : SessionManager) (s : Session)
    → lookup id m.sessions ≡ some s
    → IsEnded id (finish_worker_close id r m)
closed-IsEnded id r m s found =
    let h = finish_worker_close-IsSettled id r m s found in
    (_, h.entry, ap has_ended h.state ∙ has_ended-settled_state r)

late-IsEnded :
    (closed : Result (Unit {0})) (was_closing : Bool) (id : SessionId) (m : SessionManager)
    (s : Session)
    → lookup id m.sessions ≡ some s
    → (was_closing || has_ended s.state) ≡ true
    → IsEnded id (close_late_worker closed was_closing id m)
unfolding close_late_worker remove_worker
late-IsEnded closed true id m s found h =
    option_branch (IsEnded id) (lookup id m.workers.workers) _ _
      (λ _. closed-IsEnded id (ok tt) (remove_worker id m).1 s found)
      λ w _.
        if_branch (IsEnded id) (is_cancel_requested id m.workers) _ _
          (λ _. closed-IsEnded id (ok tt) (remove_worker id m).1 s found)
          (λ _. closed-IsEnded id closed (emit (close_worker w) (remove_worker id m).1) s found)
late-IsEnded closed false id m s found h =
    option_branch (IsEnded id) (lookup id m.workers.workers) _ _ (λ _. (s, found, h))
      λ w _.
        if_branch (IsEnded id) (is_cancel_requested id m.workers) _ _ (λ _. (s, found, h))
          (λ _. (s, found, h))

has_ended-terminal : (s : SessionState) → is_terminal s ≡ true → has_ended s ≡ true
unfolding is_terminal
has_ended-terminal s h = ground arith

over_state :
    (s : SessionState)
    → (is_terminal s || is_closing s) ≡ true
    → (is_closing s || has_ended s) ≡ true
unfolding is_terminal
over_state s h = ground arith

put_there :
    (id : SessionId) (t : Session) (m : SessionManager)
    → lookup id (insert id t m.sessions) ≡ some t
put_there id t m = ground (arith, lookup-insert id id t m.sessions)

failed-IsEnded :
    (e : DbgFlowError) (d : ℕ) (id : SessionId) (m : SessionManager) (s : Session)
    → lookup id m.sessions ≡ some s
    → IsEnded id (finish_startup_err e d id m)
unfolding finish_startup_err
failed-IsEnded e d id m s found =
    let m₁ = discard_worker id m in
    option_branch (IsEnded id) (lookup id m₁.sessions) _ _
      (λ missing. absurd (ground (arith, sessions-discard_worker id m)))
      λ x at.
        if_branch (IsEnded id) (is_closing x.state) _ _ (λ _. (_, put_there id _ m₁, refl))
          λ _.
            if_branch (IsEnded id) (is_terminal x.state) _ _
              (λ over. (x, at, has_ended-terminal x.state over)) (λ _. (_, put_there id _ m₁, refl))

started-ended :
    (ws : WorkerSession) (x : Session) (now : ℕ) → has_ended (started_session now ws x).state ≡ true
unfolding started_session state_for_target
started-ended ws x now = target_case x.target
  where
    target_case : (g : DebugTarget) → has_ended (state_for_target g) ≡ true
    target_case (dump p) = refl
    target_case (attach pid) = refl
    target_case (launch e xs) = refl

opened-IsEnded :
    (ws : WorkerSession) (closed : Result (Unit {0})) (d : ℕ) (id : SessionId) (m : SessionManager)
    (s : Session)
    → lookup id m.sessions ≡ some s
    → IsEnded id (finish_startup_ok ws closed d id m)
unfolding finish_startup_ok
opened-IsEnded ws closed d id m s found =
    option_branch (IsEnded id) (lookup id m.sessions) _ _ (λ missing. absurd (ground arith))
      λ x at.
        if_branch (IsEnded id) (is_terminal x.state || is_closing x.state) _ _
          (λ over. late-IsEnded closed (is_closing x.state) id m x at (over_state x.state over))
          (λ _. (
            _,
            ap (lookup id) (sessions-spawn_worker_monitor id _)
                ∙ put_there id (started_session m.clock ws x) m,
            started-ended ws x m.clock,
          ))

finished-IsEnded :
    (r : Result WorkerSession) (closed : Result (Unit {0})) (d : ℕ) (id : SessionId)
    (m : SessionManager) (s : Session)
    → lookup id m.sessions ≡ some s
    → IsEnded id (finish_worker_startup r closed d id m)
unfolding finish_worker_startup
finished-IsEnded (ok ws) closed d id m s found = opened-IsEnded ws closed d id m s found
finished-IsEnded (err e) closed d id m s found = failed-IsEnded e d id m s found

-- What registering the worker leads to.
abbrev Registered : SessionId → Session → Bool × SessionManager → Type 0
Registered id s (true, n) = lookup id n.sessions ≡ some s
Registered id s (false, n) = IsEnded id n

register_worker-Registered :
    (w : WorkerId) (id : SessionId) (m : SessionManager) (s : Session)
    → lookup id m.sessions ≡ some s
    → Registered id s (register_worker w id m)
unfolding register_worker
register_worker-Registered w id m s found =
    let m₁ : SessionManager = record m { workers = insert_worker id w m.workers } in
    let m₂ = kill_once id "startup_canceled_before_create" m₁ in
    if_branch (Registered id s) (session_is_closing_or_terminal id m₁) _ _
      (λ _.
        closed-IsEnded id (ok tt) m₂ s
          (ap (lookup id) (sessions-kill_once id "startup_canceled_before_create" m₁) ∙ found))
      (λ _. found)

after_register :
    (l : Launch) (id : SessionId) (s : Session) (x : Bool × SessionManager)
    → ((k : SessionManager) (x : Session)
        → lookup id k.sessions ≡ some x
        → (y : Session) × (lookup id (l.others k).sessions ≡ some y))
    → Registered id s x
    → IsEnded id (
        if x.0
        then finish_worker_startup l.created l.closed l.duration_ms id (l.others x.1)
        else x.1)
after_register l id s (true, n) others at =
    let (y, there) = others n s at in
    finished-IsEnded l.created l.closed l.duration_ms id (l.others n) y there
after_register l id s (false, n) others ended = ended

-- Whatever the launcher, the worker and the operation lock answer, and whatever the other threads
-- do in between that does not take the session out of the table, the startup thread of a session in
-- the table ends with the session in state `Break`, `Closed` or `Error`: it stays neither in
-- `Starting` nor in `Closing` behind it.
pub startup_thread-IsEnded :
    (l : Launch) (id : SessionId) (m : SessionManager) (s : Session)
    → ((k : SessionManager) (x : Session)
        → lookup id k.sessions ≡ some x
        → (y : Session) × (lookup id (l.others k).sessions ≡ some y))
    → lookup id m.sessions ≡ some s
    → IsEnded id (startup_thread l id m)
unfolding startup_thread
startup_thread-IsEnded l id m s others found =
    result_branch (IsEnded id) (operation_lock id m) _ _
      (λ e _. failed-IsEnded e l.duration_ms id m s found)
      λ _ _.
        if_branch (IsEnded id) l.lock_poisoned _ _
          (λ _. failed-IsEnded _ l.duration_ms id m s found)
          λ _.
            result_branch (IsEnded id) l.launched _ _
              (λ e _. failed-IsEnded e l.duration_ms id m s found)
              λ w _.
                after_register l id s (register_worker w id m) others
                  (register_worker-Registered w id m s found)
