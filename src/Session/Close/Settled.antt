-- ===== src/Session/Close/Settled.antt =====
-- How a close of session/manager.rs leaves the session, on every branch.
use dbgflow.Prelude.{
  ℕ, String, ◌++◌, subst, inl, inr, Option-cases, Bool-cases, ◌≡◌, refl, ap, ◌∙◌, sym, Bool, true,
  false, Option, none, some, lookup, insert, lookup-insert, lookup-erase, arith, List, [], ◌∷◌, ◌≤◌,
  leb,
}
use dbgflow.Common.Error.{SessionId, Message, of_error, Result, ok, err, backend}
use dbgflow.Session.State.{SessionState}
use dbgflow.Session.Operation.{OperationStatus, OperationSummary, Session}
use dbgflow.Session.Registry
use dbgflow.Session.Registry.{WorkerId}
use dbgflow.Session.Manager.{SessionManager, worker, remove_worker, kill_once, close_worker, emit}
use dbgflow.Session.Close.{
  settle, finish_worker_close, LockOutcome, guarded, timed_out, lock_poisoned, close_thread,
  TryLock, acquired, would_block, poisoned, close_operation_wait_timeout, wait_for_operation,
}
use dbgflow.Session.Lifecycle.Frame.{sessions-kill_once}

abbrev pub is_open : Option OperationSummary → Bool
is_open none = false
is_open (some o) = elim o.status [
  | OperationStatus.running ↦ true
  | OperationStatus.cancel_requested ↦ true
  | _ ↦ false
]

-- The state and the error that an answer of the worker's `close` leads to.
abbrev pub settled_state : Result (Unit {0}) → SessionState
settled_state (ok _) = SessionState.closed
settled_state (err e) = SessionState.error

abbrev pub settled_error : Result (Unit {0}) → Option Message
settled_error (ok _) = none
settled_error (err e) = some (of_error e)

-- A session that has been closed, in the manager that holds it.
pub record IsSettled (id : SessionId) (r : Result (Unit {0})) (n : SessionManager) (t : Session)
    : Type 0 where
  pub entry : lookup id n.sessions ≡ some t
  pub state : t.state ≡ settled_state r
  pub error : t.error ≡ settled_error r
  pub idle : t.current_operation ≡ none
  pub ended : is_open t.last_operation ≡ false
  pub no_worker : worker id n ≡ none

settle-ended :
    (now : ℕ) (r : Result (Unit {0})) (s : Session)
    → is_open (settle now r s).0.last_operation ≡ false
unfolding settle
settle-ended now (ok _) s = ground arith
settle-ended now (err e) s = ground arith

settle-state :
    (now : ℕ) (r : Result (Unit {0})) (s : Session)
    → ((settle now r s).0.state ≡ settled_state r) × ((settle now r s).0.error ≡ settled_error r)
unfolding settle
settle-state now (ok _) s = (refl, refl)
settle-state now (err e) s = (refl, refl)

abbrev pub settled : ℕ → Result (Unit {0}) → Session → Session
settled now r s = record (settle now r s).0 { updated_at_unix_ms = now; current_operation = none }

finish_worker_close-sessions :
    (id : SessionId) (r : Result (Unit {0})) (m : SessionManager) (s : Session)
    → lookup id m.sessions ≡ some s
    → ((finish_worker_close id r m).sessions ≡ insert id (settled m.clock r s) m.sessions)
      × ((finish_worker_close id r m).workers ≡ (remove_worker id m).1.workers)
unfolding finish_worker_close
finish_worker_close-sessions id r m s found = ground arith

no_worker-remove : (id : SessionId) (m : SessionManager) → worker id (remove_worker id m).1 ≡ none
unfolding worker remove_worker
no_worker-remove id m = rw lookup-erase (ground arith)

pub finish_worker_close-IsSettled :
    (id : SessionId) (r : Result (Unit {0})) (m : SessionManager) (s : Session)
    → lookup id m.sessions ≡ some s
    → IsSettled id r (finish_worker_close id r m) (settled m.clock r s)
unfolding worker
finish_worker_close-IsSettled id r m s found =
    let (sessions, workers) = finish_worker_close-sessions id r m s found in
    record {
      entry = ground (arith, sessions, lookup-insert id id (settled m.clock r s) m.sessions);
      state = (settle-state m.clock r s).0;
      error = (settle-state m.clock r s).1;
      idle = refl;
      ended = settle-ended m.clock r s;
      no_worker = ap (Registry.get id) workers ∙ no_worker-remove id m;
    }

abbrev pub answer_of : Result (Unit {0}) → Option WorkerId → Result (Unit {0})
answer_of closed none = ok tt
answer_of closed (some w) = closed

-- What the close thread hands to `finish_worker_close`.
abbrev pub answer : LockOutcome → Result (Unit {0}) → SessionId → SessionManager → Result (Unit {0})
answer timed_out closed id m =
    err (backend "session operation did not finish after close cancellation")
answer lock_poisoned closed id m = err (backend "session operation lock poisoned")
answer guarded closed id m = answer_of closed (worker id m)

removed-worker : (id : SessionId) (m : SessionManager) → (remove_worker id m).0 ≡ worker id m
unfolding remove_worker worker
removed-worker id m = refl

clock-kill_once :
    (id : SessionId) (reason : String) (m : SessionManager)
    → (kill_once id reason m).clock ≡ m.clock
unfolding kill_once
clock-kill_once id reason m = ground arith

close_thread_bare :
    (closed : Result (Unit {0})) (id : SessionId) (m : SessionManager)
    → worker id m ≡ none
    → close_thread guarded closed id m ≡ finish_worker_close id (ok tt) (remove_worker id m).1
unfolding close_thread
close_thread_bare closed id m e = rw (removed-worker id m ∙ e, close_thread)

close_thread-worker :
    (closed : Result (Unit {0})) (id : SessionId) (m : SessionManager) (w : WorkerId)
    → worker id m ≡ some w
    → close_thread guarded closed id m
      ≡ finish_worker_close id closed (emit (close_worker w) (remove_worker id m).1)
unfolding close_thread
close_thread-worker closed id m w e = rw (removed-worker id m ∙ e, close_thread)

transfer :
    (id : SessionId) (s : Session) (now : ℕ) {r q : Result (Unit {0})} {n o : SessionManager}
    → r ≡ q
    → n ≡ o
    → IsSettled id r n (settled now r s)
    → IsSettled id q o (settled now q s)
transfer id s now {r} {q} {n} {o} p e h =
    subst (λ x. IsSettled id x o (settled now x s)) p
      (subst (λ x. IsSettled id r x (settled now r s)) e h)

-- The close thread ends with the session settled, whatever happens to it: closed without an error
-- if there is no worker or the worker closes, in error with the reason if the worker fails to
-- close, the operation lock is poisoned or the wait for it runs out. In each case the session has
-- no current operation, its last operation no longer runs, and no worker is registered for it.
pub close_thread-IsSettled :
    (outcome : LockOutcome) (closed : Result (Unit {0})) (id : SessionId) (m : SessionManager)
    (s : Session)
    → lookup id m.sessions ≡ some s
    → IsSettled id
        (answer outcome closed id m)
        (close_thread outcome closed id m)
        (settled m.clock (answer outcome closed id m) s)
unfolding remove_worker
close_thread-IsSettled timed_out closed id m s found =
    subst (λ c. IsSettled id r (close_thread timed_out closed id m) (settled c r s))
      (clock-kill_once id "close_operation_wait_timed_out" m)
      (unfold close_thread in
        finish_worker_close-IsSettled id r
          (remove_worker id (kill_once id "close_operation_wait_timed_out" m)).1 s
          (ap (lookup id) (sessions-kill_once id "close_operation_wait_timed_out" m) ∙ found))
  where
    r : Result (Unit {0})
    r = err (backend "session operation did not finish after close cancellation")
close_thread-IsSettled lock_poisoned closed id m s found =
    unfold close_thread in
    finish_worker_close-IsSettled id (err (backend "session operation lock poisoned")) m s found
close_thread-IsSettled guarded closed id m s found = elim (Option-cases (worker id m)) [
  | inl e ↦
      transfer id s m.clock (ap (answer_of closed) (sym e)) (sym (close_thread_bare closed id m e))
        (finish_worker_close-IsSettled id (ok tt) (remove_worker id m).1 s found)
  | inr (w, e) ↦
      transfer id s m.clock (ap (answer_of closed) (sym e))
        (sym (close_thread-worker closed id m w e))
        (finish_worker_close-IsSettled id closed (emit (close_worker w) (remove_worker id m).1) s
          found)
]

-- The wait of the close thread ends: if the attempts are at least one and the last of them comes
-- when the time is up, the thread has the lock, finds it poisoned, or has given up.
pub wait_for_operation_total :
    (attempts : List (TryLock × ℕ)) (last : TryLock × ℕ)
    → close_operation_wait_timeout ≤ last.1
    → (outcome : LockOutcome) × (wait_for_operation (attempts ++ last ∷ []) ≡ some outcome)
unfolding wait_for_operation
wait_for_operation_total [] (acquired, t) h = (guarded, refl)
wait_for_operation_total [] (poisoned, t) h = (lock_poisoned, refl)
wait_for_operation_total [] (would_block, t) h = (timed_out, ground arith)
wait_for_operation_total ((acquired, t) ∷ rest) last h = (guarded, refl)
wait_for_operation_total ((poisoned, t) ∷ rest) last h = (lock_poisoned, refl)
wait_for_operation_total ((would_block, t) ∷ rest) last h =
    elim (Bool-cases (leb close_operation_wait_timeout t)) [
      | inl up ↦ (timed_out, rw up)
      | inr early ↦ rw early (wait_for_operation_total rest last h)
    ]
