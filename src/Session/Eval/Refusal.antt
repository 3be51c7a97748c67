-- ===== src/Session/Eval/Refusal.antt =====
-- How an eval of session/manager.rs begins, whatever other threads do to the manager meanwhile.
use dbgflow.Prelude.{◌⊎◌, ℕ, ◌≡◌, true, false, ◌||◌, some, lookup, is_some, is_blank, codes}
use dbgflow.Common.Error.{Result, ok, err}
use dbgflow.Session.State.{SessionState, is_terminal, is_closing}
use dbgflow.Session.Operation.{Session}
use dbgflow.Session.Manager.{SessionManager, worker}
use dbgflow.Session.Eval.Operation.{operating_session}
use dbgflow.Session.Eval.Run.{EvalSession, Between, new_operation}

-- The manager at the three calls of an eval that begins, after what the other threads did.
abbrev pub locked : Between → SessionManager → SessionManager
locked b m = b.after_lock m

abbrev pub read : Between → SessionManager → SessionManager
read b m = b.after_query (locked b m)

abbrev pub ready : Between → SessionManager → SessionManager
ready b m = b.after_worker (read b m)

-- The table and the workers are as the other threads left them.
pub record IsRefused (b : Between) (m n : SessionManager) : Type 0 where
  pub left : SessionManager
  pub when : (left ≡ m) ⊎ ((left ≡ locked b m) ⊎ ((left ≡ read b m) ⊎ (left ≡ ready b m)))
  pub table : n.sessions ≡ left.sessions
  pub workers : n.workers ≡ left.workers

-- The session took the eval, which found it in state `s`, and finds it as `now` at its start.
pub record IsTaken (b : Between) (c : ℕ) (request : EvalSession) (m n : SessionManager)
    (s : Session) : Type 0 where
  pub named : is_blank (codes request.command) ≡ false
  pub before : lookup request.session_id (locked b m).sessions ≡ some s
  pub accepts : (s.state ≡ SessionState.break) ⊎ (s.state ≡ SessionState.ready)
  pub has_worker : is_some (worker request.session_id (read b m)) ≡ true
  pub now : Session
  pub stands : lookup request.session_id (ready b m).sessions ≡ some now
  pub after :
      (((is_terminal now.state || is_closing now.state) ≡ false)
        × (lookup request.session_id n.sessions
            ≡ some (
                operating_session
                  (ready b m).clock
                  s.state
                  (new_operation (ready b m).clock c request.command)
                  now)))
      ⊎ (((is_terminal now.state || is_closing now.state) ≡ true) × (n ≡ ready b m))

-- What the answer of the beginning of an eval says of the managers before and after.
abbrev pub Begun :
    Between → ℕ → EvalSession → SessionManager → SessionManager → Result Session → Type 0
Begun b c request m n (err e) = IsRefused b m n
Begun b c request m n (ok s) = IsTaken b c request m n s
