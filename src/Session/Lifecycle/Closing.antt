-- ===== src/Session/Lifecycle/Closing.antt =====
-- A close of session/manager.rs among the sections of all the other threads.
use dbgflow.Prelude.{◌≡◌, ◌⊎◌, true, false, none, some, is_some, lookup}
use dbgflow.Common.Error.{SessionId}
use dbgflow.Session.State.{SessionState}
use dbgflow.Session.Operation.{Session}
use dbgflow.Session.Manager.{SessionManager, worker}
use dbgflow.Session.Close.Settled.{is_open}
use dbgflow.Session.Lifecycle.Steps.{Step}

-- Any number of sections, one after the other.
pub data Steps (m : SessionManager) : SessionManager → Type 0 where
  none_yet : Steps m m
  and_then : {n k : SessionManager} → Steps m n → Step n k → Steps m k

-- The session is there still, with what it keeps for its life.
pub record IsKept (id : SessionId) (s : Session) (n : SessionManager) (t : Session) : Type 0 where
  pub entry : lookup id n.sessions ≡ some t
  pub same_id : t.id ≡ s.id
  pub target : t.target ≡ s.target
  pub created : t.created_at_unix_ms ≡ s.created_at_unix_ms

-- The close has come to its end.
pub record IsOver (id : SessionId) (s : Session) (n : SessionManager) : Type 0 where
  pub session : Session
  pub kept : IsKept id s n session
  pub state :
      ((session.state ≡ SessionState.closed) × (session.error ≡ none))
      ⊎ ((session.state ≡ SessionState.error) × (is_some session.error ≡ true))
  pub idle : session.current_operation ≡ none
  pub ended : is_open session.last_operation ≡ false
  pub no_worker : worker id n ≡ none
