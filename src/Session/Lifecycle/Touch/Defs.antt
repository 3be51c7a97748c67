-- ===== src/Session/Lifecycle/Touch/Defs.antt =====
-- What a section of session/manager.rs does to the table of sessions.
use dbgflow.Prelude.{◌≡◌, sym, ap, ◌∙◌, some, lookup, insert}
use dbgflow.Common.Error.{SessionId}
use dbgflow.Session.Operation.{Session}
use dbgflow.Session.Manager.{SessionManager}
use dbgflow.Session.Lifecycle.Edge.{Update}

pub data Touch (id : SessionId) (m n : SessionManager) : Type 0 where
  keeps : n.sessions ≡ m.sessions → Touch id m n
  puts :
      (s t : Session)
      → lookup id m.sessions ≡ some s
      → Update s t
      → n.sessions ≡ insert id t m.sessions
      → Touch id m n

-- The same of a section with an answer.
abbrev pub Touches : {A : Type 0} → SessionId → SessionManager → A × SessionManager → Type 0
Touches id m r = Touch id m r.1

-- What came before it left the sessions alone.
pub Touch-after :
    {id : SessionId} {m m' n : SessionManager}
    → m'.sessions ≡ m.sessions
    → Touch id m' n
    → Touch id m n
Touch-after same (keeps e) = keeps (e ∙ same)
Touch-after {id} same (puts s t found u e) =
    puts s t (ap (lookup id) (sym same) ∙ found) u (e ∙ ap (insert id t) same)

-- What comes after it leaves the sessions alone.
pub Touch-before :
    {id : SessionId} {m n n' : SessionManager}
    → Touch id m n
    → n'.sessions ≡ n.sessions
    → Touch id m n'
Touch-before (keeps e) same = keeps (same ∙ e)
Touch-before (puts s t found u e) same = puts s t found u (same ∙ e)
