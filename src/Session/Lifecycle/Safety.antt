-- ===== src/Session/Lifecycle/Safety.antt =====
-- What every interleaving of the sections of session/manager.rs keeps.
use mathlib.Core.Path.{subst}
use dbgflow.Prelude.{
  ℕ, ◌≡◌, refl, ap, ◌∙◌, ◌⊎◌, inl, inr, ◌≢◌, none, some, lookup, insert, lookup-insert, arith,
  Option-cases, values, [],
}
use native.Mathlib.Decide.{ℕ_discrete}
use mathlib.Core.List.{List}
use dbgflow.Common.Error.{SessionId}
use dbgflow.Session.State.{SessionState}
use dbgflow.Session.Artifact.{FilePath}
use dbgflow.Session.Operation.{Session}
use dbgflow.Session.Manager.{SessionManager, new}
use dbgflow.Session.Create.{starting_session, find_reusable}
use dbgflow.Session.Lifecycle.Edge.{
  Edge, Update, IsQuiet, stay, go_break, go_running, go_closing, go_closed, go_error, close_done,
  close_failed, reopen_break, reopen_running, late_failure, retry_close, error_closed,
}
use dbgflow.Session.Lifecycle.Steps.{Step, Reach, begun, next}
use dbgflow.Session.Lifecycle.Touch.Defs.{keeps, puts}
use dbgflow.Session.Lifecycle.Changes.{Change, touched, made, Step-Change}

Update-refl : (s : Session) → Update s s
Update-refl s = record { id = refl; target = refl; created = refl; edge = stay; quiet = λ q. q }

-- A session after a write at `k`.
insert-at :
    (k j : SessionId) (v : Session) (m : List (SessionId × Session))
    → k ≡ j
    → lookup j (insert k v m) ≡ some v
insert-at k j v m e = rw lookup-insert (ground arith)

insert-elsewhere :
    (k j : SessionId) (v : Session) (m : List (SessionId × Session))
    → k ≢ j
    → lookup j (insert k v m) ≡ lookup j m
insert-elsewhere k j v m e = rw lookup-insert (ground arith)

same_value :
    (k j : SessionId) (a b : Session) (m : List (SessionId × Session))
    → lookup k m ≡ some a
    → lookup j m ≡ some b
    → k ≡ j
    → a ≡ b
same_value k j a b m p q e = ground arith

not_absent :
    (k j : SessionId) (b : Session) (m : List (SessionId × Session))
    → lookup k m ≡ none
    → lookup j m ≡ some b
    → k ≢ j
not_absent k j b m p q e = ground arith

Change-Update :
    {m n : SessionManager}
    → Change m n
    → (id : SessionId) (s : Session) → lookup id m.sessions ≡ some s
    → (t : Session) × (lookup id n.sessions ≡ some t) × Update s t
Change-Update (touched k (keeps e)) id s found = (s, ap (lookup id) e ∙ found, Update-refl s)
Change-Update {m} (touched k (puts s' t at u e)) id s found = elim (ℕ_discrete k id) [
  | yes same ↦ (
    t,
    ap (lookup id) e ∙ insert-at k id t m.sessions same,
    subst (λ x. Update x t) (same_value k id s' s m.sessions at found same) u,
  )
  | no other ↦
      (s, ap (lookup id) e ∙ (insert-elsewhere k id t m.sessions other ∙ found), Update-refl s)
]
Change-Update {m} (made k t absent h e) id s found = (
  s,
  ap (lookup id) e
      ∙ (insert-elsewhere k id (starting_session k m.clock t) m.sessions
            (not_absent k id s m.sessions absent found)
          ∙ found),
  Update-refl s,
)

-- No section of the manager takes a session out of the table. It keeps the session's id, its
-- target and its time of creation, moves its state along an edge of the state machine (`Edge`)
-- or not at all, and leaves a session that is closing or in error without a current operation,
-- if it was so before.
pub Step-Update :
    {m n : SessionManager}
    → Step m n
    → (id : SessionId) (s : Session) → lookup id m.sessions ≡ some s
    → (t : Session) × (lookup id n.sessions ≡ some t) × Update s t
Step-Update st = Change-Update (Step-Change st)

-- A session that is new in the table was made there, for a target that had no reusable session.
Change-born :
    {m n : SessionManager}
    → Change m n
    → (id : SessionId) (t : Session) → lookup id m.sessions ≡ none
    → lookup id n.sessions ≡ some t
    → (t ≡ starting_session id m.clock t.target)
      × (find_reusable t.target (values m.sessions) ≡ none)
unfolding starting_session
Change-born {m} (touched k (keeps e)) id t absent found = absurd (ground arith)
Change-born {m} {n} (touched k (puts s t' at u e)) id t absent found =
    absurd (ground (arith, lookup-insert k id t' m.sessions))
Change-born {m} {n} (made k t' none_there h e) id t absent found =
    let same : starting_session k m.clock t' ≡ t =
      ground (arith, lookup-insert k id (starting_session k m.clock t') m.sessions) in
    let key : k ≡ id =
      ground (arith, lookup-insert k id (starting_session k m.clock t') m.sessions) in
    (ground arith, ground arith)

-- What a session is when it comes into being.
pub record IsBorn (id : SessionId) (m : SessionManager) (t : Session) : Type 0 where
  pub keyed : t.id ≡ id
  pub starting : t.state ≡ SessionState.starting
  pub operation : t.current_operation ≡ some "create_session"
  pub last : t.last_operation ≡ none
  pub no_backend : t.backend_session_id ≡ none
  pub no_error : t.error ≡ none
  pub no_warning : t.warnings ≡ []
  pub created : t.created_at_unix_ms ≡ m.clock
  pub updated : t.updated_at_unix_ms ≡ m.clock
  pub target_unused : find_reusable t.target (values m.sessions) ≡ none

starting-IsBorn :
    (id : SessionId) (m : SessionManager) (t : Session)
    → t ≡ starting_session id m.clock t.target
    → find_reusable t.target (values m.sessions) ≡ none
    → IsBorn id m t
unfolding starting_session
starting-IsBorn id m t e unused = record {
  keyed = ground arith;
  starting = ground arith;
  operation = ground arith;
  last = ground arith;
  no_backend = ground arith;
  no_error = ground arith;
  no_warning = ground arith;
  created = ground arith;
  updated = ground arith;
  target_unused = unused;
}

-- Whatever section of the manager brings a new session into the table: no session for its target
-- could be used again before, and the session stands under its own id, in state `Starting`, with
-- `create_session` as its operation, with no operation before it, no session of a backend, no error
-- and no warning, created and updated at this instant.
pub Step-IsBorn :
    {m n : SessionManager}
    → Step m n
    → (id : SessionId) (t : Session) → lookup id m.sessions ≡ none
    → lookup id n.sessions ≡ some t
    → IsBorn id m t
Step-IsBorn {m} st id t absent found =
    let (e, unused) = Change-born (Step-Change st) id t absent found in
    starting-IsBorn id m t e unused

-- What holds of every session of a reachable manager.
pub record IsSound (id : SessionId) (s : Session) : Type 0 where
  pub keyed : s.id ≡ id
  pub quiet : IsQuiet s
  pub not_created : s.state ≢ SessionState.created
  pub not_ready : s.state ≢ SessionState.ready

Edge-state :
    {a b : SessionState} (c : SessionState)
    → Edge a b
    → (c ≡ SessionState.created) ⊎ (c ≡ SessionState.ready)
    → a ≢ c
    → b ≢ c
Edge-state c stay h k = k
Edge-state c (go_break _) h k = ground arith
Edge-state c (go_running _) h k = ground arith
Edge-state c (go_closing _) h k = ground arith
Edge-state c (go_closed _) h k = ground arith
Edge-state c (go_error _) h k = ground arith
Edge-state c close_done h k = ground arith
Edge-state c close_failed h k = ground arith
Edge-state c reopen_break h k = ground arith
Edge-state c reopen_running h k = ground arith
Edge-state c late_failure h k = ground arith
Edge-state c retry_close h k = ground arith
Edge-state c error_closed h k = ground arith

Update-IsSound : (id : SessionId) {s t : Session} → Update s t → IsSound id s → IsSound id t
Update-IsSound id u h = record {
  keyed = u.id ∙ h.keyed;
  quiet = u.quiet h.quiet;
  not_created = Edge-state SessionState.created u.edge (inl refl) h.not_created;
  not_ready = Edge-state SessionState.ready u.edge (inr refl) h.not_ready;
}

starting-IsSound : (id now : ℕ) (t : Session) → t ≡ starting_session id now t.target → IsSound id t
unfolding starting_session
starting-IsSound id now t e = record {
  keyed = ground arith;
  quiet = λ h. ground arith;
  not_created = ground arith;
  not_ready = ground arith;
}

empty-IsSound :
    (now : ℕ) (root : FilePath) (id : SessionId) (s : Session)
    → lookup id (new now root).sessions ≡ some s
    → IsSound id s
unfolding new lookup
empty-IsSound now root id s found = absurd (ground arith)

Step-IsSound :
    {m n : SessionManager}
    → Step m n
    → ((id : SessionId) (s : Session) → lookup id m.sessions ≡ some s → IsSound id s)
    → (id : SessionId) (t : Session) → lookup id n.sessions ≡ some t
    → IsSound id t
Step-IsSound {m} {n} st sound id t found = elim (Option-cases (lookup id m.sessions)) [
  | inl absent ↦ starting-IsSound id m.clock t (Change-born (Step-Change st) id t absent found).0
  | inr (s, at) ↦
      let (t', at', u) = Step-Update st id s at in
      subst (IsSound id) (same_value id id t' t n.sessions at' found refl)
        (Update-IsSound id u (sound id s at))
]

-- In every state that the manager reaches, each session stands under its own id, has no current
-- operation while it is closing or in error, and is neither in state `Created` nor in state
-- `Ready`: no section of the code ever enters these two states.
pub Reach-IsSound :
    {now : ℕ} {root : FilePath} {m : SessionManager}
    → Reach now root m
    → (id : SessionId) (s : Session) → lookup id m.sessions ≡ some s
    → IsSound id s
Reach-IsSound {now} {root} begun = empty-IsSound now root
Reach-IsSound (next r st) = Step-IsSound st (Reach-IsSound r)
