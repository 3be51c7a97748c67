-- ===== src/Session/Create/Reuse.antt =====
-- Get or create: `create_session` of session/manager.rs, called again for the same target.
use dbgflow.Prelude.{
  ℕ, ◌≡◌, refl, Bool, true, false, ◌&&◌, none, some, List, [], ◌∷◌, lookup, insert, values, arith,
  Option-cases, inl, inr,
}
use dbgflow.Common.Error.{SessionId, ok}
use dbgflow.Session.State.{is_reusable}
use dbgflow.Session.Target.{DebugTarget, target_eq, target_eq_iff}
use dbgflow.Session.Operation.{Session}
use dbgflow.Session.Manager.{SessionManager}
use dbgflow.Session.Create.{
  AuditDisk, written, no_directory, no_event, no_transcript, find_reusable, starting_session,
  create_new, get_or_create,
}

abbrev fits : DebugTarget → Session → Bool
fits t s = target_eq s.target t && is_reusable s.state

-- A session that is found has the target and can be used again.
find_reusable-fits :
    (t : DebugTarget) (ss : List Session) (s : Session)
    → find_reusable t ss ≡ some s
    → fits t s ≡ true
unfolding find_reusable
find_reusable-fits t [] s h = absurd (ground arith)
find_reusable-fits t (x ∷ ss) s h = ground (arith, find_reusable-fits t ss s)

-- If none was found, no session of the table fits.
pub find_reusable-none :
    (t : DebugTarget) (j : SessionId) (s : Session) (m : List (SessionId × Session))
    → find_reusable t (values m) ≡ none
    → lookup j m ≡ some s
    → fits t s ≡ false
unfolding find_reusable values lookup
find_reusable-none t j s [] h found = absurd (ground arith)
find_reusable-none t j s ((i, x) ∷ m) h found = ground (arith, find_reusable-none t j s m)

find_reusable-insert :
    (t : DebugTarget) (k : SessionId) (v : Session) (m : List (SessionId × Session))
    → find_reusable t (values m) ≡ none
    → fits t v ≡ true
    → find_reusable t (values (insert k v m)) ≡ some v
unfolding find_reusable values insert
find_reusable-insert t k v [] h f = ground arith
find_reusable-insert t k v ((i, x) ∷ m) h f = ground (arith, find_reusable-insert t k v m)

starting-fits : (k now : ℕ) (t : DebugTarget) → fits t (starting_session k now t) ≡ true
unfolding starting_session is_reusable
starting-fits k now t = ground (arith, (target_eq_iff t t).1 refl)

create_new-ok :
    (disk : AuditDisk) (fresh : SessionId) (t : DebugTarget) (m n : SessionManager) (s : Session)
    → create_new disk fresh t m ≡ (ok s, n)
    → (s ≡ starting_session fresh m.clock t) × (n.sessions ≡ insert fresh s m.sessions)
unfolding create_new
create_new-ok written fresh t m n s e = ground arith
create_new-ok (no_directory x) fresh t m n s e = absurd (ground arith)
create_new-ok (no_event x) fresh t m n s e = absurd (ground arith)
create_new-ok (no_transcript x) fresh t m n s e = absurd (ground arith)

find_reusable-create_new :
    (disk : AuditDisk) (fresh : SessionId) (t : DebugTarget) (m n : SessionManager) (s : Session)
    → find_reusable t (values m.sessions) ≡ none
    → create_new disk fresh t m ≡ (ok s, n)
    → find_reusable t (values n.sessions) ≡ some s
find_reusable-create_new disk fresh t m n s absent e =
    let (p, q) = create_new-ok disk fresh t m n s e in
    rw q (find_reusable-insert t fresh s m.sessions absent (rw p (starting-fits fresh m.clock t)))

-- When the creation of a session for a target has succeeded, asking for the same target again
-- gives the same session and changes nothing in the manager, whatever the disk and the next UUID
-- are: no second worker is started.
pub get_or_create_again :
    (disk disk' : AuditDisk) (fresh fresh' : SessionId) (t : DebugTarget) (m n : SessionManager)
    (s : Session)
    → get_or_create disk fresh t m ≡ (ok s, n)
    → get_or_create disk' fresh' t n ≡ (ok s, n)
unfolding get_or_create
get_or_create_again disk disk' fresh fresh' t m n s e =
    elim (Option-cases (find_reusable t (values m.sessions))) [
      | inl absent ↦
          let made : create_new disk fresh t m ≡ (ok s, n) = rw (absent, get_or_create) at e in
          rw (find_reusable-create_new disk fresh t m n s absent made, get_or_create)
      | inr (x, found) ↦
          let reused : (ok x, m) ≡ (ok s, n) = rw (found, get_or_create) at e in
          ground (arith, reused)
    ]
