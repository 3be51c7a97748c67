-- ===== src/Session/Lifecycle/Unique.antt =====
-- At most one session that can be used again for each target.
use dbgflow.Prelude.{
  ◌≡◌, sym, ◌∙◌, true, false, ◌≢◌, none, some, List, lookup, lookup-insert, values, arith,
  Option-cases, inl, inr,
}
use dbgflow.Common.Error.{SessionId}
use dbgflow.Session.State.{is_reusable}
use dbgflow.Session.Target.{DebugTarget, target_eq_iff}
use dbgflow.Session.Operation.{Session}
use dbgflow.Session.Manager.{SessionManager}
use dbgflow.Session.Create.{find_reusable, starting_session}
use dbgflow.Session.Create.Reuse.{find_reusable-none}
use dbgflow.Session.Lifecycle.Steps.{Step}
use dbgflow.Session.Lifecycle.Touch.Defs.{keeps, puts}
use dbgflow.Session.Lifecycle.Changes.{Change, touched, made, Step-Change}
use dbgflow.Session.Lifecycle.Safety.{Step-Update}

-- Two sessions that can be used again and have one target are one session.
abbrev pub HasUniqueTargets : SessionManager → Type 0
HasUniqueTargets m =
    (i j : SessionId) (s t : Session)
    → lookup i m.sessions ≡ some s
    → lookup j m.sessions ≡ some t
    → is_reusable s.state ≡ true
    → is_reusable t.state ≡ true
    → s.target ≡ t.target
    → i ≡ j

-- The step opens no session again that was closed.
abbrev pub ReopensNone : SessionManager → SessionManager → Type 0
ReopensNone m n =
    (i : SessionId) (s t : Session)
    → lookup i m.sessions ≡ some s
    → lookup i n.sessions ≡ some t
    → is_reusable s.state ≡ false
    → is_reusable t.state ≡ false

-- A session that is new has a target for which none was found, and is the only new one.
Change-fresh :
    {m n : SessionManager}
    → Change m n
    → (i : SessionId) (s : Session) → lookup i m.sessions ≡ none
    → lookup i n.sessions ≡ some s
    → (k : SessionId) × (k ≡ i)
      × (find_reusable s.target (values m.sessions) ≡ none)
      × ((j : SessionId) (t : Session)
          → lookup j m.sessions ≡ none
          → lookup j n.sessions ≡ some t
          → j ≡ k)
unfolding starting_session
Change-fresh {m} (touched k (keeps e)) i s absent found = absurd (ground arith)
Change-fresh {m} (touched k (puts x y at u e)) i s absent found =
    absurd (ground (arith, lookup-insert k i y m.sessions))
Change-fresh {m} (made k x none_there h e) i s absent found = (
  k,
  ground (arith, lookup-insert k i v m.sessions),
  rw target_is h,
  λ j t p q. ground (arith, lookup-insert k j v m.sessions),
)
  where
    v : Session
    v = starting_session k m.clock x

    target_is : s.target ≡ x
    target_is = ground (arith, lookup-insert k i v m.sessions)

-- A session in the table before has kept its target, and could be used again before.
before :
    {m n : SessionManager}
    → Step m n
    → ReopensNone m n
    → (i : SessionId) (s t : Session) → lookup i m.sessions ≡ some s
    → lookup i n.sessions ≡ some t
    → is_reusable t.state ≡ true
    → (t.target ≡ s.target) × (is_reusable s.state ≡ true)
before {m} {n} st keeps_shut i s t at found live =
    let (u, at', up) = Step-Update st i s at in
    let same : u ≡ t = ground arith in
    (rw (← same) up.target, ground (arith, keeps_shut i s t at found))

-- A new session has no twin among those that were there.
no_twin :
    (t : DebugTarget) (j : SessionId) (s : Session) (m : List (SessionId × Session))
    → find_reusable t (values m) ≡ none
    → lookup j m ≡ some s
    → is_reusable s.state ≡ true
    → t ≢ s.target
no_twin t j s m none_found at live e =
    ground (arith, find_reusable-none t j s m none_found at, (target_eq_iff s.target t).1)

-- A step that opens no closed session again keeps the sessions that can be used again apart by
-- their targets: `create_session` never adds a second one for a target, under any interleaving.
pub Step-HasUniqueTargets :
    {m n : SessionManager} → Step m n → ReopensNone m n → HasUniqueTargets m → HasUniqueTargets n
Step-HasUniqueTargets {m} {n} st shut unique i j s t at_i at_j live_s live_t same =
    elim (Option-cases (lookup i m.sessions)) [
      | inl no_i ↦
          let (k, is_k, none_found, only) = Change-fresh (Step-Change st) i s no_i at_i in
          elim (Option-cases (lookup j m.sessions)) [
            | inl no_j ↦ sym (only j t no_j at_j ∙ is_k)
            | inr (y, was_j) ↦
                let (target_j, live_y) = before st shut j y t was_j at_j live_t in
                absurd (no_twin s.target j y m.sessions none_found was_j live_y (same ∙ target_j))
          ]
      | inr (x, was_i) ↦
          let (target_i, live_x) = before st shut i x s was_i at_i live_s in
          elim (Option-cases (lookup j m.sessions)) [
            | inl no_j ↦
                let (k, is_k, none_found, only) = Change-fresh (Step-Change st) j t no_j at_j in
                absurd
                  (no_twin t.target i x m.sessions none_found was_i live_x (sym same ∙ target_i))
            | inr (y, was_j) ↦
                let (target_j, live_y) = before st shut j y t was_j at_j live_t in
                unique i j x y was_i was_j live_x live_y (sym target_i ∙ same ∙ target_j)
          ]
    ]
