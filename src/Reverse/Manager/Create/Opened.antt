-- ===== src/Reverse/Manager/Create/Opened.antt =====
-- What the opening of a new session of ida/manager.rs comes to.
use dbgflow.Prelude.{◌≡◌, refl, ◌⊎◌, some, lookup, insert, lookup-insert, arith}
use dbgflow.Common.Error.{SessionId, of_error, Result, ok, err}
use dbgflow.Reverse.Model.{
  ReverseSession, ReverseSessionState, OpenIdaDatabase, OpenIdaDatabaseResult,
}
use dbgflow.Reverse.Manager.{Outside, IdaSessionManager, ◌>>=◌, update_session, wait, open_database}
use dbgflow.Reverse.Manager.Health.{get_session}
use dbgflow.Reverse.Manager.Create.{
  finish_open, open_session, bind_database, ready_session, failed_session, opened_event,
}
use dbgflow.Reverse.Manager.Rules.{
  Alone, At, Ensures, touched, with_session, with_session-At, then_ok, update_session_lem, wait-At,
  get_session-Refreshed,
}

-- By what the supervisor answers: a session that is bound to the database that was opened and
-- answered as it stands in the table, or the failure, with the session in error in the table.
abbrev pub Opened :
    SessionId
    → ReverseSession
    → Result OpenIdaDatabaseResult
    → Result ReverseSession
    → IdaSessionManager
    → Type 0
Opened id s (ok answer) r n =
    (t : ReverseSession) × (r ≡ ok t)
    × At id t (some answer.session.database_id) n
    × (t.database_id ≡ some answer.session.database_id)
    × (t.id ≡ s.id)
    × (t.target ≡ s.target)
    × ((t.state ≡ ReverseSessionState.ready) ⊎ (t.state ≡ ReverseSessionState.error))
Opened id s (err e) r n =
    (t : ReverseSession) × (r ≡ err e)
    × (lookup id n.sessions ≡ some t)
    × (t.state ≡ ReverseSessionState.error)
    × (t.error ≡ some (of_error e))
    × (t.id ≡ s.id)
    × (t.target ≡ s.target)

finish_open-Opened :
    (o : Outside) (id : SessionId) (r : Result OpenIdaDatabaseResult) (s : ReverseSession)
    (m : IdaSessionManager)
    → Alone o id
    → lookup id m.sessions ≡ some s
    → Ensures (Opened id s r) (finish_open o id r m)
unfolding finish_open ready_session failed_session bind_database opened_event
finish_open-Opened o id (err e) s m alone h =
    rw
      (then_ok (update_session o id (failed_session e)) (λ _ n. (err e, n)) m (with_session id u m)
        u (update_session_lem o id (failed_session e) s m h))
      (
        u,
        refl,
        (with_session-At id u (lookup id m.database_ids) m refl).stored,
        refl,
        refl,
        refl,
        refl,
      )
  where
    u : ReverseSession
    u = touched o m (failed_session e s)
finish_open-Opened o id (ok answer) s m alone h =
    rw
      (then_ok (update_session o id (ready_session answer))
        (λ session. opened_event o id session >>= λ _. get_session o id) bound
        (with_session id u bound) u (update_session_lem o id (ready_session answer) s bound h))
      (let (v, at, is, answered) =
          get_session-Refreshed o id u (some answer.session.database_id)
            (opened_event o id u (with_session id u bound)).1 alone
            (record { stored = stored.stored; bound = stored.bound }) in
        (v, answered, at, is.database_id, is.id, is.target, is.state))
  where
    bound : IdaSessionManager
    bound = record m { database_ids = insert id answer.session.database_id m.database_ids }

    u : ReverseSession
    u = touched o m (ready_session answer s)

    stored : At id u (some answer.session.database_id) (with_session id u bound)
    stored =
        with_session-At id u (some answer.session.database_id) bound
          (rw lookup-insert (ground arith))

-- If no other thread changes the new session meanwhile, then opening its database comes to one of
-- two ends. If the supervisor opens it, the answer is the session as it stands in the table, bound
-- to that database, under its id and target, in state Ready or Error. If the supervisor fails, its
-- failure is answered, and the session stands in the table in error with that reason.
pub open_session-Opened :
    (o : Outside) (id : SessionId) (request : OpenIdaDatabase) (s : ReverseSession)
    (m : IdaSessionManager)
    → Alone o id
    → lookup id m.sessions ≡ some s
    → Ensures (Opened id s (o.opens m.ticks request)) (open_session o id request m)
unfolding open_session
open_session-Opened o id request s m alone h =
    finish_open-Opened o id (o.opens m.ticks request) s (wait o (open_database request) m) alone
      (wait-At o id (open_database request) s (lookup id m.database_ids) m alone
        (record { stored = h; bound = refl })).stored
