-- ===== src/Reverse/Manager/Close/Settled.antt =====
-- What a close of ida/manager.rs comes to, on every branch.
use dbgflow.Prelude.{
  String, ◌≡◌, refl, Option, none, some, [], ◌∷◌, ◌++◌, lookup, lookup-erase, erase, add, arith,
  Bool, if_branch,
}
use dbgflow.Common.Error.{SessionId, Message, backend, Result, ok, err}
use dbgflow.Reverse.Model.{ReverseSession, ReverseSessionState, is_terminal, CloseDatabaseResult}
use dbgflow.Reverse.Manager.{
  Outside, IdaSessionManager, Op, ◌>>=◌, update_session, append_session_warning, pure, database_id,
  operation_lock,
}
use dbgflow.Reverse.Manager.Health.{get_session}
use dbgflow.Reverse.Manager.Rules.{
  Alone, At, Ensures, bind_lem, touched, with_session, with_session-At, update_session_lem, Kept,
  append_session_warning_lem, get_session-terminal, then_ok, database_id_lem,
}
use dbgflow.Reverse.Manager.Close.Same.{
  Same, Same-refl, update-Same, warning-Same, get_session-Same, update_session_state-Same,
  save_database-Same,
}
use dbgflow.Reverse.Manager.Close.{
  update_session_state, save_database, close_failed, close_error, kept_session, finish_failed,
  close_failed_event, close_finished_event, close_found, closed_session, unbind_database, warn,
  finish_closed, finish_close, close_bound, close_session_with_save, is_closed,
}

-- An answer is the closed session as it stands in the table, without a database. A failure leaves
-- the session in the table, its database bound.
abbrev pub Settled :
    SessionId → ReverseSession → Option String → Result ReverseSession → IdaSessionManager → Type 0
Settled id s d (ok t) n =
    At id t none n
    × (t.state ≡ ReverseSessionState.closed)
    × (t.database_id ≡ none)
    × (t.id ≡ s.id)
    × (t.target ≡ s.target)
Settled id s d (err e) n = (t : ReverseSession) × At id t d n × Same s t

module _ (o : Outside) (id : SessionId) (s : ReverseSession) (d : Option String) where
  -- A chain that settles the session, or fails before it does.
  Settled-bind :
      {A : Type 0} (op : Op A) (f : A → Op ReverseSession) (m : IdaSessionManager)
      → Ensures (Kept id d (Same s)) (op m)
      → ((a : A) (n : IdaSessionManager) (t : ReverseSession)
          → At id t d n
          → Same s t
          → Ensures (Settled id s d) (f a n))
      → Ensures (Settled id s d) ((op >>= f) m)
  Settled-bind op f m h next =
      bind_lem (Kept id d (Same s)) (Settled id s d) op f m h (λ a n (t, at, is). next a n t at is)
        (λ _ _ k. k)

  finish_failed-Settled :
      (render : Message → String) (save : Bool) (previous : ReverseSessionState)
      (result : CloseDatabaseResult) (t : ReverseSession) (m : IdaSessionManager)
      → At id t d m
      → Same s t
      → Ensures (Settled id s d) (finish_failed render o id save previous result m)
  unfolding finish_failed kept_session
  finish_failed-Settled render save previous result t m at is =
      Settled-bind (append_session_warning o id (close_error result))
        (λ _. update_session o id (kept_session previous result) >>= λ _.
          close_failed_event o id save previous result >>= λ _. failing)
        m (warning-Same o id s d (close_error result) t m at is)
        λ _ n u at' is'.
          Settled-bind (update_session o id (kept_session previous result))
            (λ _. close_failed_event o id save previous result >>= λ _. failing) n
            (update-Same o id s d (kept_session previous result) u n
              (λ v. record { id = refl; target = refl; database_id = refl }) at' is')
            (λ _ k v at'' is''. (v, record { stored = at''.stored; bound = at''.bound }, is''))
    where
      failing : Op ReverseSession
      failing n = (err (backend (render (close_error result))), n)

-- A warning goes through where the session is there.
warn-Same :
    (o : Outside) (id : SessionId) (s : ReverseSession) (d : Option String) (w : Option Message)
    (t : ReverseSession) (m : IdaSessionManager)
    → At id t d m
    → Same s t
    → Ensures (λ r n. (u : ReverseSession) × At id u d n × Same s u × (r ≡ ok tt)) (warn o id w m)
warn-Same o id s d none t m at is = (t, at, is, refl)
warn-Same o id s d (some w) t m at is =
    rw
      (then_ok (append_session_warning o id w) (λ _. pure tt) m (with_session id u m) u
        (append_session_warning_lem o id w t m at.stored))
      (
        u,
        with_session-At id u d m at.bound,
        record { id = is.id; target = is.target; database_id = is.database_id },
        refl,
      )
  where
    u : ReverseSession
    u = touched o m (record t { warnings = t.warnings ++ w ∷ [] })

module _ (o : Outside) (id : SessionId) (s : ReverseSession) (d : Option String) where
  -- The session is closed in the table, and answered from there.
  answer_closed :
      (save : Bool) (previous : ReverseSessionState) (result : CloseDatabaseResult)
      (t : ReverseSession) (m : IdaSessionManager)
      → At id t none m
      → Same s t
      → Ensures (Settled id s d) (
          (update_session o id (closed_session result) >>= λ _.
          close_finished_event o id save previous result >>= λ _. get_session o id)
            m)
  unfolding closed_session close_finished_event is_terminal
  answer_closed save previous result t m at is =
      rw
        (then_ok (update_session o id (closed_session result))
          (λ _. close_finished_event o id save previous result >>= λ _. get_session o id) m
          (with_session id u m) u (update_session_lem o id (closed_session result) t m at.stored))
        (rw
          (get_session-terminal o id u
            (close_finished_event o id save previous result (with_session id u m)).1
            (with_session-At id u none m at.bound).stored refl)
          (
            record { stored = (with_session-At id u none m at.bound).stored; bound = at.bound },
            refl,
            refl,
            is.id,
            is.target,
          ))
    where
      u : ReverseSession
      u = touched o m (closed_session result t)

  finish_closed-Settled :
      (save : Bool) (previous : ReverseSessionState) (result : CloseDatabaseResult)
      (t : ReverseSession) (m : IdaSessionManager)
      → At id t d m
      → Same s t
      → Ensures (Settled id s d) (finish_closed o id save previous result m)
  unfolding finish_closed unbind_database
  finish_closed-Settled save previous result t m at is =
      bind_lem Warned (Settled id s d) (warn o id result.warning)
        (λ _. warn o id result.error >>= λ _. rest) unbound
        (warn-Same o id s none result.warning t unbound
          (record { stored = at.stored; bound = rw lookup-erase (ground arith) }) is)
        (λ _ n (u, at', is', _).
          bind_lem Warned (Settled id s d) (warn o id result.error) (λ _. rest) n
            (warn-Same o id s none result.error u n at' is')
            (λ _ k (v, at'', is'', _). answer_closed save previous result v k at'' is'')
            (λ e k (v, at'', is'', went). absurd (ground arith)))
        (λ e n (u, at', is', went). absurd (ground arith))
    where
      Warned : Result (Unit {0}) → IdaSessionManager → Type 0
      Warned r n = (u : ReverseSession) × At id u none n × Same s u × (r ≡ ok tt)

      rest : Op ReverseSession
      rest = update_session o id (closed_session result) >>= λ _.
          close_finished_event o id save previous result >>= λ _. get_session o id

      unbound : IdaSessionManager
      unbound = record m { database_ids = erase id m.database_ids }

  finish_close-Settled :
      (render : Message → String) (save : Bool) (previous : ReverseSessionState)
      (result : CloseDatabaseResult) (t : ReverseSession) (m : IdaSessionManager)
      → At id t d m
      → Same s t
      → Ensures (Settled id s d) (finish_close render o id save previous result m)
  unfolding finish_close
  finish_close-Settled render save previous result t m at is =
      if_branch (λ (op : Op ReverseSession). Ensures (Settled id s d) (op m)) (close_failed result)
        _ _ (λ _. finish_failed-Settled o id s d render save previous result t m at is)
        (λ _. finish_closed-Settled save previous result t m at is)

  close_bound-Settled :
      (render : Message → String) (save : Bool) (previous : ReverseSessionState)
      (t : ReverseSession) (m : IdaSessionManager)
      → Alone o id
      → At id t d m
      → Same s t
      → Ensures (Settled id s d) (close_bound render o id save previous m)
  unfolding close_bound
  close_bound-Settled render save previous t m alone at is =
      Settled-bind o id s d (database_id o id)
        (λ database.
          update_session_state o id ReverseSessionState.closing "ida.close_session" none >>= λ _.
          save_database o id database save >>= λ result.
          finish_close render o id save previous result)
        m (rw (database_id_lem o id m) (t, at, is))
        λ database n u at' is'.
          Settled-bind o id s d
            (update_session_state o id ReverseSessionState.closing "ida.close_session" none)
            (λ _. save_database o id database save >>= λ result.
              finish_close render o id save previous result)
            n
            (update_session_state-Same o id s d ReverseSessionState.closing "ida.close_session" none
              u n alone at' is')
            λ _ k v at'' is''.
              Settled-bind o id s d (save_database o id database save)
                (λ result. finish_close render o id save previous result) k
                (save_database-Same o id s d database save v k alone at'' is'')
                (λ result l w at₃ is₃. finish_close-Settled render save previous result w l at₃ is₃)

  close_found-Settled :
      (render : Message → String) (save : Bool) (t : ReverseSession) (a : ReverseSession)
      (m : IdaSessionManager)
      → Alone o id
      → At id t d m
      → Same s t
      → Ensures (Settled id s d) (close_found render o id save a m)
  unfolding close_found
  close_found-Settled render save t a m alone at is =
      if_branch (λ (op : Op ReverseSession). Ensures (Settled id s d) (op m)) (is_closed a.state) _
        _ (λ _. (t, at, is)) (λ _. close_bound-Settled render save a.state t m alone at is)

-- If no other thread changes the session while the supervisor is awaited, closing a session of the
-- table, with or without a save, comes to one of two ends on every branch. Either it answers the
-- session as it then stands in the table: closed, under its id and target, without a database and
-- with none bound to it. Or it fails and the session is in the table with its id, its target and
-- its database, and the database that was bound to it is bound still.
pub close_session_with_save-Settled :
    (render : Message → String) (o : Outside) (id : SessionId) (save : Bool) (s : ReverseSession)
    (m : IdaSessionManager)
    → Alone o id
    → lookup id m.sessions ≡ some s
    → Ensures (Settled id s (lookup id m.database_ids)) (close_session_with_save render o id save m)
unfolding close_session_with_save operation_lock
close_session_with_save-Settled render o id save s m alone h =
    Settled-bind o id s (lookup id m.database_ids) (get_session o id)
      (λ session. close_found render o id save session) locked
      (get_session-Same o id s (lookup id m.database_ids) s locked alone
        (record { stored = h; bound = refl }) (Same-refl s))
      (λ a n t at is.
        close_found-Settled o id s (lookup id m.database_ids) render save t a n alone at is)
  where
    locked : IdaSessionManager
    locked = record m { operation_locks = add id m.operation_locks }
