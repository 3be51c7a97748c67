-- ===== src/Reverse/Manager/Races.antt =====
-- What ida/manager.rs does when the sections of different threads fall between each other.
use dbgflow.Prelude.{
  String, Option, ◌≡◌, refl, ◌∙◌, ap, ◌≢◌, Bool, true, false, none, some, is_some, option_branch,
  List, [], ◌∷◌, ◌++◌, lookup, insert, lookup-insert, arith,
}
use dbgflow.Common.Error.{SessionId, Message, backend, Result, ok, err}
use dbgflow.Session.Artifact.{ArtifactKind}
use dbgflow.Reverse.Model.{
  ReverseSession, ReverseSessionState, is_terminal, IdaTarget, IdaUpstreamSession, is_reusable,
  CloseDatabaseResult,
}
use dbgflow.Reverse.Manager.{
  Outside, IdaSessionManager, Op, ◌>>=◌, ◌>>◌, pure, update_session, append_session_warning,
  reusable_session_for_target, wait, list_databases,
}
use dbgflow.Reverse.Manager.Health.{
  find_database, apply_listing, took_entry, lost, lost_warning, refresh_session_health,
}
use dbgflow.Reverse.Manager.Close.{
  finish_failed, kept_session, close_failed_event, close_error, close_session_with_save,
}
use dbgflow.Reverse.Manager.Close.Settled.{Settled, close_session_with_save-Settled}
use dbgflow.Reverse.Manager.Create.{
  enter_session, starting_session, reverse_session_request_path, reverse_session_metadata_path,
}
use dbgflow.Reverse.Manager.Rules.{
  Alone, Ensures, touched, with_session, with_session-At, then_ok, append_session_warning_lem,
  update_session_lem,
}

-- A warning and an update of a session that is there.
warn_then_update :
    (o : Outside) (id : SessionId) (w : Message) (f : ReverseSession → ReverseSession)
    (s : ReverseSession) (m : IdaSessionManager)
    → lookup id m.sessions ≡ some s
    → let u = touched o m (record s { warnings = s.warnings ++ w ∷ [] }) in
      let v = touched o m (f u) in
      (append_session_warning o id w >>= λ _. update_session o id f) m
      ≡ (ok v, with_session id v (with_session id u m))
warn_then_update o id w f s m h =
    then_ok (append_session_warning o id w) (λ _. update_session o id f) m (with_session id u m) u
      (append_session_warning_lem o id w s m h)
    ∙ update_session_lem o id f u (with_session id u m)
        (with_session-At id u (lookup id m.database_ids) m refl).stored
  where
    u : ReverseSession
    u = touched o m (record s { warnings = s.warnings ++ w ∷ [] })

-- The state of a closed session once an older answer of the supervisor was applied to it.
abbrev pub late_state : Bool → ReverseSessionState
late_state true = ReverseSessionState.closed
late_state false = ReverseSessionState.error

apply_listing_at :
    (o : Outside) (id : SessionId) (name : String) (upstream : List IdaUpstreamSession)
    (s : ReverseSession) (m : IdaSessionManager)
    → lookup id m.sessions ≡ some s
    → s.state ≡ ReverseSessionState.closed
    → (t : ReverseSession) × (lookup id (apply_listing o id name (ok upstream) m).1.sessions
        ≡ some t)
      × (t.state ≡ late_state (is_some (find_database name upstream)))
unfolding apply_listing took_entry lost
apply_listing_at o id name upstream s m h closed =
    option_branch P (find_database name upstream)
      (append_session_warning o id lost_warning >> update_session o id lost >> pure tt)
      (λ entry. update_session o id (took_entry entry) >> pure tt)
      (λ missing.
        let u = touched o m (record s { warnings = s.warnings ++ lost_warning ∷ [] }) in
        let v = touched o m (lost u) in
        let twice = with_session id v (with_session id u m) in
        (
          v,
          rw
              (then_ok (append_session_warning o id lost_warning >> update_session o id lost)
                (λ _. pure tt) m twice v (warn_then_update o id lost_warning lost s m h))
              (with_session-At id v (lookup id m.database_ids) (with_session id u m) refl).stored,
          rw missing refl,
        ))
      (λ entry found.
        let v = touched o m (took_entry entry s) in
        (
          v,
          rw
              (then_ok (update_session o id (took_entry entry)) (λ _. pure tt) m
                (with_session id v m) v (update_session_lem o id (took_entry entry) s m h))
              (with_session-At id v (lookup id m.database_ids) m refl).stored,
          rw found closed,
        ))
  where
    P : Op (Unit {0}) → Type 0
    P op =
        (t : ReverseSession) × (lookup id (op m).1.sessions ≡ some t)
        × (t.state ≡ late_state (is_some (find_database name upstream)))

-- What a session's refresh asks the supervisor for, before the other threads run.
abbrev pub asked : IdaSessionManager → IdaSessionManager
asked m = record m { journal = list_databases ∷ m.journal }

closed_there :
    (id : SessionId) (s u : ReverseSession) (d : Option String)
    (p : Result ReverseSession × IdaSessionManager)
    → Ensures (Settled id s d) p
    → p.0 ≡ ok u
    → (lookup id p.1.sessions ≡ some u) × (u.state ≡ ReverseSessionState.closed)
closed_there id s u d (ok t, n) (at, closed, _, _, _) h =
    (ground (arith, at.stored), ground (arith, closed))
closed_there id s u d (err e, n) settled h = absurd (ground arith)

-- A thread refreshes the health of a session that is open and has a database, and asks the supervisor
-- for its list. Before the answer is applied, another thread closes the session, with or without a
-- save, undisturbed and without an error. The session is then closed in the table, and the answer is
-- applied to it all the same: if its database is not in the list, the refresh ends with the closed
-- session in state `Error`, and else it stays closed.
pub apply_listing_late :
    (render : Message → String) (o other : Outside) (id : SessionId) (save : Bool) (name : String)
    (upstream : List IdaUpstreamSession) (s u : ReverseSession) (m : IdaSessionManager)
    → lookup id m.sessions ≡ some s
    → is_terminal s.state ≡ false
    → s.database_id ≡ some name
    → o.lists m.ticks ≡ ok upstream
    → Alone other id
    → (close_session_with_save render other id save (asked m)).0 ≡ ok u
    → o.meanwhile m.ticks (asked m) ≡ (close_session_with_save render other id save (asked m)).1
    → (lookup id (wait o list_databases m).sessions ≡ some u)
      × (u.state ≡ ReverseSessionState.closed)
      × ((t : ReverseSession) × (lookup id (refresh_session_health o id m).1.sessions ≡ some t)
          × (t.state ≡ late_state (is_some (find_database name upstream))))
unfolding refresh_session_health wait
apply_listing_late render o other id save name upstream s u m h open_state database listing alone
      closes between =
    let (there, closed) =
      closed_there id s u (lookup id m.database_ids)
        (close_session_with_save render other id save (asked m))
        (close_session_with_save-Settled render other id save s (asked m) alone h) closes in
    let at : lookup id (wait o list_databases m).sessions ≡ some u = rw between there in
    let (t, stored, state) =
      apply_listing_at o id name upstream u (wait o list_databases m) at closed in
    (at, closed, (t, rw (h, open_state, database, listing, refresh_session_health) stored, state))

-- A save that fails puts the session back to its old state, and touches no other.
finish_failed_lem :
    (render : Message → String) (o : Outside) (id j : SessionId) (save : Bool)
    (previous : ReverseSessionState) (result : CloseDatabaseResult) (s : ReverseSession)
    (m : IdaSessionManager)
    → lookup id m.sessions ≡ some s
    → j ≢ id
    → let n = (finish_failed render o id save previous result m).1 in
      (v : ReverseSession) × (lookup id n.sessions ≡ some v)
      × (v.state ≡ previous)
      × (v.target ≡ s.target)
      × (lookup j n.sessions ≡ lookup j m.sessions)
unfolding finish_failed kept_session close_failed_event
finish_failed_lem render o id j save previous result s m h other =
    rw
      (then_ok (append_session_warning o id (close_error result))
        (λ _. update_session o id (kept_session previous result) >>= λ _.
          close_failed_event o id save previous result >>= λ _ n.
          (err (backend (render (close_error result))), n))
        m (with_session id u m) u (append_session_warning_lem o id (close_error result) s m h))
      (rw
        (then_ok (update_session o id (kept_session previous result))
          (λ _. close_failed_event o id save previous result >>= λ _ n.
            (err (backend (render (close_error result))), n))
          (with_session id u m) (with_session id v (with_session id u m)) v
          (update_session_lem o id (kept_session previous result) u (with_session id u m)
            (with_session-At id u (lookup id m.database_ids) m refl).stored))
        (
          v,
          (with_session-At id v (lookup id m.database_ids) (with_session id u m) refl).stored,
          refl,
          refl,
          ground (
            arith,
            lookup-insert id j v (insert id u m.sessions),
            lookup-insert id j u m.sessions,
          ),
        ))
  where
    u : ReverseSession
    u = touched o m (record s { warnings = s.warnings ++ close_error result ∷ [] })

    v : ReverseSession
    v = touched o m (kept_session previous result u)

entered :
    (o : Outside) (fresh : SessionId) (t : IdaTarget) (m : IdaSessionManager)
    → (enter_session o fresh t m).0 ≡ ok tt
    → (b : ReverseSession) × (b.target ≡ t)
      × (b.state ≡ ReverseSessionState.starting)
      × ((enter_session o fresh t m).1.sessions ≡ insert fresh b m.sessions)
unfolding enter_session starting_session
entered o fresh t m h = (b, refl, refl, ground arith)
  where
    b : ReverseSession
    b = record (starting_session fresh (o.now m.ticks) t) {
      artifacts =
          record {
            kind = ArtifactKind.reverse_session_request;
            path = reverse_session_request_path m.artifact_root fresh;
          }
          ∷ record {
            kind = ArtifactKind.reverse_session_metadata;
            path = reverse_session_metadata_path m.artifact_root fresh;
          }
          ∷ [];
    }

insert-at :
    (k : SessionId) (v : ReverseSession) (table : List (SessionId × ReverseSession))
    → lookup k (insert k v table) ≡ some v
insert-at k v table = rw lookup-insert (ground arith)

insert-elsewhere :
    (k j : SessionId) (v : ReverseSession) (table : List (SessionId × ReverseSession))
    → k ≢ j
    → lookup j (insert k v table) ≡ lookup j table
insert-elsewhere k j v table e = rw lookup-insert (ground arith)

-- A session is closing, none is found for its target that can be used again, and so one is created.
-- If the save of the closing session then fails and it was ready before, both sessions can be used
-- again, for the one target.
pub restored_twin :
    (render : Message → String) (o : Outside) (id fresh : SessionId) (save : Bool)
    (result : CloseDatabaseResult) (t : IdaTarget) (s : ReverseSession) (m : IdaSessionManager)
    → fresh ≢ id
    → lookup id m.sessions ≡ some s
    → s.state ≡ ReverseSessionState.closing
    → s.target ≡ t
    → reusable_session_for_target t m ≡ none
    → (enter_session o fresh t m).0 ≡ ok tt
    → let n =
        (finish_failed render o id save ReverseSessionState.ready result
          (enter_session o fresh t m).1).1 in
      (a b : ReverseSession) × (lookup id n.sessions ≡ some a)
      × (lookup fresh n.sessions ≡ some b)
      × (a.target ≡ t)
      × (b.target ≡ t)
      × (is_reusable a.state ≡ true)
      × (is_reusable b.state ≡ true)
unfolding is_reusable
restored_twin render o id fresh save result t s m other h closing at unused h' =
    let (b, b_target, b_state, table) = entered o fresh t m h' in
    let m' = (enter_session o fresh t m).1 in
    let old : lookup id m'.sessions ≡ some s =
      ap (lookup id) table ∙ (insert-elsewhere fresh id b m.sessions other ∙ h) in
    let new : lookup fresh m'.sessions ≡ some b =
      ap (lookup fresh) table ∙ insert-at fresh b m.sessions in
    let (a, found, state, target, kept) =
      finish_failed_lem render o id fresh save ReverseSessionState.ready result s m' old other in
    (a, b, found, kept ∙ new, target ∙ at, b_target, rw state refl, rw b_state refl)
