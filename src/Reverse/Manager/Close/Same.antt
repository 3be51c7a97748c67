-- ===== src/Reverse/Manager/Close/Same.antt =====
-- The parts of a close of ida/manager.rs that leave the session what it is.
use dbgflow.Prelude.{String, ◌≡◌, refl, ◌∙◌, Option, [], ◌∷◌, ◌++◌, arith, Bool, true, false}
use dbgflow.Common.Error.{SessionId, Message, Result, ok, err}
use dbgflow.Common.Json.{Fields, end}
use dbgflow.Session.Artifact.{ArtifactRef}
use dbgflow.Reverse.Model.{ReverseSession, ReverseSessionState, SupervisorToolCallResult}
use dbgflow.Reverse.Manager.{
  Outside, IdaSessionManager, Op, ◌>>=◌, ◌>>◌, update_session, append_artifact_to_session,
  append_session_warning, wait, pure, call_database,
}
use dbgflow.Reverse.Manager.Output.{write_tool_output}
use dbgflow.Reverse.Manager.Health.{get_session}
use dbgflow.Reverse.Manager.Rules.{
  Alone, At, Ensures, bind_lem, wait-At, Refreshed, Kept, update-Kept, get_session-Refreshed,
}
use dbgflow.Reverse.Manager.Close.{
  update_session_state, save_answered, save_database, state_changed, saved_result,
}

-- The session is the same one, bound to the same database.
pub record Same (s t : ReverseSession) : Type 0 where
  pub id : t.id ≡ s.id
  pub target : t.target ≡ s.target
  pub database_id : t.database_id ≡ s.database_id

pub Same-refl : (s : ReverseSession) → Same s s
Same-refl s = record { id = refl; target = refl; database_id = refl }

pub Same-trans : {s t u : ReverseSession} → Same s t → Same t u → Same s u
Same-trans a b = record {
  id = b.id ∙ a.id;
  target = b.target ∙ a.target;
  database_id = b.database_id ∙ a.database_id;
}

pub Same-Refreshed : {s t : ReverseSession} → Refreshed s t → Same s t
Same-Refreshed a = record { id = a.id; target = a.target; database_id = a.database_id }

module _ (o : Outside) (id : SessionId) (s : ReverseSession) (d : Option String) where
  pub update-Same :
      (f : ReverseSession → ReverseSession) (t : ReverseSession) (m : IdaSessionManager)
      → ((u : ReverseSession) → Same u (f u))
      → At id t d m
      → Same s t
      → Ensures (Kept id d (Same s)) (update_session o id f m)
  update-Same f t m same at is = update-Kept o id f (Same s) t d m at (record {
    id = (Same-trans is (same t)).id;
    target = (Same-trans is (same t)).target;
    database_id = (Same-trans is (same t)).database_id;
  })

  pub warning-Same :
      (w : Message) (t : ReverseSession) (m : IdaSessionManager)
      → At id t d m
      → Same s t
      → Ensures (Kept id d (Same s)) (append_session_warning o id w m)
  unfolding append_session_warning
  warning-Same w t m =
      update-Same (λ u. record u { warnings = u.warnings ++ w ∷ [] }) t m
        (λ u. record { id = refl; target = refl; database_id = refl })

  pub artifact-Same :
      (a : ArtifactRef) (t : ReverseSession) (m : IdaSessionManager)
      → At id t d m
      → Same s t
      → Ensures (Kept id d (Same s)) (append_artifact_to_session o id a m)
  unfolding append_artifact_to_session
  artifact-Same a t m =
      update-Same (λ u. record u { artifacts = u.artifacts ++ a ∷ [] }) t m
        (λ u. record { id = refl; target = refl; database_id = refl })

  -- A chain whose parts keep the session.
  pub Kept-bind :
      {A B : Type 0} (op : Op A) (f : A → Op B) (m : IdaSessionManager)
      → Ensures (Kept id d (Same s)) (op m)
      → ((a : A) (n : IdaSessionManager) (t : ReverseSession)
          → At id t d n
          → Same s t
          → Ensures (Kept id d (Same s)) (f a n))
      → Ensures (Kept id d (Same s)) ((op >>= f) m)
  Kept-bind op f m h next =
      bind_lem (Kept id d (Same s)) (Kept id d (Same s)) op f m h
        (λ a n (t, at, is). next a n t at is) (λ _ _ k. k)

  pub get_session-Same :
      (t : ReverseSession) (m : IdaSessionManager)
      → Alone o id
      → At id t d m
      → Same s t
      → Ensures (Kept id d (Same s)) (get_session o id m)
  get_session-Same t m alone at is =
      let (u, at', u_is, _) = get_session-Refreshed o id t d m alone at in
      (u, at', Same-trans is (Same-Refreshed u_is))

  pub state_changed-Same :
      (p q : ReverseSessionState) (operation : String) (e : Option Message) (t : ReverseSession)
      (m : IdaSessionManager)
      → At id t d m
      → Same s t
      → Ensures (Kept id d (Same s)) (state_changed o id p q operation e m)
  unfolding state_changed
  state_changed-Same p q operation e t m at is =
      (t, record { stored = at.stored; bound = at.bound }, is)

  pub update_session_state-Same :
      (state : ReverseSessionState) (operation : String) (e : Option Message) (t : ReverseSession)
      (m : IdaSessionManager)
      → Alone o id
      → At id t d m
      → Same s t
      → Ensures (Kept id d (Same s)) (update_session_state o id state operation e m)
  unfolding update_session_state
  update_session_state-Same state operation e t m alone at is =
      Kept-bind (get_session o id)
        (λ a. update_session o id change >>= λ _.
          state_changed o id a.state state operation e >>= λ _. pure a.state)
        m (get_session-Same t m alone at is)
        λ a n u at' is'.
          Kept-bind (update_session o id change)
            (λ _. state_changed o id a.state state operation e >>= λ _. pure a.state) n
            (update-Same change u n (λ v. record { id = refl; target = refl; database_id = refl })
              at' is')
            λ _ k v at'' is''.
              Kept-bind (state_changed o id a.state state operation e) (λ _. pure a.state) k
                (state_changed-Same a.state state operation e v k at'' is'')
                (λ _ l w at₃ is₃. (w, at₃, is₃))
    where
      change : ReverseSession → ReverseSession
      change u = record u { state = state; error = e }

  pub write_tool_output-At :
      (tool : String) (request : Fields) (response : SupervisorToolCallResult) (t : ReverseSession)
      (m : IdaSessionManager)
      → At id t d m
      → At id t d (write_tool_output o id tool request response m).1
  unfolding write_tool_output
  write_tool_output-At tool request response t m at = ground arith

  pub save_answered-Same :
      (r : Result SupervisorToolCallResult) (t : ReverseSession) (m : IdaSessionManager)
      → At id t d m
      → Same s t
      → Ensures (Kept id d (Same s)) (save_answered o id r m)
  unfolding save_answered
  save_answered-Same (err e) t m at is = (t, at, is)
  save_answered-Same (ok result) t m at is =
      Kept-bind (write_tool_output o id "idb_save" end result)
        (λ output. append_artifact_to_session o id output.0 >> pure (saved_result result)) m
        (t, write_tool_output-At "idb_save" end result t m at, is)
        λ output n u at' is'.
          Kept-bind (append_artifact_to_session o id output.0) (λ _. pure (saved_result result)) n
            (artifact-Same output.0 u n at' is') (λ _ k v at'' is''. (v, at'', is''))

  pub save_database-Same :
      (database : String) (save : Bool) (t : ReverseSession) (m : IdaSessionManager)
      → Alone o id
      → At id t d m
      → Same s t
      → Ensures (Kept id d (Same s)) (save_database o id database save m)
  unfolding save_database
  save_database-Same database false t m alone at is = (t, at, is)
  save_database-Same database true t m alone at is =
      save_answered-Same (o.calls m.ticks database "idb_save" end) t
        (wait o (call_database database "idb_save" end) m)
        (wait-At o id (call_database database "idb_save" end) t d m alone at) is
