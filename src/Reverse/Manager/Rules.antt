-- ===== src/Reverse/Manager/Rules.antt =====
-- What the parts of the operations of ida/manager.rs do to one session and its database, while the
-- other threads leave both alone.
use dbgflow.Prelude.{
  ℕ, String, ◌≡◌, refl, ◌∙◌, ap, Option, some, List, [], ◌∷◌, ◌++◌, lookup, insert, lookup-insert,
  arith, true, option_branch, if_branch, inl, inr, ◌⊎◌,
}
use dbgflow.Common.Error.{SessionId, DbgFlowError, Message, of_error, Result, ok, err}
use dbgflow.Session.Artifact.{ArtifactRef}
use dbgflow.Reverse.Model.{ReverseSession, ReverseSessionState, is_terminal, IdaUpstreamSession}
use dbgflow.Reverse.Manager.{
  Outside, IdaSessionManager, Op, ◌>>=◌, ◌>>◌, update_session, database_id,
  append_artifact_to_session, append_session_warning, wait, Effect, write_metadata, list_databases,
  pure,
}
use dbgflow.Reverse.Manager.Health.{
  lost_warning, find_database, took_entry, lost, unreachable, apply_listing, refresh_session_health,
  get_session, stored_session,
}

-- Other threads leave the session's entries alone while the supervisor is awaited.
pub record Alone (o : Outside) (id : SessionId) : Type 0 where
  pub session :
      (n : ℕ) (m : IdaSessionManager) → lookup id (o.meanwhile n m).sessions ≡ lookup id m.sessions
  pub database :
      (n : ℕ) (m : IdaSessionManager)
      → lookup id (o.meanwhile n m).database_ids ≡ lookup id m.database_ids

-- The session under `id` is `s`, and `d` is the database that is bound to it.
pub record At (id : SessionId) (s : ReverseSession) (d : Option String) (m : IdaSessionManager)
    : Type 0 where
  pub stored : lookup id m.sessions ≡ some s
  pub bound : lookup id m.database_ids ≡ d

-- What an operation ensures of its answer and of the manager after it.
abbrev pub Ensures :
    {A : Type 0} → (Result A → IdaSessionManager → Type 0) → Result A × IdaSessionManager → Type 0
Ensures P p = P p.0 p.1

answered :
    {A B : Type 0} (P : Result A → IdaSessionManager → Type 0)
    (Q : Result B → IdaSessionManager → Type 0) (p : Result A × IdaSessionManager) (f : A → Op B)
    → P p.0 p.1
    → ((a : A) (n : IdaSessionManager) → P (ok a) n → Q (f a n).0 (f a n).1)
    → ((e : DbgFlowError) (n : IdaSessionManager) → P (err e) n → Q (err e) n)
    → Ensures Q (elim p.0 [ ok a ↦ f a p.1 | err e ↦ (err e, p.1) ])
answered P Q (ok a, n) f h went fails = went a n h
answered P Q (err e, n) f h went fails = fails e n h

-- To prove a chain of two operations: what the first ensures, from where the second goes on.
pub bind_lem :
    {A B : Type 0} (P : Result A → IdaSessionManager → Type 0)
    (Q : Result B → IdaSessionManager → Type 0) (op : Op A) (f : A → Op B) (m : IdaSessionManager)
    → Ensures P (op m)
    → ((a : A) (n : IdaSessionManager) → P (ok a) n → Ensures Q (f a n))
    → ((e : DbgFlowError) (n : IdaSessionManager) → P (err e) n → Q (err e) n)
    → Ensures Q ((op >>= f) m)
bind_lem P Q op f m h went fails = answered P Q (op m) f h went fails

-- An operation that goes through, followed by another.
pub then_ok :
    {A B : Type 0} (op : Op A) (f : A → Op B) (s t : IdaSessionManager) (a : A)
    → op s ≡ (ok a, t)
    → (op >>= f) s ≡ f a t
then_ok {A} op f s t a e =
    ap (λ (p : Result A × IdaSessionManager). elim p.0 [ ok a ↦ f a p.1 | err e ↦ (err e, p.1) ]) e

abbrev pub touched : Outside → IdaSessionManager → ReverseSession → ReverseSession
touched o m s = record s { updated_at_unix_ms = o.now m.ticks }

-- The manager with a new value of the session.
abbrev pub with_session : SessionId → ReverseSession → IdaSessionManager → IdaSessionManager
with_session id t m = record m {
  sessions = insert id t m.sessions;
  journal = write_metadata id t ∷ m.journal;
}

pub with_session-At :
    (id : SessionId) (t : ReverseSession) (d : Option String) (m : IdaSessionManager)
    → lookup id m.database_ids ≡ d
    → At id t d (with_session id t m)
with_session-At id t d m h = record { stored = rw lookup-insert (ground arith); bound = h }

-- An update of a session that is there.
pub update_session_lem :
    (o : Outside) (id : SessionId) (f : ReverseSession → ReverseSession) (s : ReverseSession)
    (m : IdaSessionManager)
    → lookup id m.sessions ≡ some s
    → update_session o id f m ≡ (ok (touched o m (f s)), with_session id (touched o m (f s)) m)
unfolding update_session
update_session_lem o id f s m h = ground arith

pub wait-At :
    (o : Outside) (id : SessionId) (e : Effect) (s : ReverseSession) (d : Option String)
    (m : IdaSessionManager)
    → Alone o id
    → At id s d m
    → At id s d (wait o e m)
unfolding wait
wait-At o id e s d m alone h = record {
  stored = alone.session m.ticks _ ∙ h.stored;
  bound = alone.database m.ticks _ ∙ h.bound;
}

-- The session as a refresh leaves it: its identity is kept, and a state other than the old one is
-- an error.
pub record Refreshed (s t : ReverseSession) : Type 0 where
  pub id : t.id ≡ s.id
  pub target : t.target ≡ s.target
  pub database_id : t.database_id ≡ s.database_id
  pub state : (t.state ≡ s.state) ⊎ (t.state ≡ ReverseSessionState.error)

-- A session that is in its table, with the database that is bound to it.
abbrev pub Kept :
    {A : Type 0}
    → SessionId
    → Option String
    → (ReverseSession → Type 0)
    → Result A
    → IdaSessionManager
    → Type 0
Kept id d P r n = (t : ReverseSession) × At id t d n × P t

pub append_session_warning_lem :
    (o : Outside) (id : SessionId) (w : Message) (s : ReverseSession) (m : IdaSessionManager)
    → lookup id m.sessions ≡ some s
    → let t = touched o m (record s { warnings = s.warnings ++ w ∷ [] }) in
      append_session_warning o id w m ≡ (ok t, with_session id t m)
unfolding append_session_warning
append_session_warning_lem o id w s m h =
    update_session_lem o id (λ t. record t { warnings = t.warnings ++ w ∷ [] }) s m h

pub append_artifact_lem :
    (o : Outside) (id : SessionId) (a : ArtifactRef) (s : ReverseSession) (m : IdaSessionManager)
    → lookup id m.sessions ≡ some s
    → let t = touched o m (record s { artifacts = s.artifacts ++ a ∷ [] }) in
      append_artifact_to_session o id a m ≡ (ok t, with_session id t m)
unfolding append_artifact_to_session
append_artifact_lem o id a s m h =
    update_session_lem o id (λ t. record t { artifacts = t.artifacts ++ a ∷ [] }) s m h

pub update-Kept :
    (o : Outside) (id : SessionId) (f : ReverseSession → ReverseSession)
    (P : ReverseSession → Type 0) (s : ReverseSession) (d : Option String) (m : IdaSessionManager)
    → At id s d m
    → P (touched o m (f s))
    → Ensures (Kept id d P) (update_session o id f m)
update-Kept o id f P s d m h p =
    rw (update_session_lem o id f s m h.stored)
      (touched o m (f s), with_session-At id (touched o m (f s)) d m h.bound, p)

only_updated :
    (o : Outside) (id : SessionId) (f : ReverseSession → ReverseSession) (s : ReverseSession)
    (d : Option String) (m : IdaSessionManager)
    → At id s d m
    → Refreshed s (touched o m (f s))
    → Ensures (Kept id d (Refreshed s)) ((update_session o id f >> pure tt) m)
only_updated o id f s d m h is =
    bind_lem (Kept id d (Refreshed s)) (Kept id d (Refreshed s)) (update_session o id f)
      (λ _. pure tt) m (update-Kept o id f (Refreshed s) s d m h is) (λ _ n k. k) (λ _ n k. k)

pub apply_listing-Refreshed :
    (o : Outside) (id : SessionId) (database : String) (r : Result (List IdaUpstreamSession))
    (s : ReverseSession) (d : Option String) (m : IdaSessionManager)
    → At id s d m
    → Ensures (Kept id d (Refreshed s)) (apply_listing o id database r m)
unfolding apply_listing took_entry lost unreachable
apply_listing-Refreshed o id database (err e) s d m h =
    only_updated o id (unreachable (of_error e)) s d m h
      (record { id = refl; target = refl; database_id = refl; state = inl refl })
apply_listing-Refreshed o id database (ok upstream) s d m h =
    option_branch (λ (op : Op (Unit {0})). Ensures (Kept id d (Refreshed s)) (op m))
      (find_database database upstream) _ _
      (λ missing.
        bind_lem (Kept id d (Refreshed s)) (Kept id d (Refreshed s))
          (append_session_warning o id lost_warning >> update_session o id lost) (λ _. pure tt) m
          (bind_lem (Kept id d (Refreshed s)) (Kept id d (Refreshed s))
            (append_session_warning o id lost_warning) (λ _. update_session o id lost) m
            (rw (append_session_warning_lem o id lost_warning s m h.stored) (
              touched o m (record s { warnings = s.warnings ++ lost_warning ∷ [] }),
              with_session-At id _ d m h.bound,
              record { id = refl; target = refl; database_id = refl; state = inl refl },
            ))
            (λ _ n (t, at, is). update-Kept o id lost (Refreshed s) t d n at (record {
              id = is.id;
              target = is.target;
              database_id = is.database_id;
              state = inr refl;
            }))
            (λ _ n k. k))
          (λ _ n k. k) (λ _ n k. k))
      (λ entry found.
        only_updated o id (took_entry entry) s d m h
          (record { id = refl; target = refl; database_id = refl; state = inl refl }))

pub refresh-Refreshed :
    (o : Outside) (id : SessionId) (s : ReverseSession) (d : Option String) (m : IdaSessionManager)
    → Alone o id
    → At id s d m
    → Ensures (Kept id d (Refreshed s)) (refresh_session_health o id m)
unfolding refresh_session_health
refresh-Refreshed o id s d m alone h =
    rw (h.stored, refresh_session_health)
      (if_branch (Ensures (Kept id d (Refreshed s))) (is_terminal s.state) _ _
        (λ terminal. unchanged)
        (λ live.
          option_branch (Ensures (Kept id d (Refreshed s))) s.database_id _ _ (λ unbound. unchanged)
            (λ database e.
              apply_listing-Refreshed o id database (o.lists m.ticks) s d (wait o list_databases m)
                (wait-At o id list_databases s d m alone h))))
  where
    unchanged : (t : ReverseSession) × At id t d m × Refreshed s t
    unchanged = (s, h, record { id = refl; target = refl; database_id = refl; state = inl refl })

-- `get_session` of a session that is there answers what stands in the table after its refresh.
pub get_session-Refreshed :
    (o : Outside) (id : SessionId) (s : ReverseSession) (d : Option String) (m : IdaSessionManager)
    → Alone o id
    → At id s d m
    → Ensures
        (λ r n. (t : ReverseSession) × At id t d n × Refreshed s t × (r ≡ ok t))
        (get_session o id m)
unfolding get_session stored_session
get_session-Refreshed o id s d m alone h =
    let (t, at, is) = refresh-Refreshed o id s d m alone h in
    rw (at.stored, stored_session) (t, at, is, refl)

-- A closed session, or one in error, is answered as it is.
pub get_session-terminal :
    (o : Outside) (id : SessionId) (s : ReverseSession) (m : IdaSessionManager)
    → lookup id m.sessions ≡ some s
    → is_terminal s.state ≡ true
    → get_session o id m ≡ (ok s, m)
unfolding get_session stored_session refresh_session_health
get_session-terminal o id s m h e = ground arith

-- Looking for the database changes nothing.
pub database_id_lem :
    (o : Outside) (id : SessionId) (m : IdaSessionManager) → (database_id o id m).1 ≡ m
unfolding database_id
database_id_lem o id m = ground arith

inverted :
    {A B : Type 0} (p : Result A × IdaSessionManager) (f : A → Op B) (b : B)
    → (elim p.0 as (λ _. Result B × IdaSessionManager) [ ok a ↦ f a p.1 | err e ↦ (err e, p.1) ]).0
      ≡ ok b
    → (a : A) × (p.0 ≡ ok a) × ((f a p.1).0 ≡ ok b)
inverted (ok a, n) f b h = (a, refl, h)
inverted (err e, n) f b h = absurd (ground arith)

-- A chain that goes through has gone through its first part.
pub bind_ok :
    {A B : Type 0} (op : Op A) (f : A → Op B) (m : IdaSessionManager) (b : B)
    → ((op >>= f) m).0 ≡ ok b
    → (a : A) × ((op m).0 ≡ ok a) × ((f a (op m).1).0 ≡ ok b)
bind_ok op f m b h = inverted (op m) f b h

stayed :
    {A B : Type 0} (p : Result A × IdaSessionManager) (g : A → Result B)
    → (elim p.0 as (λ _. Result B × IdaSessionManager) [
      | ok a ↦ (g a, p.1)
      | err e ↦ (err e, p.1)
    ]).1
      ≡ p.1
stayed (ok a, n) g = refl
stayed (err e, n) g = refl

-- A second part that only answers leaves the manager as the first left it.
pub bind-answer :
    {A B : Type 0} (op : Op A) (g : A → Result B) (m : IdaSessionManager)
    → ((op >>= λ a n. (g a, n)) m).1 ≡ (op m).1
bind-answer op g m = stayed (op m) g
