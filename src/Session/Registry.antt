-- ===== src/Session/Registry.antt =====
-- crates/dbgflow-debug/src/session/worker_registry.rs. A worker is a number; what it answers is the
-- caller's to say.
pub mod Once
use dbgflow.Prelude.{
  ℕ, Bool, Option, none, some, List, [], ◌∷◌, lookup, insert, erase, mem, add, remove,
  if◌then◌else◌,
}
use dbgflow.Common.Error.{SessionId}

abbrev pub WorkerId : Type 0
WorkerId = ℕ

pub record WorkerRegistry : Type 0 where
  pub workers : List (SessionId × WorkerId)
  pub cancel_requested : List SessionId

unfoldable pub empty : WorkerRegistry
empty = record { workers = []; cancel_requested = [] }

unfoldable pub get : SessionId → WorkerRegistry → Option WorkerId
get session_id r = lookup session_id r.workers

unfoldable pub insert_worker : SessionId → WorkerId → WorkerRegistry → WorkerRegistry
insert_worker session_id worker r = record {
  workers = insert session_id worker r.workers;
  cancel_requested = remove session_id r.cancel_requested;
}

unfoldable pub remove_worker : SessionId → WorkerRegistry → Option WorkerId × WorkerRegistry
remove_worker session_id r = (
  lookup session_id r.workers,
  record {
    workers = erase session_id r.workers;
    cancel_requested = remove session_id r.cancel_requested;
  },
)

-- The worker to kill, if this is the first request for it.
unfoldable pub kill_once : SessionId → WorkerRegistry → Option WorkerId × WorkerRegistry
kill_once session_id r =
    if mem session_id r.cancel_requested then (none, r) else elim (lookup session_id r.workers) [
      | none ↦ (none, r)
      | some worker ↦
          (some worker, record r { cancel_requested = add session_id r.cancel_requested })
    ]

unfoldable pub is_cancel_requested : SessionId → WorkerRegistry → Bool
is_cancel_requested session_id r = mem session_id r.cancel_requested

-- The drop of the registry kills every worker that is left, with `session_manager_drop:{id}`.
unfoldable pub drop_registry : List (SessionId × WorkerId) → List (WorkerId × SessionId)
drop_registry [] = []
drop_registry ((session_id, worker) ∷ ws) = (worker, session_id) ∷ drop_registry ws
