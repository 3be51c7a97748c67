-- ===== src/Common/Job.antt =====
-- crates/dbgflow-common/src/job.rs: at most one job at a time, held by a guard.
pub mod Exclusion
use dbgflow.Prelude.{ℕ, String, Option, none, some, ◌==◌, if◌then◌else◌}
use dbgflow.Common.Error.{Result, ok, err, backend}

-- `Arc<Mutex<Option<I>>>`, for one job slot and the clones that share it.
abbrev pub Active : Type 0
Active = Option ℕ

pub record Guard : Type 0 where
  pub id : ℕ

-- `busy_message` is the caller's.
unfoldable pub start : (ℕ → String) → ℕ → Active → Result Guard × Active
start busy_message id none = (ok (record { id = id }), some id)
start busy_message id (some active_id) = (err (backend (busy_message active_id)), some active_id)

-- The drop of a guard takes only its own id out.
unfoldable pub release : Guard → Active → Active
release guard none = none
release guard (some active_id) = if active_id == guard.id then none else some active_id
