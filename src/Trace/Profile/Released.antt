-- ===== src/Trace/Profile/Released.antt =====
-- What a profile has let go of at its end, in crates/dbgflow-trace/src/profile/manager.rs.
use dbgflow.Prelude.{ℕ, ◌≡◌, refl, String, none, some, [], ◌==◌, if_branch, arith}
use dbgflow.Common.Error.{Result, result_branch}
use dbgflow.Common.Job.{Active, start, release}
use dbgflow.Session.Target.{Files}
use dbgflow.Trace.Profile.{
  RunProfile, ProfileResult, validate_profile_target, with_default_collectors, reject_duplicates,
}
use dbgflow.Trace.Profile.Collect.{World, Run}
use dbgflow.Trace.Profile.Counts.{starts, stops}
use dbgflow.Trace.Profile.Run.{run_profile, run_checked, run_guarded, run_started, no_run}
use dbgflow.Trace.Profile.Stopped.{Open}
use dbgflow.Trace.Profile.Ended.{run_started-Open}

-- Each start of the collector is answered by a stop, and the slot is as it was.
abbrev LetGo : ℕ → Active → Result ProfileResult × Run × Active → Type 0
LetGo h active (result, r, after) = (starts h r.journal ≡ stops h r.journal) × (after ≡ active)

all_stopped : (h : ℕ) (r : Run) → Open h 0 r → starts h r.journal ≡ stops h r.journal
unfolding Open
all_stopped h r o = omega (arith, o)

run_guarded-LetGo :
    (w : World) (busy_message : ℕ → String) (request : RunProfile) (profile_id : ℕ)
    (active : Active) (h : ℕ)
    → LetGo h active (run_guarded w busy_message request profile_id active)
unfolding run_guarded start release
run_guarded-LetGo w busy_message request profile_id none h =
    (all_stopped h (run_started w request no_run).1 (run_started-Open w request h), ground arith)
run_guarded-LetGo w busy_message request profile_id (some other) h = (refl, refl)

-- However a profile ends: a collector is stopped as often as it was started, and the one slot for
-- profiles is as it was before.
pub run_profile-LetGo :
    (fs : Files) (w : World) (busy_message : ℕ → String) (request : RunProfile) (profile_id : ℕ)
    (active : Active) (collector : ℕ)
    → (starts collector (run_profile fs w busy_message request profile_id active).1.journal
        ≡ stops collector (run_profile fs w busy_message request profile_id active).1.journal)
      × ((run_profile fs w busy_message request profile_id active).2 ≡ active)
unfolding run_profile run_checked
run_profile-LetGo fs w busy_message request profile_id active collector =
    result_branch (LetGo collector active) (validate_profile_target fs request.target) _ _
      (λ e q. (refl, refl))
      (λ target q.
        let checked = with_default_collectors (record request { target = target }) in
        if_branch (LetGo collector active) (checked.timeout_ms == 0) _ _ (λ z. (refl, refl))
          (λ z.
            result_branch (LetGo collector active) (reject_duplicates [] checked.collectors) _ _
              (λ e q'. (refl, refl))
              (λ u q'. run_guarded-LetGo w busy_message checked profile_id active collector)))
