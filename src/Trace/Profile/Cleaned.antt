-- ===== src/Trace/Profile/Cleaned.antt =====
-- The clean-ups at the end of a profile, in crates/dbgflow-trace/src/profile/manager.rs.
use dbgflow.Prelude.{ℕ, ◌≡◌, refl, String, Option, none, some, List, [], ◌∷◌, ◌==◌, map, if_branch}
use dbgflow.Common.Error.{DbgFlowError, Result, ok, err, Message, of_error, result_branch}
use dbgflow.Common.Job.{Active, start}
use dbgflow.Session.Target.{Files}
use dbgflow.Trace.Profile.{
  RunProfile, ProfileResult, TargetExit, exited, timed_out, validate_profile_target,
  with_default_collectors, reject_duplicates,
}
use dbgflow.Trace.Profile.Collect.{World, Run, event, note, start_collectors, stop_collectors}
use dbgflow.Trace.Profile.Counts.{clean_ups}
use dbgflow.Trace.Profile.Run.{
  run_profile, run_checked, run_guarded, run_started, collect_and_run, run_target,
  finish_failed_profile, target_started, reversed, no_run, metadata_event, tell, ending,
  target_pid_from_exit,
}
use dbgflow.Trace.Profile.CleanUps.{
  failed_calls, Cleaned, Cleaned-note, stop_collectors-Cleaned, start_collectors-Cleaned,
}

module _ (w : World) (h : ℕ) where
  told-Cleaned : (pid : ℕ) (collectors : List ℕ) → Cleaned w h (map (tell pid) collectors)
  unfolding Cleaned
  told-Cleaned pid [] = refl
  told-Cleaned pid (c ∷ collectors) = told-Cleaned pid collectors

  target_started-Cleaned :
      (reported : Option ℕ) (r : Run)
      → Cleaned w h r.journal
      → Cleaned w h (target_started reported r).journal
  unfolding target_started Cleaned
  target_started-Cleaned none r before = before
  target_started-Cleaned (some pid) r before =
      Cleaned-note w h
        (event "target_started" none none ∷ map (tell pid) (reversed r.started_collectors)) r before
        (told-Cleaned pid (reversed r.started_collectors))

  ending-Cleaned :
      (target_exit : Result TargetExit) (e : Option Message)
      → Cleaned w h ((ending target_exit e).entry ∷ [])
  unfolding ending Cleaned
  ending-Cleaned (ok (exited pid exit_code)) e = refl
  ending-Cleaned (ok (timed_out pid)) e = refl
  ending-Cleaned (err error) e = refl

  run_target-Cleaned :
      (request : RunProfile) (r : Run)
      → Cleaned w h r.journal
      → Cleaned w h (run_target w request r).1.journal
  unfolding run_target Cleaned note
  run_target-Cleaned request r before =
      result_branch (λ (x : Result ProfileResult × Run). Cleaned w h x.1.journal) w.write_metadata _
        _ (λ _ _. ended)
        (λ _ _.
          Cleaned-note w h (event "profile_completed" none none ∷ [])
            (note ((ending launch.1 stopped.0).entry ∷ []) stopped.1) ended refl)
    where
      launch : Option ℕ × Result TargetExit
      launch = w.launch_and_wait request.target request.timeout_ms

      launched : Run
      launched = target_started launch.0 (note (event "target_launching" none none ∷ []) r)

      stopped : Option Message × Run
      stopped =
          stop_collectors w (target_pid_from_exit launch.1) launched.started_collectors
            (none, launched)

      ended : Cleaned w h (note ((ending launch.1 stopped.0).entry ∷ []) stopped.1).journal
      ended =
          Cleaned-note w h ((ending launch.1 stopped.0).entry ∷ []) stopped.1
            (stop_collectors-Cleaned w h (target_pid_from_exit launch.1) launched.started_collectors
              (none, launched)
              (target_started-Cleaned launch.0 (note (event "target_launching" none none ∷ []) r)
                (Cleaned-note w h (event "target_launching" none none ∷ []) r before refl)))
            (ending-Cleaned launch.1 stopped.0)

  finish_failed_profile-Cleaned :
      (e : DbgFlowError) (r : Run)
      → Cleaned w h r.journal
      → Cleaned w h (finish_failed_profile w e r).journal
  unfolding finish_failed_profile Cleaned
  finish_failed_profile-Cleaned e r before =
      Cleaned-note w h
        (event "profile_failed" none (some (of_error e)) ∷ metadata_event w.write_metadata) r before
        (metadata w.write_metadata)
    where
      metadata :
          (answer : Result (Unit {0}))
          → clean_ups h (metadata_event answer) ≡ failed_calls w h (metadata_event answer)
      metadata (ok u) = refl
      metadata (err e) = refl

  run_started-Cleaned :
      (request : RunProfile)
      → reject_duplicates [] request.collectors ≡ ok tt
      → Cleaned w h (run_started w request no_run).1.journal
  unfolding run_started collect_and_run note Cleaned
  run_started-Cleaned request single =
      result_branch P w.initialize_artifacts _ _ (λ _ _. refl)
        (λ _ _.
          result_branch P w.empty_stdout _ _ (λ e _. finish_failed_profile-Cleaned e created refl)
            (λ _ _.
              result_branch P w.empty_stderr _ _
                (λ e _. finish_failed_profile-Cleaned e created refl)
                (λ _ _.
                  let s = start_collectors w request.collectors created in
                  let after : Cleaned w h s.1.journal =
                    start_collectors-Cleaned w h request.collectors created single refl refl in
                  result_branch P s.0 _ _ (λ e _. finish_failed_profile-Cleaned e s.1 after)
                    (λ _ _. run_target-Cleaned request s.1 after))))
    where
      P : Result ProfileResult × Run → Type 0
      P x = Cleaned w h x.1.journal

      created : Run
      created = note (event "profile_created" none none ∷ []) no_run

-- However a profile ends: a collector was cleaned up exactly as often as it could not be started or
-- could not be stopped.
pub run_profile-clean_ups :
    (fs : Files) (w : World) (busy_message : ℕ → String) (request : RunProfile) (profile_id : ℕ)
    (active : Active) (collector : ℕ)
    → let journal = (run_profile fs w busy_message request profile_id active).1.journal in
      clean_ups collector journal ≡ failed_calls w collector journal
unfolding run_profile run_checked run_guarded start Cleaned
run_profile-clean_ups fs w busy_message request profile_id active h =
    result_branch P (validate_profile_target fs request.target) _ _ (λ _ _. refl)
      (λ target _.
        let checked = with_default_collectors (record request { target = target }) in
        if_branch P (checked.timeout_ms == 0) _ _ (λ _. refl)
          (λ _.
            result_branch P (reject_duplicates [] checked.collectors) _ _ (λ _ _. refl)
              (λ _ single. guarded checked single active)))
  where
    P : Result ProfileResult × Run × Active → Type 0
    P x = clean_ups h x.1.journal ≡ failed_calls w h x.1.journal

    guarded :
        (checked : RunProfile)
        → reject_duplicates [] checked.collectors ≡ ok tt
        → (slot : Active) → P (run_guarded w busy_message checked profile_id slot)
    guarded checked single none = run_started-Cleaned w h checked single
    guarded checked single (some other) = refl
