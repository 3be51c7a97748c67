-- ===== src/Trace/Profile/Run.antt =====
-- run_profile of crates/dbgflow-trace/src/profile/manager.rs. Paths, times and the log are left out.
use dbgflow.Prelude.{ℕ, String, Option, none, some, List, [], ◌∷◌, ◌++◌, map, ◌==◌, if◌then◌else◌}
use dbgflow.Common.Error.{DbgFlowError, Result, ok, err, backend, Message, of_error}
use dbgflow.Common.Job.{Active, start, release}
use dbgflow.Session.Target.{Files}
use dbgflow.Trace.Profile.{
  RunProfile, TargetExit, exited, timed_out, ProfileStatus, completed, timed_out_status,
  failed_status, ProfileCompletionReason, target_exited, timeout, target_launch_failed,
  ProfileResult, validate_profile_target, with_default_collectors, reject_duplicates,
}
use dbgflow.Trace.Profile.Collect.{
  World, Entry, Run, event, told, note, start_collectors, stop_collectors,
}

abbrev pub no_run : Run
no_run = record { journal = []; started_collectors = []; collector_results = []; warnings = [] }

unfoldable pub reversed {ℓ} : {A : Type ℓ} → List A → List A
reversed [] = []
reversed (x ∷ xs) = reversed xs ++ x ∷ []

abbrev plain : String → Entry
plain name = event name none none

abbrev pub metadata_event : Result (Unit {0}) → List Entry
metadata_event (ok u) = plain "profile_metadata_written" ∷ []
metadata_event (err e) = []

-- The metadata of a profile that failed: a failure to write it is only logged.
unfoldable pub finish_failed_profile : World → DbgFlowError → Run → Run
unfolding note
finish_failed_profile w e r =
    note (event "profile_failed" none (some (of_error e)) ∷ metadata_event w.write_metadata) r

unfoldable pub target_pid_from_exit : Result TargetExit → Option ℕ
target_pid_from_exit (ok (exited pid exit_code)) = some pid
target_pid_from_exit (ok (timed_out pid)) = some pid
target_pid_from_exit (err e) = none

abbrev pub tell : ℕ → ℕ → Entry
tell pid collector = told collector pid

-- What the runner's sink does with the process: the collectors are told in the order of their start.
unfoldable pub target_started : Option ℕ → Run → Run
unfolding note reversed
target_started none r = r
target_started (some pid) r =
    note (plain "target_started" ∷ map (tell pid) (reversed r.started_collectors)) r

-- How the profile ended, by how the target did.
pub record Ending : Type 0 where
  pub status : ProfileStatus
  pub reason : ProfileCompletionReason
  pub pid : Option ℕ
  pub exit_code : Option ℕ
  pub error : Option Message
  pub entry : Entry

abbrev or_message : Option Message → Message → Message
or_message none error = error
or_message (some stop_error) error = stop_error

unfoldable pub ending : Result TargetExit → (stop_error : Option Message) → Ending
ending (ok (exited pid exit_code)) stop_error = record {
  status = completed;
  reason = target_exited;
  pid = some pid;
  exit_code = exit_code;
  error = stop_error;
  entry = plain "target_exited";
}
ending (ok (timed_out pid)) stop_error = record {
  status = timed_out_status;
  reason = timeout;
  pid = some pid;
  exit_code = none;
  error = stop_error;
  entry = plain "timeout_reached";
}
ending (err e) stop_error = record {
  status = failed_status;
  reason = target_launch_failed;
  pid = none;
  exit_code = none;
  error = some (or_message stop_error (of_error e));
  entry = event "profile_error" none (some (of_error e));
}

unfoldable pub profile_result : Ending → Run → ProfileResult
unfolding reversed
profile_result end r = record {
  status = end.status;
  completion_reason = end.reason;
  target_pid = end.pid;
  target_exit_code = end.exit_code;
  collector_results = reversed r.collector_results;
  warnings = r.warnings;
  error = end.error;
}

-- From the launch on, the collectors being started.
unfoldable pub run_target : World → RunProfile → Run → Result ProfileResult × Run
unfolding note target_started stop_collectors target_pid_from_exit ending profile_result
run_target w request r =
    let (reported, target_exit) = w.launch_and_wait request.target request.timeout_ms in
    let launched = target_started reported (note (plain "target_launching" ∷ []) r) in
    let (stop_error, s) =
      stop_collectors w (target_pid_from_exit target_exit) launched.started_collectors
        (none, launched) in
    let end = ending target_exit stop_error in
    let ended = note (end.entry ∷ []) s in
    elim w.write_metadata [
      | err e ↦ (err e, ended)
      | ok u ↦ (ok (profile_result end ended), note (plain "profile_completed" ∷ []) ended)
    ]

unfoldable pub collect_and_run : World → RunProfile → Run → Result ProfileResult × Run
unfolding start_collectors finish_failed_profile run_target
collect_and_run w request r =
    let (answer, s) = start_collectors w request.collectors r in
    elim answer [ err e ↦ (err e, finish_failed_profile w e s) | ok u ↦ run_target w request s ]

-- The profile has the slot.
unfoldable pub run_started : World → RunProfile → Run → Result ProfileResult × Run
unfolding note finish_failed_profile collect_and_run
run_started w request r =
    let created = note (plain "profile_created" ∷ []) r in
    elim w.initialize_artifacts [
      | err e ↦ (err e, r)
      | ok u ↦ elim w.empty_stdout [
        | err e ↦ (err e, finish_failed_profile w e created)
        | ok v ↦ elim w.empty_stderr [
          | err e ↦ (err e, finish_failed_profile w e created)
          | ok z ↦ collect_and_run w request created
        ]
      ]
    ]

-- The slot is given back when the guard is dropped, on each way out.
unfoldable pub run_guarded :
    World
    → (ℕ → String)
    → RunProfile
    → (profile_id : ℕ) → Active
    → Result ProfileResult × Run × Active
unfolding run_started start release
run_guarded w busy_message request profile_id active =
    let (answer, held) = start busy_message profile_id active in
    elim answer [
      | err e ↦ (err e, no_run, held)
      | ok guard ↦ let (result, r) = run_started w request no_run in (result, r, release guard held)
    ]

unfoldable pub run_checked :
    World
    → (ℕ → String)
    → RunProfile
    → (profile_id : ℕ) → Active
    → Result ProfileResult × Run × Active
unfolding run_guarded reject_duplicates
run_checked w busy_message request profile_id active =
    if request.timeout_ms == 0
    then (err (backend "profile timeout_ms must be greater than zero"), no_run, active)
    else elim (reject_duplicates [] request.collectors) [
      | err e ↦ (err e, no_run, active)
      | ok u ↦ run_guarded w busy_message request profile_id active
    ]

unfoldable pub run_profile :
    Files
    → World
    → (busy_message : ℕ → String) → RunProfile
    → (profile_id : ℕ) → Active
    → Result ProfileResult × Run × Active
unfolding validate_profile_target with_default_collectors run_checked
run_profile fs w busy_message request profile_id active =
    elim (validate_profile_target fs request.target) [
      | err e ↦ (err e, no_run, active)
      | ok target ↦
          run_checked w busy_message (with_default_collectors (record request { target = target }))
            profile_id active
    ]
