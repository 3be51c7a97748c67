-- ===== src/Trace/Profile/Examples.antt =====
-- Runs of the theorems on profiles.
use dbgflow.Prelude.{ℕ, ◌≡◌, refl, String, true, none, some, []}
use dbgflow.Common.Error.{ok, err, backend}
use dbgflow.Session.Target.{Files, found}
use dbgflow.Trace.Profile.{RunProfile, native_etw, exited}
use dbgflow.Trace.Profile.Collect.{World}
use dbgflow.Trace.Profile.Counts.{starts, stops, clean_ups}
use dbgflow.Trace.Profile.Run.{run_profile}
use dbgflow.Trace.Profile.Released.{run_profile-LetGo}
use dbgflow.Trace.Profile.CleanUps.{failed_calls}
use dbgflow.Trace.Profile.Cleaned.{run_profile-clean_ups}

abbrev all_files : Files
all_files = record { canonicalize = found; is_file = λ _. true; own_pid = 4 }

-- The one collector can be started, and its stop fails.
abbrev stuck_collector : World
stuck_collector = record {
  collector_dir = λ _. ok tt;
  create = λ _. ok 5;
  name = λ _. "native_etw";
  kind = λ _. native_etw;
  start = λ _. ok [];
  stop = λ _ _. err (backend "no trace");
  cleanup = λ _. ok tt;
  launch_and_wait = λ _ _. (some 12, ok (exited 12 (some 0)));
  initialize_artifacts = ok tt;
  empty_stdout = ok tt;
  empty_stderr = ok tt;
  write_metadata = ok tt;
}

abbrev request : RunProfile
request = record {
  target = record { executable = "app.exe"; args = [] };
  timeout_ms = 1000;
  collectors = [];
}

abbrev busy : ℕ → String
busy _ = "another profile job is already active"

run_profile-LetGo_example :
    (starts 5 (run_profile all_files stuck_collector busy request 9 none).1.journal
      ≡ stops 5 (run_profile all_files stuck_collector busy request 9 none).1.journal)
    × ((run_profile all_files stuck_collector busy request 9 none).2 ≡ none)
run_profile-LetGo_example = run_profile-LetGo all_files stuck_collector busy request 9 none 5

-- The collector was started and stopped once.
stopped_once : stops 5 (run_profile all_files stuck_collector busy request 9 none).1.journal ≡ 1
unfolding run_profile
stopped_once = refl

run_profile-clean_ups_example :
    clean_ups 5 (run_profile all_files stuck_collector busy request 9 none).1.journal
    ≡ failed_calls stuck_collector 5
        (run_profile all_files stuck_collector busy request 9 none).1.journal
run_profile-clean_ups_example =
    run_profile-clean_ups all_files stuck_collector busy request 9 none 5

-- Its stop failed, and it was cleaned up once.
cleaned_once : clean_ups 5 (run_profile all_files stuck_collector busy request 9 none).1.journal ≡ 1
unfolding run_profile
cleaned_once = refl
