-- ===== src/Trace/Profile/Ended.antt =====
-- At the end of a profile each start of a collector is answered by a stop, in
-- crates/dbgflow-trace/src/profile/manager.rs.
use dbgflow.Prelude.{ℕ, ◌≡◌, refl, subst, sym, Option, none, some, List, [], ◌∷◌, map}
use dbgflow.Common.Error.{DbgFlowError, Result, ok, err, Message, of_error, result_branch}
use dbgflow.Trace.Profile.{TargetExit, exited, timed_out, RunProfile, ProfileResult}
use dbgflow.Trace.Profile.Collect.{World, Run, event, note, start_collectors, stop_collectors}
use dbgflow.Trace.Profile.Counts.{starts, stops, occurrences}
use dbgflow.Trace.Profile.Run.{
  run_started, collect_and_run, run_target, finish_failed_profile, target_started, reversed, no_run,
  metadata_event, tell, Ending, ending, target_pid_from_exit,
}
use dbgflow.Trace.Profile.Stopped.{
  Open, Open-note, AfterStart, start_collectors-AfterStart, stop_collectors-Open,
}

told_silent :
    (h pid : ℕ) (collectors : List ℕ)
    → (starts h (map (tell pid) collectors) ≡ 0) × (stops h (map (tell pid) collectors) ≡ 0)
told_silent h pid [] = (refl, refl)
told_silent h pid (c ∷ collectors) = told_silent h pid collectors

target_started-Open :
    (reported : Option ℕ) (h n : ℕ) (r : Run) → Open h n r → Open h n (target_started reported r)
unfolding target_started
target_started-Open none h n r o = o
target_started-Open (some pid) h n r o =
    let told = told_silent h pid (reversed r.started_collectors) in
    Open-note h n
      (event "target_started" none none ∷ map (tell pid) (reversed r.started_collectors)) r told.0
      told.1 o

ending_silent :
    (h : ℕ) (target_exit : Result TargetExit) (e : Option Message)
    → (starts h ((ending target_exit e).entry ∷ []) ≡ 0)
      × (stops h ((ending target_exit e).entry ∷ []) ≡ 0)
unfolding ending
ending_silent h (ok (exited pid exit_code)) e = (refl, refl)
ending_silent h (ok (timed_out pid)) e = (refl, refl)
ending_silent h (err error) e = (refl, refl)

started-target_started :
    (reported : Option ℕ) (r : Run)
    → (target_started reported r).started_collectors ≡ r.started_collectors
unfolding target_started note
started-target_started none r = refl
started-target_started (some pid) r = refl

run_target-Open :
    (w : World) (request : RunProfile) (h : ℕ) (r : Run)
    → Open h (occurrences h r.started_collectors) r
    → Open h 0 (run_target w request r).1
unfolding run_target note
run_target-Open w request h r o =
    result_branch (λ (x : Result ProfileResult × Run). Open h 0 x.1) w.write_metadata _ _
      (λ e q. ended)
      (λ u q.
        Open-note h 0 (event "profile_completed" none none ∷ []) (note (end.entry ∷ []) stopped.1)
          refl refl ended)
  where
    launch : Option ℕ × Result TargetExit
    launch = w.launch_and_wait request.target request.timeout_ms

    launched : Run
    launched = target_started launch.0 (note (event "target_launching" none none ∷ []) r)

    stopped : Option Message × Run
    stopped =
        stop_collectors w (target_pid_from_exit launch.1) launched.started_collectors
          (none, launched)

    end : Ending
    end = ending launch.1 stopped.0

    opened : Open h (occurrences h launched.started_collectors) launched
    opened =
        subst (λ (cs : List ℕ). Open h (occurrences h cs) launched)
          (sym (started-target_started launch.0 (note (event "target_launching" none none ∷ []) r)))
          (target_started-Open launch.0 h (occurrences h r.started_collectors)
            (note (event "target_launching" none none ∷ []) r)
            (Open-note h (occurrences h r.started_collectors)
              (event "target_launching" none none ∷ []) r refl refl o))

    ended : Open h 0 (note (end.entry ∷ []) stopped.1)
    ended =
        let s = ending_silent h launch.1 stopped.0 in
        Open-note h 0 (end.entry ∷ []) stopped.1 s.0 s.1 (
          stop_collectors-Open w h (target_pid_from_exit launch.1) launched.started_collectors
            (none, launched) opened)

finish_failed_profile-Open :
    (w : World) (e : DbgFlowError) (h : ℕ) (r : Run)
    → Open h 0 r
    → Open h 0 (finish_failed_profile w e r)
unfolding finish_failed_profile
finish_failed_profile-Open w e h r o =
    let s = metadata_silent w.write_metadata in
    Open-note h 0
      (event "profile_failed" none (some (of_error e)) ∷ metadata_event w.write_metadata) r s.0 s.1
      o
  where
    metadata_silent :
        (answer : Result (Unit {0}))
        → (starts h (metadata_event answer) ≡ 0) × (stops h (metadata_event answer) ≡ 0)
    metadata_silent (ok u) = (refl, refl)
    metadata_silent (err e) = (refl, refl)

collect_and_run-Open :
    (w : World) (request : RunProfile) (h : ℕ) (r : Run)
    → Open h (occurrences h r.started_collectors) r
    → Open h 0 (collect_and_run w request r).1
unfolding collect_and_run AfterStart
collect_and_run-Open w request h r o =
    let s = start_collectors w request.collectors r in
    let v = start_collectors-AfterStart w h request.collectors r o in
    result_branch (λ (x : Result ProfileResult × Run). Open h 0 x.1) s.0 _ _
      (λ e q.
        finish_failed_profile-Open w e h s.1
          (subst (λ (a : Result (Unit {0})). AfterStart h a s.1) q v))
      (λ u q.
        run_target-Open w request h s.1 (subst (λ (a : Result (Unit {0})). AfterStart h a s.1) q v))

pub run_started-Open :
    (w : World) (request : RunProfile) (h : ℕ) → Open h 0 (run_started w request no_run).1
unfolding run_started Open note
run_started-Open w request h =
    let P = (λ (x : Result ProfileResult × Run). Open h 0 x.1) in
    let created = note (event "profile_created" none none ∷ []) no_run in
    result_branch P w.initialize_artifacts _ _ (λ e q. refl)
      (λ u q.
        result_branch P w.empty_stdout _ _ (λ e q'. finish_failed_profile-Open w e h created refl)
          (λ v q'.
            result_branch P w.empty_stderr _ _
              (λ e q''. finish_failed_profile-Open w e h created refl)
              (λ z q''. collect_and_run-Open w request h created refl)))
