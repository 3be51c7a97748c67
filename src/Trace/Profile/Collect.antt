-- ===== src/Trace/Profile/Collect.antt =====
-- The collectors of a profile in crates/dbgflow-trace/src/profile/manager.rs: they are started one
-- after the other, and those that were started are stopped in the other order. A collector is the
-- number by which the factory hands it out.
use dbgflow.Prelude.{ℕ, String, Option, none, some, List, [], ◌∷◌, ◌++◌, map}
use dbgflow.Common.Error.{DbgFlowError, Result, ok, err, Message, of_error}
use dbgflow.Trace.Profile.{
  ProfileCollectorConfig, ProfileCollectorKind, ProfileCollectorResult, CollectorStop, TargetExit,
  ProfileTarget, collector_kind, artifact_name, stopped, not_stopped, Warning, own, stop_failed,
  cleanup_failed,
}

-- What the factory, the collectors, the runner and the disk answer.
pub record World : Type 0 where
  pub collector_dir : ProfileCollectorConfig → Result (Unit {0})
  pub create : ProfileCollectorConfig → Result ℕ
  pub name : ℕ → String
  pub kind : ℕ → ProfileCollectorKind
  pub start : ℕ → Result (List String)
  pub stop : ℕ → Option ℕ → Result CollectorStop
  pub cleanup : ℕ → Result (Unit {0})
  -- The process that the runner reports to its sink, and how the run ends.
  pub launch_and_wait : ProfileTarget → (timeout_ms : ℕ) → Option ℕ × Result TargetExit
  pub initialize_artifacts : Result (Unit {0})
  pub empty_stdout : Result (Unit {0})
  pub empty_stderr : Result (Unit {0})
  pub write_metadata : Result (Unit {0})

-- The calls of collectors and the events of the profile, in order. A file that an event names is left
-- out.
pub data Entry : Type 0 where
  started : ℕ → Entry
  not_started : ℕ → Entry
  told : ℕ → (pid : ℕ) → Entry
  stop_call : ℕ → (target_pid : Option ℕ) → Entry
  cleanup_call : ℕ → Entry
  event : (name : String) → (collector : Option String) → (error : Option Message) → Entry

-- `started` has the collector that was started last first.
pub record Run : Type 0 where
  pub journal : List Entry
  pub started_collectors : List ℕ
  pub collector_results : List ProfileCollectorResult
  pub warnings : List Warning

unfoldable pub note : List Entry → Run → Run
note entries r = record r { journal = r.journal ++ entries }

abbrev pub error_of : Result (Unit {0}) → Option Message
error_of (ok u) = none
error_of (err e) = some (of_error e)

abbrev pub cleanup_event : Result (Unit {0}) → String
cleanup_event (ok u) = "collector_cleanup_finished"
cleanup_event (err e) = "collector_cleanup_failed"

-- `cleanup` and the event about it.
unfoldable pub clean_up : World → (collector : ℕ) → (label : String) → List Entry
clean_up w collector label =
    cleanup_call collector
    ∷ event (cleanup_event (w.cleanup collector)) (some label) (error_of (w.cleanup collector))
    ∷ []

abbrev result_of : World → ℕ → Result CollectorStop → ProfileCollectorResult
result_of w collector (ok stop) = record {
  kind = w.kind collector;
  name = w.name collector;
  outcome = stopped stop;
}
result_of w collector (err e) = record {
  kind = w.kind collector;
  name = w.name collector;
  outcome = not_stopped (of_error e);
}

abbrev pub stop_entry : Option String → Result CollectorStop → Entry
stop_entry label (ok stop) = event "collector_stopped" label none
stop_entry label (err e) = event "profile_error" label (some (of_error e))

-- After a start that failed: those that were started are stopped. There is one kind of collector, and
-- run_profile rejects a second one of a kind, so that it calls this only with an empty list.
unfoldable pub stop_started_collectors_for_start_failure : World → List ℕ → Run → Run
unfolding note
stop_started_collectors_for_start_failure w [] r = record r { started_collectors = [] }
stop_started_collectors_for_start_failure w (collector ∷ collectors) r =
    let label = some (w.name collector) in
    let answer = w.stop collector none in
    let noted =
      note
        (event "collector_stopping" label none
          ∷ stop_call collector none
          ∷ stop_entry label answer
          ∷ [])
        r in
    stop_started_collectors_for_start_failure w collectors (record noted {
      collector_results = r.collector_results ++ result_of w collector answer ∷ [];
    })

unfoldable pub failed_collector_result : ProfileCollectorConfig → Message → ProfileCollectorResult
failed_collector_result config error = record {
  kind = collector_kind config;
  name = artifact_name config;
  outcome = not_stopped error;
}

-- The end of a start that failed: the result of the collector comes after those of the others.
unfoldable pub give_up : World → ProfileCollectorConfig → DbgFlowError → Run → Run
unfolding stop_started_collectors_for_start_failure failed_collector_result
give_up w config e r =
    let s = stop_started_collectors_for_start_failure w r.started_collectors r in
    record s {
      collector_results = s.collector_results ++ failed_collector_result config (of_error e) ∷ [];
    }

abbrev start_event : String → ProfileCollectorConfig → Option Message → Entry
start_event name config error = event name (some (artifact_name config)) error

-- One round of the loop: whether to go on.
unfoldable pub start_collector : World → ProfileCollectorConfig → Run → Result (Unit {0}) × Run
unfolding note clean_up give_up
start_collector w config r = elim (w.collector_dir config) [
  | err e ↦ (
    err e,
    give_up w config e (note (start_event "profile_error" config (some (of_error e)) ∷ []) r),
  )
  | ok u ↦
      let starting = note (start_event "collector_starting" config none ∷ []) r in
      elim (w.create config) [
        | err e ↦ (
          err e,
          give_up w config e
              (note (start_event "profile_error" config (some (of_error e)) ∷ []) starting),
        )
        | ok collector ↦ elim (w.start collector) [
          | ok warnings ↦
              let noted =
                note (started collector ∷ start_event "collector_started" config none ∷ [])
                  starting in
              (
                ok tt,
                record noted {
                  warnings = r.warnings ++ map own warnings;
                  started_collectors = collector ∷ r.started_collectors;
                },
              )
          | err e ↦
              let cleaned =
                note (not_started collector ∷ clean_up w collector (artifact_name config))
                  starting in
              let given = give_up w config e cleaned in
              (err e, note (start_event "profile_error" config (some (of_error e)) ∷ []) given)
        ]
      ]
]

unfoldable pub start_collectors :
    World → List ProfileCollectorConfig → Run → Result (Unit {0}) × Run
unfolding start_collector
start_collectors w [] r = (ok tt, r)
start_collectors w (config ∷ configs) r =
    let (answer, s) = start_collector w config r in
    let rest = start_collectors w configs s in elim answer [ ok u ↦ rest | err e ↦ (err e, s) ]

abbrev first_error : Option Message → Message → Option Message
first_error none error = some error
first_error (some old) error = some old

abbrev clean_up_warning : World → ℕ → Result (Unit {0}) → List Warning
clean_up_warning w collector (ok u) = []
clean_up_warning w collector (err e) = cleanup_failed (w.name collector) (of_error e) ∷ []

-- One round of the loop that stops: the first error is kept.
unfoldable pub stop_collector : World → Option ℕ → ℕ → Option Message × Run → Option Message × Run
unfolding note clean_up
stop_collector w target_pid collector (stop_error, r) =
    let label = some (w.name collector) in
    let stopping =
      note (event "collector_stopping" label none ∷ stop_call collector target_pid ∷ []) r in
    elim (w.stop collector target_pid) [
      | ok stop ↦
          let noted = note (event "collector_stopped" label none ∷ []) stopping in
          (
            stop_error,
            record noted {
              warnings = r.warnings ++ map own stop.warnings;
              collector_results = r.collector_results ++ result_of w collector (ok stop) ∷ [];
            },
          )
      | err e ↦
          let noted =
            note
              (clean_up w collector (w.name collector)
                ++ event "profile_error" label (some (of_error e)) ∷ [])
              stopping in
          (
            first_error stop_error (of_error e),
            record noted {
              warnings =
                  r.warnings
                  ++ stop_failed (w.name collector) (of_error e)
                    ∷ clean_up_warning w collector (w.cleanup collector);
              collector_results = r.collector_results ++ result_of w collector (err e) ∷ [];
            },
          )
    ]

-- `into_iter().rev()`: from the one that was started last.
unfoldable pub stop_collectors :
    World → Option ℕ → List ℕ → Option Message × Run → Option Message × Run
unfolding stop_collector
stop_collectors w target_pid [] r = r
stop_collectors w target_pid (collector ∷ collectors) r =
    stop_collectors w target_pid collectors (stop_collector w target_pid collector r)
