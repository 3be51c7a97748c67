-- ===== src/Trace/Profile/Stopped.antt =====
-- The collectors that a profile starts are stopped, in crates/dbgflow-trace/src/profile/manager.rs.
use dbgflow.Prelude.{
  ℕ, ◌+◌, ◌≡◌, refl, subst, String, Option, none, some, List, [], ◌∷◌, ◌++◌, ◌==◌, arith,
}
use dbgflow.Common.Error.{DbgFlowError, Result, ok, err, Message, of_error, result_branch}
use dbgflow.Trace.Profile.{artifact_name, ProfileCollectorConfig, CollectorStop}
use dbgflow.Trace.Profile.Collect.{
  World, Entry, Run, started, not_started, stop_call, event, note, clean_up, give_up,
  stop_started_collectors_for_start_failure, stop_entry, start_collector, start_collectors,
  stop_collector, stop_collectors,
}
use dbgflow.Trace.Profile.Counts.{
  one_if, starts, stops, clean_ups, occurrences, starts-append, stops-append,
}

-- `n` starts of a collector that no stop answers.
unfoldable pub Open : (h n : ℕ) → Run → Type 0
Open h n r = starts h r.journal ≡ stops h r.journal + n

pub Open-note :
    (h n : ℕ) (entries : List Entry) (r : Run)
    → starts h entries ≡ 0
    → stops h entries ≡ 0
    → Open h n r
    → Open h n (note entries r)
unfolding note Open
Open-note h n entries r a b o =
    omega (arith, starts-append h r.journal entries, stops-append h r.journal entries)

silent :
    (h : ℕ) (label : Option String) (answer : Result CollectorStop)
    → (starts h (stop_entry label answer ∷ []) ≡ 0)
      × (stops h (stop_entry label answer ∷ []) ≡ 0)
      × (clean_ups h (stop_entry label answer ∷ []) ≡ 0)
silent h label (ok stop) = (refl, refl, refl)
silent h label (err e) = (refl, refl, refl)

-- What is noted about a collector that is stopped.
unfoldable stop_entries : World → ℕ → List Entry
stop_entries w collector =
    event "collector_stopping" (some (w.name collector)) none
    ∷ stop_call collector none
    ∷ stop_entry (some (w.name collector)) (w.stop collector none)
    ∷ []

stop_started-Open :
    (w : World) (h : ℕ) (collectors : List ℕ) (r : Run)
    → Open h (occurrences h collectors) r
    → Open h 0 (stop_started_collectors_for_start_failure w collectors r)
unfolding stop_started_collectors_for_start_failure note Open stop_entries
stop_started-Open w h [] r o = o
stop_started-Open w h (collector ∷ collectors) r o =
    let entries = stop_entries w collector in
    let s = silent h (some (w.name collector)) (w.stop collector none) in
    stop_started-Open w h collectors _
      (omega (arith, starts-append h r.journal entries, stops-append h r.journal entries, s.0, s.1))

give_up-Open :
    (w : World) (config : ProfileCollectorConfig) (e : DbgFlowError) (h : ℕ) (r : Run)
    → Open h (occurrences h r.started_collectors) r
    → Open h 0 (give_up w config e r)
unfolding give_up Open
give_up-Open w config e h r o = stop_started-Open w h r.started_collectors r o

-- After a start, each start is answered by a stop, or the collector is one of those that are started.
unfoldable pub AfterStart : ℕ → Result (Unit {0}) → Run → Type 0
AfterStart h (ok u) r = Open h (occurrences h r.started_collectors) r
AfterStart h (err e) r = Open h 0 r

started-Open :
    (h collector : ℕ) (collectors : List ℕ) (r : Run) (entries : List Entry)
    → starts h entries ≡ 0
    → stops h entries ≡ 0
    → Open h (occurrences h collectors) r
    → starts h (r.journal ++ started collector ∷ entries)
      ≡ stops h (r.journal ++ started collector ∷ entries) + occurrences h (collector ∷ collectors)
unfolding Open
started-Open h collector collectors r entries a b o = omega (
  arith,
  starts-append h r.journal (started collector ∷ entries),
  stops-append h r.journal (started collector ∷ entries),
)

start_collector-AfterStart :
    (w : World) (config : ProfileCollectorConfig) (h : ℕ) (r : Run)
    → Open h (occurrences h r.started_collectors) r
    → AfterStart h (start_collector w config r).0 (start_collector w config r).1
unfolding start_collector AfterStart Open note clean_up
start_collector-AfterStart w config h r o =
    let P = (λ (x : Result (Unit {0}) × Run). AfterStart h x.0 x.1) in
    let loud =
      (λ (name : String) (e : Option Message). event name (some (artifact_name config)) e ∷ []) in
    let starting = note (loud "collector_starting" none) r in
    let begun =
      Open-note h (occurrences h r.started_collectors) (loud "collector_starting" none) r refl refl
        o in
    result_branch P (w.collector_dir config) _ _
      (λ e q. give_up-Open w config e h (note (loud "profile_error" (some (of_error e))) r) (
        Open-note h (occurrences h r.started_collectors) (loud "profile_error" (some (of_error e)))
          r refl refl o))
      (λ u q.
        result_branch P (w.create config) _ _
          (λ e q'.
            give_up-Open w config e h (note (loud "profile_error" (some (of_error e))) starting) (
              Open-note h (occurrences h r.started_collectors)
                (loud "profile_error" (some (of_error e))) starting refl refl begun))
          (λ collector q'.
            result_branch P (w.start collector) _ _
              (λ e q''.
                Open-note h 0 (loud "profile_error" (some (of_error e)))
                  (give_up w config e (
                    note (not_started collector ∷ clean_up w collector (artifact_name config))
                      starting))
                  refl refl
                  (give_up-Open w config e h
                    (note (not_started collector ∷ clean_up w collector (artifact_name config))
                      starting)
                    (Open-note h (occurrences h r.started_collectors)
                      (not_started collector ∷ clean_up w collector (artifact_name config)) starting
                      refl refl begun)))
              (λ warnings q''.
                started-Open h collector r.started_collectors starting
                  (loud "collector_started" none) refl refl begun)))

pub start_collectors-AfterStart :
    (w : World) (h : ℕ) (configs : List ProfileCollectorConfig) (r : Run)
    → Open h (occurrences h r.started_collectors) r
    → AfterStart h (start_collectors w configs r).0 (start_collectors w configs r).1
unfolding start_collectors AfterStart
start_collectors-AfterStart w h [] r o = o
start_collectors-AfterStart w h (config ∷ configs) r o =
    let s = start_collector w config r in
    let v = start_collector-AfterStart w config h r o in
    result_branch (λ (x : Result (Unit {0}) × Run). AfterStart h x.0 x.1) s.0 _ _
      (λ e q. subst (λ (a : Result (Unit {0})). AfterStart h a s.1) q v)
      (λ u q.
        start_collectors-AfterStart w h configs s.1
          (subst (λ (a : Result (Unit {0})). AfterStart h a s.1) q v))

stop_collector-Open :
    (w : World) (h n : ℕ) (pid : Option ℕ) (collector : ℕ) (e : Option Message) (r : Run)
    → Open h (one_if (collector == h) + n) r
    → Open h n (stop_collector w pid collector (e, r)).1
unfolding stop_collector Open note clean_up
stop_collector-Open w h n pid collector error r o =
    result_branch (λ (x : Option Message × Run). Open h n x.1) (w.stop collector pid) _ _
      (λ e q.
        Open-note h n
          (clean_up w collector (w.name collector)
            ++ event "profile_error" (some (w.name collector)) (some (of_error e)) ∷ [])
          stopping refl refl stopped)
      (λ stop q.
        Open-note h n (event "collector_stopped" (some (w.name collector)) none ∷ []) stopping refl
          refl stopped)
  where
    entries : List Entry
    entries =
        event "collector_stopping" (some (w.name collector)) none ∷ stop_call collector pid ∷ []

    stopping : Run
    stopping = note entries r

    stopped : Open h n stopping
    stopped = omega (arith, starts-append h r.journal entries, stops-append h r.journal entries)

pub stop_collectors-Open :
    (w : World) (h : ℕ) (pid : Option ℕ) (collectors : List ℕ) (r : Option Message × Run)
    → Open h (occurrences h collectors) r.1
    → Open h 0 (stop_collectors w pid collectors r).1
unfolding stop_collectors
stop_collectors-Open w h pid [] r o = o
stop_collectors-Open w h pid (collector ∷ collectors) r o =
    stop_collectors-Open w h pid collectors (stop_collector w pid collector r)
      (stop_collector-Open w h (occurrences h collectors) pid collector r.0 r.1 o)
