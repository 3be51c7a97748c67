-- ===== src/Trace/Profile/CleanUps.antt =====
-- The collectors that could not be started or stopped are cleaned up, in
-- crates/dbgflow-trace/src/profile/manager.rs. There is one kind of collector, and a second one of a kind
-- is rejected.
use dbgflow.Prelude.{
  ℕ, ◌+◌, ◌≡◌, refl, ap, ◌⊎◌, inl, inr, String, Option, none, some, List, [], ◌∷◌, ◌++◌, ◌==◌,
  arith,
}
use dbgflow.Common.Error.{DbgFlowError, Result, ok, err, Message, of_error, result_branch}
use dbgflow.Trace.Profile.{ProfileCollectorConfig, CollectorStop, artifact_name, reject_duplicates}
use dbgflow.Trace.Profile.Collect.{
  World, Entry, Run, started, not_started, told, stop_call, cleanup_call, event, note, clean_up,
  give_up, stop_started_collectors_for_start_failure, start_collector, start_collectors,
  stop_collector, stop_collectors,
}
use dbgflow.Trace.Profile.Counts.{one_if, clean_ups, clean_ups-append}

abbrev if_failed : Result CollectorStop → ℕ → ℕ
if_failed (ok stop) n = 0
if_failed (err e) n = n

-- How often a collector could not be started or not be stopped, by the calls of the journal.
abbrev pub failed_calls : World → ℕ → List Entry → ℕ
failed_calls w collector [] = 0
failed_calls w collector (not_started c ∷ entries) =
    one_if (c == collector) + failed_calls w collector entries
failed_calls w collector (stop_call c pid ∷ entries) =
    if_failed (w.stop c pid) (one_if (c == collector)) + failed_calls w collector entries
failed_calls w collector (_ ∷ entries) = failed_calls w collector entries

failed_calls-append :
    (w : World) (h : ℕ) (xs ys : List Entry)
    → failed_calls w h (xs ++ ys) ≡ failed_calls w h xs + failed_calls w h ys
failed_calls-append w h [] ys = omega arith
failed_calls-append w h (started c ∷ xs) ys = failed_calls-append w h xs ys
failed_calls-append w h (not_started c ∷ xs) ys = omega (arith, failed_calls-append w h xs ys)
failed_calls-append w h (told c pid ∷ xs) ys = failed_calls-append w h xs ys
failed_calls-append w h (stop_call c pid ∷ xs) ys = omega (arith, failed_calls-append w h xs ys)
failed_calls-append w h (cleanup_call c ∷ xs) ys = failed_calls-append w h xs ys
failed_calls-append w h (event n c e ∷ xs) ys = failed_calls-append w h xs ys

module _ (w : World) (h : ℕ) where
  unfoldable pub Cleaned : List Entry → Type 0
  Cleaned entries = clean_ups h entries ≡ failed_calls w h entries

  pub Cleaned-append : (xs ys : List Entry) → Cleaned xs → Cleaned ys → Cleaned (xs ++ ys)
  unfolding Cleaned
  Cleaned-append xs ys a b = omega (arith, clean_ups-append h xs ys, failed_calls-append w h xs ys)

  pub Cleaned-note :
      (entries : List Entry) (r : Run)
      → Cleaned r.journal
      → Cleaned entries
      → Cleaned (note entries r).journal
  unfolding note
  Cleaned-note entries r a b = Cleaned-append r.journal entries a b

  stop_collector-Cleaned :
      (c : ℕ) (target_pid : Option ℕ) (error : Option Message) (r : Run)
      → Cleaned r.journal
      → Cleaned (stop_collector w target_pid c (error, r)).1.journal
  unfolding stop_collector note clean_up Cleaned
  stop_collector-Cleaned c target_pid error r before =
      result_branch (λ (x : Option Message × Run). Cleaned x.1.journal) (w.stop c target_pid) _ _
        (λ e q.
          let cleaned =
            clean_up w c (w.name c) ++ event "profile_error" label (some (of_error e)) ∷ [] in
          omega (
            arith,
            clean_ups-append h r.journal stopping,
            failed_calls-append w h r.journal stopping,
            clean_ups-append h (r.journal ++ stopping) cleaned,
            failed_calls-append w h (r.journal ++ stopping) cleaned,
            ap (λ a. if_failed a (one_if (c == h))) q,
          ))
        (λ stop q.
          let after = event "collector_stopped" label none ∷ [] in
          omega (
            arith,
            clean_ups-append h r.journal stopping,
            failed_calls-append w h r.journal stopping,
            clean_ups-append h (r.journal ++ stopping) after,
            failed_calls-append w h (r.journal ++ stopping) after,
            ap (λ a. if_failed a (one_if (c == h))) q,
          ))
    where
      label : Option String
      label = some (w.name c)

      stopping : List Entry
      stopping = event "collector_stopping" label none ∷ stop_call c target_pid ∷ []

  pub stop_collectors-Cleaned :
      (target_pid : Option ℕ) (collectors : List ℕ) (x : Option Message × Run)
      → Cleaned x.1.journal
      → Cleaned (stop_collectors w target_pid collectors x).1.journal
  unfolding stop_collectors
  stop_collectors-Cleaned target_pid [] x before = before
  stop_collectors-Cleaned target_pid (c ∷ collectors) x before =
      stop_collectors-Cleaned target_pid collectors (stop_collector w target_pid c x)
        (stop_collector-Cleaned c target_pid x.0 x.1 before)

  -- With no collector that is started before, a start that fails stops none.
  journal-give_up :
      (config : ProfileCollectorConfig) (e : DbgFlowError) (r : Run)
      → r.started_collectors ≡ []
      → (give_up w config e r).journal ≡ r.journal
  unfolding give_up stop_started_collectors_for_start_failure
  journal-give_up config e r none_started =
      ap (λ cs. (stop_started_collectors_for_start_failure w cs r).journal) none_started

  give_up-Cleaned :
      (config : ProfileCollectorConfig) (e : DbgFlowError) (entries : List Entry) (r : Run)
      → r.started_collectors ≡ []
      → Cleaned r.journal
      → Cleaned entries
      → Cleaned (give_up w config e (note entries r)).journal
  unfolding note
  give_up-Cleaned config e entries r none_started before now =
      rw (journal-give_up config e (note entries r) none_started)
        (Cleaned-append r.journal entries before now)

  start_collector-Cleaned :
      (config : ProfileCollectorConfig) (r : Run)
      → r.started_collectors ≡ []
      → Cleaned r.journal
      → Cleaned (start_collector w config r).1.journal
  unfolding start_collector note clean_up Cleaned
  start_collector-Cleaned config r none_started before =
      result_branch P (w.collector_dir config) _ _
        (λ e _. give_up-Cleaned config e (failure e) r none_started before refl)
        (λ _ _.
          result_branch P (w.create config) _ _
            (λ e _. give_up-Cleaned config e (failure e) starting none_started begun refl)
            (λ c _.
              result_branch P (w.start c) _ _
                (λ e _.
                  let cleaned = not_started c ∷ clean_up w c (artifact_name config) in
                  Cleaned-note (failure e) (give_up w config e (note cleaned starting))
                    (give_up-Cleaned config e cleaned starting none_started begun refl) refl)
                (λ _ _.
                  Cleaned-note (started c ∷ event "collector_started" name none ∷ []) starting begun
                    refl)))
    where
      P : Result (Unit {0}) × Run → Type 0
      P x = Cleaned x.1.journal

      name : Option String
      name = some (artifact_name config)

      failure : DbgFlowError → List Entry
      failure e = event "profile_error" name (some (of_error e)) ∷ []

      starting : Run
      starting = note (event "collector_starting" name none ∷ []) r

      begun : Cleaned starting.journal
      begun = Cleaned-note (event "collector_starting" name none ∷ []) r before refl

  -- Of a list of collectors with no two of a kind there is at most one.
  at_most_one :
      (configs : List ProfileCollectorConfig)
      → reject_duplicates [] configs ≡ ok tt
      → (configs ≡ []) ⊎ ((config : ProfileCollectorConfig) × (configs ≡ config ∷ []))
  unfolding reject_duplicates
  at_most_one [] h = inl refl
  at_most_one (config ∷ []) h = inr (config, refl)
  at_most_one (config ∷ config' ∷ configs) h = absurd (ground arith)

  pub start_collectors-Cleaned :
      (configs : List ProfileCollectorConfig) (r : Run)
      → reject_duplicates [] configs ≡ ok tt
      → r.started_collectors ≡ []
      → Cleaned r.journal
      → Cleaned (start_collectors w configs r).1.journal
  unfolding start_collectors
  start_collectors-Cleaned configs r single none_started before =
      elim (at_most_one configs single) [
        | inl e ↦ rw e before
        | inr (config, e) ↦ rw e (one config)
      ]
    where
      one :
          (config : ProfileCollectorConfig) → Cleaned (start_collectors w (config ∷ []) r).1.journal
      one config =
          let s = start_collector w config r in
          let after = start_collector-Cleaned config r none_started before in
          result_branch (λ (x : Result (Unit {0}) × Run). Cleaned x.1.journal) s.0 _ _
            (λ _ _. after) (λ _ _. after)
