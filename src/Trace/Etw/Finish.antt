-- ===== src/Trace/Etw/Finish.antt =====
-- A trace from its first record to the summary, in crates/dbgflow-trace/src/profile/native_etw.rs.
-- What a record decodes as is an input (Record).
use dbgflow.Prelude.{
  ℕ, ◌+◌, String, Bool, true, false, ◌&&◌, Option, none, some, List, [], ◌∷◌, ◌++◌, length, ltb,
  ◌==◌, if◌then◌else◌,
}
use dbgflow.Trace.Etw.{
  DecodedLifecycleEvent, DecodedFileIoEvent, DecodedStackWalkEvent, LifecycleKind, FileIoKind,
  LifecycleEvent, FileIoEvent,
}
use dbgflow.Trace.Etw.Settings.{NativeEtwSettings, EtwEventSet, includes, event_set_names}
use dbgflow.Trace.Etw.Settings
use dbgflow.Trace.Etw.Stack.{ModuleInterval, StackStats, finalize_stack}
use dbgflow.Trace.Etw.Processor.{
  EtwProcessor, EtwWarning, stacks_unmatched, stacks_dropped, paths_unresolved, op_ends_unmatched,
  irps_reused, io_incomplete, LifecycleRow, FileIoRow, new,
}
use dbgflow.Trace.Etw.Walk.{process_stack_walk_event}
use dbgflow.Trace.Etw.Lifecycle.{process_lifecycle_event}
use dbgflow.Trace.Etw.FileIo.{process_file_io_event}

-- A record is a stack walk, an event of one of the sets, or nothing that is looked at. Decoding it
-- can add a warning.
pub data Record : Type 0 where
  walked : DecodedStackWalkEvent → Record
  lived : DecodedLifecycleEvent → Record
  filed : DecodedFileIoEvent → Record
  skipped : List EtwWarning → Record

unfoldable pub process_record : Record → EtwProcessor → EtwProcessor
unfolding process_stack_walk_event process_lifecycle_event process_file_io_event includes
process_record (walked stack) p = process_stack_walk_event stack p
process_record (lived decoded) p = process_lifecycle_event decoded p
process_record (filed decoded) p =
    if includes Settings.file_io p.settings then process_file_io_event decoded p else p
process_record (skipped warnings) p = record p { warnings = p.warnings ++ warnings }

-- `ProcessTrace` calls back for each record of the trace.
unfoldable pub process_trace : List Record → EtwProcessor → EtwProcessor
unfolding process_record
process_trace [] p = p
process_trace (r ∷ rs) p = process_trace rs (process_record r p)

-- The events with their stacks, and the frames counted.
unfoldable pub finalize_lifecycle :
    List ModuleInterval → List LifecycleRow → StackStats → List LifecycleEvent × StackStats
unfolding finalize_stack
finalize_lifecycle modules [] stats = ([], stats)
finalize_lifecycle modules (row ∷ rows) stats =
    let (stack, stats') = finalize_stack row.addresses modules row.timestamp stats in
    let (events, stats'') = finalize_lifecycle modules rows stats' in
    let event = row.event in (record event { stack = stack } ∷ events, stats'')

unfoldable pub finalize_file_io :
    List ModuleInterval → List FileIoRow → StackStats → List FileIoEvent × StackStats
unfolding finalize_stack
finalize_file_io modules [] stats = ([], stats)
finalize_file_io modules (row ∷ rows) stats =
    let (stack, stats') = finalize_stack row.addresses modules row.timestamp stats in
    let (events, stats'') = finalize_file_io modules rows stats' in
    let event = row.event in (record event { stack = stack } ∷ events, stats'')

abbrev warn_if : Bool → EtwWarning → List EtwWarning
warn_if true warning = warning ∷ []
warn_if false warning = []

unfoldable pub stack_warnings : Bool → EtwProcessor → List EtwWarning
stack_warnings stacks_enabled p =
    warn_if (stacks_enabled && ltb 0 p.stack_walk_events && p.matched_stack_walk_events == 0)
      (stacks_unmatched p.stack_walk_events)
    ++ warn_if (stacks_enabled && ltb 0 p.dropped_pending_stack_walk_events)
        (stacks_dropped p.dropped_pending_stack_walk_events)

unfoldable pub incomplete_io_count : EtwProcessor → ℕ
incomplete_io_count p = length p.pending_file_irps + p.reused_irp_without_op_end_count

unfoldable pub io_warnings : EtwProcessor → List EtwWarning
unfolding incomplete_io_count
io_warnings p =
    warn_if (ltb 0 p.file_path_unresolved) (paths_unresolved p.file_path_unresolved)
    ++ warn_if (ltb 0 p.unmatched_op_end_count) (op_ends_unmatched p.unmatched_op_end_count)
    ++ warn_if (ltb 0 p.reused_irp_without_op_end_count)
        (irps_reused p.reused_irp_without_op_end_count)
    ++ warn_if (ltb 0 (incomplete_io_count p)) (io_incomplete (incomplete_io_count p))

pub record LifecycleSummary : Type 0 where
  pub event_counts : List (LifecycleKind × ℕ)
  pub stack : StackStats

pub record FileIoSummary : Type 0 where
  pub event_counts : List (FileIoKind × ℕ)
  pub stack : StackStats
  pub file_path_resolved : ℕ
  pub file_path_unresolved : ℕ
  pub matched_op_end_count : ℕ
  pub unmatched_op_end_count : ℕ
  pub incomplete_io_count : ℕ
  pub reused_irp_without_op_end_count : ℕ

pub record EtwSummary : Type 0 where
  pub target_pid : ℕ
  pub requested_event_sets : List String
  pub stacks_enabled : Bool
  pub process : Option LifecycleSummary
  pub file_io : Option FileIoSummary
  pub warnings : List EtwWarning

-- What is written: the events of the two sets, and the summary.
pub record Report : Type 0 where
  pub process_events : List LifecycleEvent
  pub file_io_events : List FileIoEvent
  pub summary : EtwSummary

unfoldable pub finish : EtwProcessor → Report
unfolding event_set_names finalize_lifecycle finalize_file_io stack_warnings io_warnings includes
    incomplete_io_count
finish p =
    let (process_events, lifecycle_stats) =
      finalize_lifecycle p.modules p.lifecycle_rows p.lifecycle_stack_stats in
    let (file_io_events, file_io_stats) =
      finalize_file_io p.modules p.file_io_rows p.file_io_stack_stats in
    record {
      process_events = process_events;
      file_io_events = file_io_events;
      summary = record {
        target_pid = p.target_pid;
        requested_event_sets = event_set_names p.settings;
        stacks_enabled = p.settings.stacks_enabled;
        process =
            if includes Settings.process p.settings
            then some (record { event_counts = p.lifecycle_event_counts; stack = lifecycle_stats })
            else none;
        file_io =
            if includes Settings.file_io p.settings
            then some (record {
              event_counts = p.file_io_event_counts;
              stack = file_io_stats;
              file_path_resolved = p.file_path_resolved;
              file_path_unresolved = p.file_path_unresolved;
              matched_op_end_count = p.matched_op_end_count;
              unmatched_op_end_count = p.unmatched_op_end_count;
              incomplete_io_count = incomplete_io_count p;
              reused_irp_without_op_end_count = p.reused_irp_without_op_end_count;
            })
            else none;
        warnings = p.warnings ++ (stack_warnings p.settings.stacks_enabled p ++ io_warnings p);
      };
    }

unfoldable pub post_process_trace : ℕ → NativeEtwSettings → List Record → Report
unfolding process_trace finish new
post_process_trace target_pid settings records =
    finish (process_trace records (new target_pid settings))
