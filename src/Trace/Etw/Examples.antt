-- ===== src/Trace/Etw/Examples.antt =====
-- Runs of the theorems on traces.
use dbgflow.Prelude.{
  ℕ, ◌+◌, ◌-◌, ◌≤◌, ◌≡◌, ◌⊎◌, refl, true, false, none, some, List, [], ◌∷◌, length, lookup, insert,
  erase, arith,
}
use dbgflow.Trace.Etw.{
  DecodedFileIoEvent, DecodedStackWalkEvent, FileIoKind, create, op_end, read, open_path, named,
  in_module, at_address,
}
use dbgflow.Trace.Etw.Settings.{NativeEtwSettings, includes, process}
use dbgflow.Trace.Etw.Settings
use dbgflow.Trace.Etw.Processor.{new, file_io_count_map, count_file_io}
use dbgflow.Trace.Etw.Stack.{ModuleInterval, contains_at, resolve_stack_address}
use dbgflow.Trace.Etw.Stack.Resolved.{Among, NoneContains, LoadedBy, resolve_stack_address-Chosen}
use dbgflow.Trace.Etw.Walk.{prune_loop, process_stack_walk_event}
use dbgflow.Trace.Etw.FileIo.{process_file_io_event}
use dbgflow.Trace.Etw.Finish.{
  Record, walked, filed, process_record, process_trace, finish, post_process_trace, FileIoSummary,
}
use dbgflow.Trace.Etw.Tables.{total}
use dbgflow.Trace.Etw.Account.{
  stack_walks_accounted, pending_stacks_bounded, report_accounted, events_with_irp, InSequence,
}
use dbgflow.Trace.Etw.Decode.UserData.{decode_stack_walk_user_data, non_zero}
use dbgflow.Trace.Etw.Decode.Frames.{
  walk_bytes, words_bytes, walk_event, twos, merged, decode_stack_walk_user_data-merged,
}

abbrev both_sets : NativeEtwSettings
both_sets = record {
  process_place = some process;
  file_io_place = some Settings.file_io;
  stacks_enabled = true;
}

abbrev walk_at : ℕ → ℕ → DecodedStackWalkEvent
walk_at timestamp pid = record {
  event_timestamp = timestamp;
  stack_process = pid;
  stack_thread = 3;
  stack_addresses = 4096 ∷ 0 ∷ [];
}

abbrev file_event : FileIoKind → ℕ → ℕ → DecodedFileIoEvent
file_event event timestamp irp = record {
  event_timestamp = timestamp;
  event_thread_id = 3;
  event = event;
  pid = 7;
  ttid = none;
  path = some "a.txt";
  path_source = some open_path;
  file_object = some 11;
  file_key = none;
  irp_ptr = some irp;
  offset = none;
  io_size = none;
  io_flags = none;
  create_options = none;
  file_attributes = none;
  share_access = none;
  info_class = none;
  extra_info = none;
  nt_status = some 0;
  stack_addresses = [];
}

-- A walk that comes before its event, one of another process, an operation that ends, one that does
-- not, and a walk whose event does not come.
abbrev trace : List Record
trace =
    walked (walk_at 5 7)
    ∷ walked (walk_at 5 9)
    ∷ filed (file_event create 5 100)
    ∷ filed (file_event op_end 6 100)
    ∷ filed (file_event read 7 101)
    ∷ walked (walk_at 9 7)
    ∷ []

abbrev file_summary : FileIoSummary
file_summary = record {
  event_counts = count_file_io read (count_file_io create file_io_count_map);
  stack = record { total = 1; resolved = 0; unresolved = 1 };
  file_path_resolved = 2;
  file_path_unresolved = 0;
  matched_op_end_count = 1;
  unmatched_op_end_count = 0;
  incomplete_io_count = 1;
  reused_irp_without_op_end_count = 0;
}

trace_waits :
    lookup 9 (process_trace trace (new 7 both_sets)).pending_stacks_by_timestamp
    ≡ some (walk_at 9 7 ∷ [])
unfolding process_trace process_record process_stack_walk_event new lookup insert
    process_file_io_event prune_loop erase
trace_waits = refl

trace_reported : (post_process_trace 7 both_sets trace).summary.file_io ≡ some file_summary
unfolding post_process_trace process_trace process_record lookup insert finish erase
trace_reported = refl

stack_walks_accounted_example :
    (process_trace trace (new 7 both_sets)).stack_walk_events
    ≡ (process_trace trace (new 7 both_sets)).matched_stack_walk_events
      + (process_trace trace (new 7 both_sets)).dropped_pending_stack_walk_events
      + total length (process_trace trace (new 7 both_sets)).pending_stacks_by_timestamp
stack_walks_accounted_example = stack_walks_accounted 7 both_sets trace

pending_stacks_bounded_example :
    (length (process_trace trace (new 7 both_sets)).pending_stacks_by_timestamp ≤ 4096)
    × (length (walk_at 9 7 ∷ []) ≤ 32)
pending_stacks_bounded_example =
    pending_stacks_bounded 7 both_sets trace 9 (walk_at 9 7 ∷ []) trace_waits

report_accounted_example :
    (file_summary.matched_op_end_count + file_summary.incomplete_io_count
      ≡ events_with_irp (post_process_trace 7 both_sets trace).file_io_events)
    × (file_summary.file_path_resolved + file_summary.file_path_unresolved
        ≡ length (post_process_trace 7 both_sets trace).file_io_events)
    × InSequence 0 (post_process_trace 7 both_sets trace).file_io_events
report_accounted_example = report_accounted 7 both_sets trace file_summary trace_reported

-- Two modules at one address, the second loaded in the place of the first.
abbrev two_modules : List ModuleInterval
two_modules =
    record { base = 4096; size = 4096; name = named "old.dll"; loaded_at = 1; unloaded_at = some 3 }
    ∷ record { base = 4096; size = 4096; name = named "new.dll"; loaded_at = 4; unloaded_at = none }
    ∷ []

resolve_stack_address-Chosen_example :
    ((a : ModuleInterval) × Among a two_modules
      × (contains_at a 5000 6 ≡ true)
      × LoadedBy a.loaded_at 5000 6 two_modules
      × (resolve_stack_address 5000 two_modules 6
          ≡ record { value = in_module a.name (5000 - a.base); resolved = true }))
    ⊎ (NoneContains 5000 6 two_modules
        × (resolve_stack_address 5000 two_modules 6
            ≡ record { value = at_address 5000; resolved = false }))
resolve_stack_address-Chosen_example = resolve_stack_address-Chosen 5000 6 two_modules

decode_stack_walk_user_data-merged_example :
    decode_stack_walk_user_data (walk_bytes 5 7 3 (words_bytes 4 (twos ((4096, 8192) ∷ []))))
    ≡ some (walk_event 5 7 3 (non_zero (merged ((4096, 8192) ∷ []))))
decode_stack_walk_user_data-merged_example =
    decode_stack_walk_user_data-merged 5 7 3 ((4096, 8192) ∷ []) (omega arith) (omega arith)
      (omega arith) (omega arith, (omega arith, tt))
