-- ===== src/Trace/Etw/Decode/Records.antt =====
-- The stack walks that are decoded in crates/dbgflow-trace/src/profile/native_etw.rs, and what a record
-- is.
use dbgflow.Prelude.{
  ℕ, zero, suc, ◌+◌, ◌≡◌, arith, Bool, true, false, not, Option, none, some, List, [], ◌∷◌, map,
  ◌==◌, if◌then◌else◌,
}
use dbgflow.Trace.Etw.{DecodedStackWalkEvent, DecodedLifecycleEvent, DecodedFileIoEvent}
use dbgflow.Trace.Etw.Settings.{NativeEtwSettings}
use dbgflow.Trace.Etw.Processor.{EtwWarning}
use dbgflow.Trace.Etw.Finish.{Record, walked, lived, filed, skipped, Report, post_process_trace}
use dbgflow.Trace.Etw.Decode.UserData.{bytes_to_u64, decode_stack_walk_user_data}
use dbgflow.Trace.Etw.Decode.{
  EventRecord, Provider, stack_walk_guid, and_then, read_u32_any, read_u64_any,
  decode_lifecycle_event, decode_file_io_event,
}

-- The frames from an index on, `rounds` of them at most, up to the first that is not there.
unfoldable pub read_frames : (rounds index : ℕ) → EventRecord → List ℕ
unfolding bytes_to_u64
read_frames zero index r = []
read_frames (suc rounds) index r =
    let rest = read_frames rounds (index + 1) r in
    elim (and_then (r.read_stack_property index) bytes_to_u64) [
      | none ↦ []
      | some address ↦ if address == 0 then rest else address ∷ rest
    ]

abbrev with_frames : Option ℕ → Option ℕ → Option ℕ → List ℕ → Option DecodedStackWalkEvent
with_frames (some timestamp) (some process) (some thread) frames = some (record {
  event_timestamp = timestamp;
  stack_process = process;
  stack_thread = thread;
  stack_addresses = frames;
})
with_frames (some timestamp) (some process) none frames = none
with_frames (some timestamp) none thread frames = none
with_frames none process thread frames = none

unfoldable pub decode_stack_walk_event_with_tdh : EventRecord → Option DecodedStackWalkEvent
unfolding read_frames read_u32_any read_u64_any
decode_stack_walk_event_with_tdh r =
    with_frames (read_u64_any r ("EventTimeStamp" ∷ [])) (read_u32_any r ("StackProcess" ∷ []))
      (read_u32_any r ("StackThread" ∷ [])) (read_frames 192 1 r)

abbrev is_stack_walk : Provider → Bool
is_stack_walk stack_walk_guid = true
is_stack_walk _ = false

unfoldable pub decode_stack_walk_event : EventRecord → Option DecodedStackWalkEvent
unfolding decode_stack_walk_event_with_tdh decode_stack_walk_user_data
decode_stack_walk_event r =
    if not (is_stack_walk r.provider)
    then none
    else if not (r.opcode == 32)
    then none
    else elim (decode_stack_walk_event_with_tdh r) [
      | some stack ↦ some stack
      | none ↦ decode_stack_walk_user_data r.user_data
    ]

abbrev other_record :
    Option DecodedLifecycleEvent × List EtwWarning → Option DecodedFileIoEvent → Record
other_record (some decoded, warnings) file_event = lived decoded
other_record (none, warnings) (some decoded) = filed decoded
other_record (none, warnings) none = skipped warnings

-- A stack walk comes first, then an event of a process, then one of a file, which no warning is about.
unfoldable pub decode_record : EventRecord → Record
unfolding decode_stack_walk_event decode_lifecycle_event decode_file_io_event
decode_record r = elim (decode_stack_walk_event r) [
  | some stack ↦ walked stack
  | none ↦ other_record (decode_lifecycle_event r) (decode_file_io_event r)
]

unfoldable pub post_process_records : ℕ → NativeEtwSettings → List EventRecord → Report
unfolding decode_record post_process_trace
post_process_records target_pid settings records =
    post_process_trace target_pid settings (map decode_record records)

-- A record of a file event gives no warning.
no_file_warning :
    (r : EventRecord) (decoded : DecodedFileIoEvent)
    → decode_file_io_event r ≡ some decoded
    → decode_lifecycle_event r ≡ (none, [])
unfolding decode_file_io_event decode_lifecycle_event
no_file_warning r decoded h = ground arith
