-- ===== src/Trace/Etw/Account.antt =====
-- What the report of a trace accounts for, in native_etw.rs.
use dbgflow.Prelude.{
  ℕ, suc, ◌+◌, ◌≤◌, ◌≡◌, refl, ap, some, List, [], ◌∷◌, length, lookup, arith, Bool-cases, inl, inr,
}
use dbgflow.Trace.Etw.{DecodedStackWalkEvent, FileIoEvent}
use dbgflow.Trace.Etw.Settings.{NativeEtwSettings, includes}
use dbgflow.Trace.Etw.Settings
use dbgflow.Trace.Etw.Stack.{ModuleInterval, StackStats, finalize_stack}
use dbgflow.Trace.Etw.Processor.{EtwProcessor, FileIoRow, new}
use dbgflow.Trace.Etw.Walk.Waiting.{WalkInvariant, Entry}
use dbgflow.Trace.Etw.Walk.Settled.{process_stack_walk_event-WalkInvariant}
use dbgflow.Trace.Etw.Events.{
  process_lifecycle_event-WalkInvariant, process_file_io_event-WalkInvariant,
}
use dbgflow.Trace.Etw.FileIo.Rows.{IoInvariant, given, with_irp, Numbered, Below}
use dbgflow.Trace.Etw.FileIo.Kept.{
  process_stack_walk_event-IoInvariant, process_lifecycle_event-IoInvariant,
  process_file_io_event-IoInvariant,
}
use dbgflow.Trace.Etw.Finish.{
  Record, walked, lived, filed, skipped, process_record, process_trace, finish, finalize_file_io,
  post_process_trace, FileIoSummary, incomplete_io_count,
}
use dbgflow.Trace.Etw.Tables.{total, lookup-AllEntries}

record Invariant (p : EtwProcessor) : Type 0 where
  walks : WalkInvariant 0 p
  io : IoInvariant p

process_record-Invariant :
    (r : Record) (p : EtwProcessor) → Invariant p → Invariant (process_record r p)
unfolding process_record
process_record-Invariant (walked stack) p v = record {
  walks = process_stack_walk_event-WalkInvariant stack p v.walks;
  io = process_stack_walk_event-IoInvariant stack p v.io;
}
process_record-Invariant (lived decoded) p v = record {
  walks = process_lifecycle_event-WalkInvariant decoded p v.walks;
  io = process_lifecycle_event-IoInvariant decoded p v.io;
}
process_record-Invariant (filed decoded) p v =
    elim (Bool-cases (includes Settings.file_io p.settings)) [
      | inl e ↦ rw e (record {
        walks = process_file_io_event-WalkInvariant decoded p v.walks;
        io = process_file_io_event-IoInvariant decoded p v.io;
      })
      | inr e ↦ rw e v
    ]
process_record-Invariant (skipped warnings) p v = record {
  walks = record {
    distinct = v.walks.distinct;
    entries = v.walks.entries;
    times = v.walks.times;
    accounted = v.walks.accounted;
  };
  io = record {
    distinct = v.io.distinct;
    below = v.io.below;
    accounted = v.io.accounted;
    paths = v.io.paths;
    numbered = v.io.numbered;
  };
}

process_trace-Invariant :
    (records : List Record) (p : EtwProcessor) → Invariant p → Invariant (process_trace records p)
unfolding process_trace
process_trace-Invariant [] p v = v
process_trace-Invariant (r ∷ rs) p v =
    process_trace-Invariant rs (process_record r p) (process_record-Invariant r p v)

new-Invariant :
    (target_pid : ℕ) (settings : NativeEtwSettings) → Invariant (new target_pid settings)
unfolding new Below Numbered
new-Invariant target_pid settings = record {
  walks = record { distinct = tt; entries = tt; times = omega arith; accounted = omega arith };
  io = record { distinct = tt; below = tt; accounted = refl; paths = refl; numbered = tt };
}

traced-Invariant :
    (target_pid : ℕ) (settings : NativeEtwSettings) (records : List Record)
    → Invariant (process_trace records (new target_pid settings))
traced-Invariant target_pid settings records =
    process_trace-Invariant records (new target_pid settings) (new-Invariant target_pid settings)

-- After any records, the stack walks that were counted are those that were attached to an event,
-- those that were dropped and those that wait.
pub stack_walks_accounted :
    (target_pid : ℕ) (settings : NativeEtwSettings) (records : List Record)
    → let p = process_trace records (new target_pid settings) in
      p.stack_walk_events
      ≡ p.matched_stack_walk_events
        + p.dropped_pending_stack_walk_events
        + total length p.pending_stacks_by_timestamp
stack_walks_accounted target_pid settings records =
    omega (arith, (traced-Invariant target_pid settings records).walks.accounted)

-- After any records, walks wait for at most 4096 times, and at most 32 of them for each.
pub pending_stacks_bounded :
    (target_pid : ℕ) (settings : NativeEtwSettings) (records : List Record) (timestamp : ℕ)
    (stacks : List DecodedStackWalkEvent)
    → lookup timestamp (process_trace records (new target_pid settings)).pending_stacks_by_timestamp
      ≡ some stacks
    → (length (process_trace records (new target_pid settings)).pending_stacks_by_timestamp ≤ 4096)
      × (length stacks ≤ 32)
pending_stacks_bounded target_pid settings records timestamp stacks h =
    let v = (traced-Invariant target_pid settings records).walks in
    (v.times, (lookup-AllEntries (Entry _) timestamp stacks _ v.entries h).1)

-- The events that are written for operations with a packet.
abbrev pub events_with_irp : List FileIoEvent → ℕ
events_with_irp [] = 0
events_with_irp (event ∷ events) = given event.irp_ptr + events_with_irp events

-- The events are numbered on from `n`.
abbrev pub InSequence : ℕ → List FileIoEvent → Type 0
InSequence n [] = Unit
InSequence n (event ∷ events) = (event.sequence ≡ n + 1) × InSequence (n + 1) events

module _ (modules : List ModuleInterval) where
  written_irps :
      (rows : List FileIoRow) (stats : StackStats)
      → events_with_irp (finalize_file_io modules rows stats).0 ≡ with_irp rows
  unfolding finalize_file_io
  written_irps [] stats = refl
  written_irps (row ∷ rows) stats =
      ap (λ n. given row.event.irp_ptr + n)
        (written_irps rows (finalize_stack row.addresses modules row.timestamp stats).1)

  written_length :
      (rows : List FileIoRow) (stats : StackStats)
      → length (finalize_file_io modules rows stats).0 ≡ length rows
  unfolding finalize_file_io
  written_length [] stats = refl
  written_length (row ∷ rows) stats =
      ap suc (written_length rows (finalize_stack row.addresses modules row.timestamp stats).1)

  written_InSequence :
      (n : ℕ) (rows : List FileIoRow) (stats : StackStats)
      → Numbered n rows
      → InSequence n (finalize_file_io modules rows stats).0
  unfolding finalize_file_io Numbered
  written_InSequence n [] stats m = tt
  written_InSequence n (row ∷ rows) stats m = (
    m.0,
    written_InSequence (n + 1) rows (finalize_stack row.addresses modules row.timestamp stats).1
        m.1,
  )

summary_of :
    (p : EtwProcessor) (summary : FileIoSummary)
    → (finish p).summary.file_io ≡ some summary
    → (summary.matched_op_end_count ≡ p.matched_op_end_count)
      × (summary.incomplete_io_count
          ≡ length p.pending_file_irps + p.reused_irp_without_op_end_count)
      × (summary.file_path_resolved ≡ p.file_path_resolved)
      × (summary.file_path_unresolved ≡ p.file_path_unresolved)
unfolding finish incomplete_io_count
summary_of p summary h = ground arith

operations_accounted :
    (target_pid : ℕ) (settings : NativeEtwSettings) (records : List Record)
    (summary : FileIoSummary)
    → (post_process_trace target_pid settings records).summary.file_io ≡ some summary
    → summary.matched_op_end_count + summary.incomplete_io_count
      ≡ events_with_irp (post_process_trace target_pid settings records).file_io_events
unfolding post_process_trace finish
operations_accounted target_pid settings records summary h =
    let p = process_trace records (new target_pid settings) in
    let s = summary_of p summary h in
    omega (
      arith,
      s.0,
      s.1,
      written_irps p.modules p.file_io_rows p.file_io_stack_stats,
      (traced-Invariant target_pid settings records).io.accounted,
    )

events_numbered :
    (target_pid : ℕ) (settings : NativeEtwSettings) (records : List Record)
    (summary : FileIoSummary)
    → (post_process_trace target_pid settings records).summary.file_io ≡ some summary
    → (summary.file_path_resolved + summary.file_path_unresolved
        ≡ length (post_process_trace target_pid settings records).file_io_events)
      × InSequence 0 (post_process_trace target_pid settings records).file_io_events
unfolding post_process_trace finish
events_numbered target_pid settings records summary h =
    let p = process_trace records (new target_pid settings) in
    let s = summary_of p summary h in
    let v = (traced-Invariant target_pid settings records).io in
    (
      omega
          (arith, s.2, s.3, v.paths, written_length p.modules p.file_io_rows p.file_io_stack_stats),
      written_InSequence p.modules 0 p.file_io_rows p.file_io_stack_stats v.numbered,
    )

-- Where the file events are in the summary: of the events that are written, those of operations with
-- a packet are the operations that are counted as ended and those that are counted as incomplete;
-- each event is counted as one with a path or as one without; and the events are numbered from 1 on.
pub report_accounted :
    (target_pid : ℕ) (settings : NativeEtwSettings) (records : List Record)
    (summary : FileIoSummary)
    → (post_process_trace target_pid settings records).summary.file_io ≡ some summary
    → (summary.matched_op_end_count + summary.incomplete_io_count
        ≡ events_with_irp (post_process_trace target_pid settings records).file_io_events)
      × (summary.file_path_resolved + summary.file_path_unresolved
          ≡ length (post_process_trace target_pid settings records).file_io_events)
      × InSequence 0 (post_process_trace target_pid settings records).file_io_events
report_accounted target_pid settings records summary h =
    let numbered = events_numbered target_pid settings records summary h in
    (operations_accounted target_pid settings records summary h, numbered.0, numbered.1)
