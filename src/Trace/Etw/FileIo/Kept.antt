-- ===== src/Trace/Etw/FileIo/Kept.antt =====
-- What is done with stack walks and with the events of processes keeps the rows of the file events
-- accounted for, in native_etw.rs.
use dbgflow.Prelude.{
  ℕ, suc, zero, ◌+◌, refl, List, [], ◌∷◌, length, lookup, erase, arith, Option-cases, Bool-cases,
  inl, inr,
}
use dbgflow.Trace.Etw.{DecodedFileIoEvent, DecodedLifecycleEvent, DecodedStackWalkEvent}
use dbgflow.Trace.Etw.Processor.{EtwProcessor, StackTarget}
use dbgflow.Trace.Etw.Walk.{
  least_key, is_before, drop_timestamp, drop_oldest_pending_stack_timestamp, prune_loop,
  prune_pending_stacks_before, find_target, append_stack_frames_to_target, attach_stack_walk_event,
  attach_all, attach_pending, index_event, make_room, push_pending, cache_pending_stack_walk_event,
  process_stack_walk_event, add_file_io_frames,
}
use dbgflow.Trace.Etw.Lifecycle.{
  record_module, record_module_load, record_module_unload, push_lifecycle, process_lifecycle_event,
}
use dbgflow.Trace.Etw.FileIo.{begin_file_io, process_file_io_event, push_file_io, remove_file_path}
use dbgflow.Trace.Etw.FileIo.Rows.{IoInvariant, with_irp-modify, modify-Numbered}
use dbgflow.Trace.Etw.FileIo.Accounted.{
  SameIo, SameIo-IoInvariant, push_file_io-IoInvariant, merge_file_io_completion-IoInvariant,
  ignore_file_io_close-IoInvariant,
}
use dbgflow.Trace.Etw.Tables.{length-modify}

append_stack_frames_to_target-SameIo :
    (target : StackTarget) (frames : List ℕ) (p : EtwProcessor)
    → SameIo p (append_stack_frames_to_target target frames p)
unfolding append_stack_frames_to_target
append_stack_frames_to_target-SameIo target frames p = ground (
  arith,
  length-modify (add_file_io_frames frames) p.file_io_rows target.index,
  with_irp-modify (add_file_io_frames frames) (λ r. refl) p.file_io_rows target.index,
  modify-Numbered (add_file_io_frames frames) (λ r. refl) 0 p.file_io_rows target.index,
)

attach_stack_walk_event-IoInvariant :
    (stack : DecodedStackWalkEvent) (p : EtwProcessor)
    → IoInvariant p
    → IoInvariant (attach_stack_walk_event stack p).1
unfolding attach_stack_walk_event
attach_stack_walk_event-IoInvariant stack p v = elim (Option-cases (find_target stack p)) [
  | inl e ↦ ground (arith, e)
  | inr (target, e) ↦ ground (
    arith,
    e,
    SameIo-IoInvariant p (append_stack_frames_to_target target stack.stack_addresses p)
        (append_stack_frames_to_target-SameIo target stack.stack_addresses p) v,
  )
]

attach_all-IoInvariant :
    (stacks : List DecodedStackWalkEvent) (p : EtwProcessor)
    → IoInvariant p
    → IoInvariant (attach_all stacks p)
unfolding attach_all
attach_all-IoInvariant [] p v = v
attach_all-IoInvariant (stack ∷ stacks) p v =
    attach_all-IoInvariant stacks (attach_stack_walk_event stack p).1
      (attach_stack_walk_event-IoInvariant stack p v)

attach_pending-IoInvariant :
    (timestamp : ℕ) (p : EtwProcessor) → IoInvariant p → IoInvariant (attach_pending timestamp p)
unfolding attach_pending
attach_pending-IoInvariant timestamp p v =
    elim (Option-cases (lookup timestamp p.pending_stacks_by_timestamp)) [
      | inl e ↦ ground (arith, e)
      | inr (pending, e) ↦ ground (
        arith,
        e,
        attach_all-IoInvariant pending
            (record p {
              pending_stacks_by_timestamp = erase timestamp p.pending_stacks_by_timestamp;
            })
            (ground arith),
      )
    ]

drop_timestamp-IoInvariant :
    (oldest : ℕ) (p : EtwProcessor) → IoInvariant p → IoInvariant (drop_timestamp oldest p)
unfolding drop_timestamp
drop_timestamp-IoInvariant oldest p v = ground arith

drop_oldest-IoInvariant :
    (p : EtwProcessor) → IoInvariant p → IoInvariant (drop_oldest_pending_stack_timestamp p)
unfolding drop_oldest_pending_stack_timestamp
drop_oldest-IoInvariant p v = elim (Option-cases (least_key p.pending_stacks_by_timestamp)) [
  | inl e ↦ ground (arith, e)
  | inr (oldest, e) ↦ ground (arith, e, drop_timestamp-IoInvariant oldest p v)
]

prune_loop-IoInvariant :
    (fuel timestamp : ℕ) (p : EtwProcessor)
    → IoInvariant p
    → IoInvariant (prune_loop fuel timestamp p)
unfolding prune_loop
prune_loop-IoInvariant zero timestamp p v = v
prune_loop-IoInvariant (suc fuel) timestamp p v =
    elim (Bool-cases (is_before timestamp (least_key p.pending_stacks_by_timestamp))) [
      | inl e ↦ ground (
        arith,
        e,
        prune_loop-IoInvariant fuel timestamp (drop_oldest_pending_stack_timestamp p)
            (drop_oldest-IoInvariant p v),
      )
      | inr e ↦ ground (arith, e)
    ]

prune_pending_stacks_before-IoInvariant :
    (timestamp : ℕ) (p : EtwProcessor)
    → IoInvariant p
    → IoInvariant (prune_pending_stacks_before timestamp p)
unfolding prune_pending_stacks_before
prune_pending_stacks_before-IoInvariant timestamp p v =
    prune_loop-IoInvariant (length p.pending_stacks_by_timestamp) timestamp p v

cache_pending_stack_walk_event-IoInvariant :
    (stack : DecodedStackWalkEvent) (p : EtwProcessor)
    → IoInvariant p
    → IoInvariant (cache_pending_stack_walk_event stack p)
unfolding cache_pending_stack_walk_event make_room push_pending
cache_pending_stack_walk_event-IoInvariant stack p v = ground (arith, drop_oldest-IoInvariant p v)

pub process_stack_walk_event-IoInvariant :
    (stack : DecodedStackWalkEvent) (p : EtwProcessor)
    → IoInvariant p
    → IoInvariant (process_stack_walk_event stack p)
unfolding process_stack_walk_event
process_stack_walk_event-IoInvariant stack p v =
    let counted = record p { stack_walk_events = p.stack_walk_events + 1 } in
    let w = attach_stack_walk_event-IoInvariant stack counted (ground arith) in
    ground (
      arith,
      w,
      cache_pending_stack_walk_event-IoInvariant stack (attach_stack_walk_event stack counted).1 w,
    )

record_module-IoInvariant :
    (decoded : DecodedLifecycleEvent) (p : EtwProcessor)
    → IoInvariant p
    → IoInvariant (record_module decoded p)
unfolding record_module record_module_load record_module_unload
record_module-IoInvariant decoded p v = ground arith

pub process_lifecycle_event-IoInvariant :
    (decoded : DecodedLifecycleEvent) (p : EtwProcessor)
    → IoInvariant p
    → IoInvariant (process_lifecycle_event decoded p)
unfolding process_lifecycle_event push_lifecycle index_event
process_lifecycle_event-IoInvariant decoded p v =
    let pruned = record_module decoded (prune_pending_stacks_before decoded.event_timestamp p) in
    let r =
      record_module-IoInvariant decoded (prune_pending_stacks_before decoded.event_timestamp p)
        (prune_pending_stacks_before-IoInvariant decoded.event_timestamp p v) in
    ground (
      arith,
      r,
      attach_pending-IoInvariant decoded.event_timestamp (push_lifecycle decoded pruned)
          (ground (arith, r)),
    )

begin_file_io-IoInvariant :
    (decoded : DecodedFileIoEvent) (p : EtwProcessor)
    → IoInvariant p
    → IoInvariant (begin_file_io decoded p)
unfolding begin_file_io remove_file_path
begin_file_io-IoInvariant decoded p v = ground (
  arith,
  attach_pending-IoInvariant decoded.event_timestamp (push_file_io decoded p)
      (push_file_io-IoInvariant decoded p v),
)

pub process_file_io_event-IoInvariant :
    (decoded : DecodedFileIoEvent) (p : EtwProcessor)
    → IoInvariant p
    → IoInvariant (process_file_io_event decoded p)
unfolding process_file_io_event
process_file_io_event-IoInvariant decoded p v =
    let numbered = record p { file_io_raw_sequence = p.file_io_raw_sequence + 1 } in
    let pruned = prune_pending_stacks_before decoded.event_timestamp numbered in
    let w =
      prune_pending_stacks_before-IoInvariant decoded.event_timestamp numbered (ground arith) in
    ground (
      arith,
      merge_file_io_completion-IoInvariant decoded pruned w,
      ignore_file_io_close-IoInvariant decoded pruned w,
      begin_file_io-IoInvariant decoded pruned w,
    )
