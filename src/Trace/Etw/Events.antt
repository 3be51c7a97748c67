-- ===== src/Trace/Etw/Events.antt =====
-- What the events of the sets do with the stack walks that wait, in native_etw.rs.
use dbgflow.Prelude.{
  ℕ, String, suc, zero, ◌+◌, ◌≡◌, refl, ◌∙◌, sym, true, Option, none, some, List, [], ◌∷◌, ◌++◌,
  length, arith, ◌==◌, Bool-cases, inl, inr,
}
use dbgflow.Trace.Etw.{DecodedLifecycleEvent, DecodedFileIoEvent}
use dbgflow.Trace.Etw.Processor.{
  EtwProcessor, StackTarget, StackTargetKind, LifecycleRow, FileIoRow,
}
use dbgflow.Trace.Etw.Walk.{
  attach_pending, prune_pending_stacks_before, prune_loop, drop_timestamp,
  drop_oldest_pending_stack_timestamp, index_event, stack_target_identity, is_target,
}
use dbgflow.Trace.Etw.Lifecycle.{
  record_module, record_module_load, record_module_unload, push_lifecycle, process_lifecycle_event,
  lifecycle_row,
}
use dbgflow.Trace.Etw.FileIo.{
  begin_file_io, process_file_io_event, file_io_event_matches_target, push_file_io, push_row,
  merge_file_io_completion, merge_irp, complete_at, ignore_file_io_close, remove_file_path,
  await_completion, cache_file_path, count_path, resolve_file_path, file_io_row,
}
use dbgflow.Trace.Etw.Walk.Waiting.{WalkInvariant, prune_pending_stacks_before-WalkInvariant}
use dbgflow.Trace.Etw.Walk.Targets.{HasTarget, index_event-HasTarget, same-HasTarget}
use dbgflow.Trace.Etw.Walk.Settled.{attach_pending-WalkInvariant}
use dbgflow.Trace.Etw.Tables.{get_elem?-push}

-- The processor's walks are as they were.
record SameWalks (p q : EtwProcessor) : Type 0 where
  target_pid : q.target_pid ≡ p.target_pid
  pending : q.pending_stacks_by_timestamp ≡ p.pending_stacks_by_timestamp
  walks : q.stack_walk_events ≡ p.stack_walk_events
  dropped : q.dropped_pending_stack_walk_events ≡ p.dropped_pending_stack_walk_events
  matched : q.matched_stack_walk_events ≡ p.matched_stack_walk_events

SameWalks-WalkInvariant :
    (n : ℕ) (p q : EtwProcessor) → SameWalks p q → WalkInvariant n p → WalkInvariant n q
SameWalks-WalkInvariant n p q a v = record {
  distinct = rw a.pending v.distinct;
  entries = rw (a.pending, a.target_pid) v.entries;
  times = rw a.pending v.times;
  accounted = ground (arith, a.pending, a.walks, a.dropped, a.matched, v.accounted);
}

record_module-SameWalks :
    (decoded : DecodedLifecycleEvent) (p : EtwProcessor) → SameWalks p (record_module decoded p)
unfolding record_module record_module_load record_module_unload
record_module-SameWalks decoded p = ground arith

push_lifecycle-SameWalks :
    (decoded : DecodedLifecycleEvent) (p : EtwProcessor) → SameWalks p (push_lifecycle decoded p)
unfolding push_lifecycle index_event
push_lifecycle-SameWalks decoded p = ground arith

target_pid-prune_loop :
    (fuel timestamp : ℕ) (p : EtwProcessor)
    → (prune_loop fuel timestamp p).target_pid ≡ p.target_pid
unfolding prune_loop drop_oldest_pending_stack_timestamp drop_timestamp
target_pid-prune_loop zero timestamp p = refl
target_pid-prune_loop (suc fuel) timestamp p =
    ground (arith, target_pid-prune_loop fuel timestamp (drop_oldest_pending_stack_timestamp p))

target_pid-prune :
    (timestamp : ℕ) (p : EtwProcessor)
    → (prune_pending_stacks_before timestamp p).target_pid ≡ p.target_pid
unfolding prune_pending_stacks_before
target_pid-prune timestamp p =
    target_pid-prune_loop (length p.pending_stacks_by_timestamp) timestamp p

-- A row that was just pushed is a target, if it is of the target process.
lifecycle-is_target :
    (rows : List LifecycleRow) (row : LifecycleRow) (p : EtwProcessor)
    → p.lifecycle_rows ≡ rows ++ row ∷ []
    → row.event.pid ≡ p.target_pid
    → is_target p
        (stack_target_identity p (record { kind = StackTargetKind.lifecycle; index = length rows }))
      ≡ true
unfolding stack_target_identity
lifecycle-is_target rows row p e h = ground (arith, e, get_elem?-push row rows)

file_io-is_target :
    (rows : List FileIoRow) (row : FileIoRow) (p : EtwProcessor)
    → p.file_io_rows ≡ rows ++ row ∷ []
    → row.event.pid ≡ p.target_pid
    → is_target p
        (stack_target_identity p (record { kind = StackTargetKind.file_io; index = length rows }))
      ≡ true
unfolding stack_target_identity
file_io-is_target rows row p e h = ground (arith, e, get_elem?-push row rows)

push_lifecycle-HasTarget :
    (decoded : DecodedLifecycleEvent) (p : EtwProcessor)
    → decoded.pid ≡ p.target_pid
    → HasTarget decoded.event_timestamp (push_lifecycle decoded p)
unfolding push_lifecycle lifecycle_row
push_lifecycle-HasTarget decoded p h =
    index_event-HasTarget decoded.event_timestamp
      (record { kind = StackTargetKind.lifecycle; index = length p.lifecycle_rows }) _
      (lifecycle-is_target p.lifecycle_rows (lifecycle_row (length p.lifecycle_rows) decoded) _ refl
        h)

target_pid-counted :
    (path : Option String) (decoded : DecodedFileIoEvent) (p : EtwProcessor)
    → (count_path path (cache_file_path decoded p)).target_pid ≡ p.target_pid
unfolding count_path cache_file_path
target_pid-counted path decoded p = ground arith

push_row-HasTarget :
    (decoded : DecodedFileIoEvent) (p : EtwProcessor)
    → decoded.pid ≡ p.target_pid
    → HasTarget decoded.event_timestamp (push_row decoded p)
unfolding push_row file_io_row
push_row-HasTarget decoded p h =
    let path = resolve_file_path decoded (cache_file_path decoded p) in
    index_event-HasTarget decoded.event_timestamp
      (record { kind = StackTargetKind.file_io; index = length p.file_io_rows }) _
      (file_io-is_target p.file_io_rows (file_io_row (length p.file_io_rows) path decoded) _ refl
        (h ∙ sym (target_pid-counted path.0 decoded p)))

awaited :
    (irp_ptr : Option ℕ) (n : ℕ) (p : EtwProcessor)
    → ((await_completion irp_ptr n p).target_pid ≡ p.target_pid)
      × ((await_completion irp_ptr n p).event_indices_by_timestamp ≡ p.event_indices_by_timestamp)
unfolding await_completion
awaited none n p = (refl, refl)
awaited (some irp) n p = (refl, refl)

awaited_identity :
    (irp_ptr : Option ℕ) (n : ℕ) (p : EtwProcessor) (target : StackTarget)
    → stack_target_identity (await_completion irp_ptr n p) target ≡ stack_target_identity p target
unfolding await_completion stack_target_identity
awaited_identity none n p target = refl
awaited_identity (some irp) n p target = refl

push_file_io-HasTarget :
    (decoded : DecodedFileIoEvent) (p : EtwProcessor)
    → decoded.pid ≡ p.target_pid
    → HasTarget decoded.event_timestamp (push_file_io decoded p)
unfolding push_file_io
push_file_io-HasTarget decoded p h =
    let row = push_row decoded p in
    let q = push_file_io decoded p in
    same-HasTarget decoded.event_timestamp row (push_file_io decoded p)
      (awaited decoded.irp_ptr (length p.file_io_rows) row).0
      (awaited decoded.irp_ptr (length p.file_io_rows) row).1
      (awaited_identity decoded.irp_ptr (length p.file_io_rows) row)
      (push_row-HasTarget decoded p h)

push_file_io-SameWalks :
    (decoded : DecodedFileIoEvent) (p : EtwProcessor) → SameWalks p (push_file_io decoded p)
unfolding push_file_io push_row await_completion count_path cache_file_path index_event
push_file_io-SameWalks decoded p = ground arith

merge_file_io_completion-SameWalks :
    (decoded : DecodedFileIoEvent) (p : EtwProcessor)
    → SameWalks p (merge_file_io_completion decoded p)
unfolding merge_file_io_completion merge_irp complete_at
merge_file_io_completion-SameWalks decoded p = ground arith

ignore_file_io_close-SameWalks :
    (decoded : DecodedFileIoEvent) (p : EtwProcessor) → SameWalks p (ignore_file_io_close decoded p)
unfolding ignore_file_io_close remove_file_path
ignore_file_io_close-SameWalks decoded p = ground arith

pub process_lifecycle_event-WalkInvariant :
    (decoded : DecodedLifecycleEvent) (p : EtwProcessor)
    → WalkInvariant 0 p
    → WalkInvariant 0 (process_lifecycle_event decoded p)
unfolding process_lifecycle_event
process_lifecycle_event-WalkInvariant decoded p v =
    let pruned = prune_pending_stacks_before decoded.event_timestamp p in
    let recorded = record_module decoded pruned in
    let r = record_module-SameWalks decoded pruned in
    let w =
      SameWalks-WalkInvariant 0 pruned recorded r
        (prune_pending_stacks_before-WalkInvariant 0 decoded.event_timestamp p v) in
    elim (Bool-cases (decoded.pid == p.target_pid)) [
      | inl e ↦ ground (
        arith,
        e,
        w,
        attach_pending-WalkInvariant decoded.event_timestamp (push_lifecycle decoded recorded)
            (push_lifecycle-HasTarget decoded recorded
              (ground (arith, e, r.target_pid, target_pid-prune decoded.event_timestamp p)))
            (SameWalks-WalkInvariant 0 recorded (push_lifecycle decoded recorded)
              (push_lifecycle-SameWalks decoded recorded) w),
      )
      | inr e ↦ ground (arith, e)
    ]

begin_file_io-WalkInvariant :
    (decoded : DecodedFileIoEvent) (p : EtwProcessor)
    → decoded.pid ≡ p.target_pid
    → WalkInvariant 0 p
    → WalkInvariant 0 (begin_file_io decoded p)
unfolding begin_file_io remove_file_path
begin_file_io-WalkInvariant decoded p h v =
    let attached = attach_pending decoded.event_timestamp (push_file_io decoded p) in
    let w =
      attach_pending-WalkInvariant decoded.event_timestamp (push_file_io decoded p)
        (push_file_io-HasTarget decoded p h)
        (SameWalks-WalkInvariant 0 p (push_file_io decoded p) (push_file_io-SameWalks decoded p)
          v) in
    ground (
      arith,
      w,
      SameWalks-WalkInvariant 0 attached (remove_file_path decoded attached) (ground arith) w,
    )

pub process_file_io_event-WalkInvariant :
    (decoded : DecodedFileIoEvent) (p : EtwProcessor)
    → WalkInvariant 0 p
    → WalkInvariant 0 (process_file_io_event decoded p)
unfolding process_file_io_event file_io_event_matches_target
process_file_io_event-WalkInvariant decoded p v =
    let numbered = record p { file_io_raw_sequence = p.file_io_raw_sequence + 1 } in
    let pruned = prune_pending_stacks_before decoded.event_timestamp numbered in
    let w =
      prune_pending_stacks_before-WalkInvariant 0 decoded.event_timestamp numbered
        (SameWalks-WalkInvariant 0 p numbered (ground arith) v) in
    let pid = target_pid-prune decoded.event_timestamp numbered in
    ground (
      arith,
      SameWalks-WalkInvariant 0 pruned (merge_file_io_completion decoded pruned)
          (merge_file_io_completion-SameWalks decoded pruned) w,
      SameWalks-WalkInvariant 0 pruned (ignore_file_io_close decoded pruned)
          (ignore_file_io_close-SameWalks decoded pruned) w,
      pid,
      begin_file_io-WalkInvariant decoded pruned,
    )
