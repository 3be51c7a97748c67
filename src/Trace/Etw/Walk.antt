-- ===== src/Trace/Etw/Walk.antt =====
-- The stack walks of crates/dbgflow-trace/src/profile/native_etw.rs: they are attached to an event of
-- the same time, or wait for one in a cache of bounded size.
pub mod Attach
pub mod Waiting
pub mod Targets
pub mod Settled
use dbgflow.Prelude.{
  ℕ, zero, suc, ◌+◌, Bool, true, false, not, ◌&&◌, Option, none, some, List, [], ◌∷◌, ◌++◌, length,
  lookup, insert, erase, ltb, leb, ◌==◌, if◌then◌else◌,
}
use dbgflow.Trace.Etw.{DecodedStackWalkEvent}
use dbgflow.Trace.Etw.Stack.{append_stack_frames}
use dbgflow.Trace.Etw.Processor.{
  EtwProcessor, StackTarget, StackTargetKind, LifecycleRow, FileIoRow, get_elem?, modify,
}

abbrev pub max_pending_stack_timestamps : ℕ
max_pending_stack_timestamps = 4096

abbrev pub max_pending_stacks_per_timestamp : ℕ
max_pending_stacks_per_timestamp = 32

abbrev pub Pending : Type 0
Pending = List (ℕ × List DecodedStackWalkEvent)

-- `first_key_value()` of a BTreeMap: the least key.
unfoldable pub least_key {ℓ} : {V : Type ℓ} → List (ℕ × V) → Option ℕ
least_key [] = none
least_key ((key, value) ∷ table) = elim (least_key table) [
  | none ↦ some key
  | some other ↦ some (if leb key other then key else other)
]

-- `remove(&oldest)` and the count of what was removed.
unfoldable pub drop_timestamp : ℕ → EtwProcessor → EtwProcessor
drop_timestamp oldest p = elim (lookup oldest p.pending_stacks_by_timestamp) [
  | none ↦ p
  | some removed ↦ record p {
    pending_stacks_by_timestamp = erase oldest p.pending_stacks_by_timestamp;
    dropped_pending_stack_walk_events = p.dropped_pending_stack_walk_events + length removed;
  }
]

unfoldable pub drop_oldest_pending_stack_timestamp : EtwProcessor → EtwProcessor
unfolding least_key drop_timestamp
drop_oldest_pending_stack_timestamp p = elim (least_key p.pending_stacks_by_timestamp) [
  | none ↦ p
  | some oldest ↦ drop_timestamp oldest p
]

abbrev pub is_before : ℕ → Option ℕ → Bool
is_before timestamp none = false
is_before timestamp (some oldest) = ltb oldest timestamp

-- The loop takes one time out in each round; `fuel` is the number of times in the cache.
unfoldable pub prune_loop : (fuel : ℕ) → (timestamp : ℕ) → EtwProcessor → EtwProcessor
unfolding least_key drop_oldest_pending_stack_timestamp
prune_loop zero timestamp p = p
prune_loop (suc fuel) timestamp p =
    elim (is_before timestamp (least_key p.pending_stacks_by_timestamp)) [
      | true ↦ prune_loop fuel timestamp (drop_oldest_pending_stack_timestamp p)
      | false ↦ p
    ]

unfoldable pub prune_pending_stacks_before : ℕ → EtwProcessor → EtwProcessor
unfolding prune_loop
prune_pending_stacks_before timestamp p =
    prune_loop (length p.pending_stacks_by_timestamp) timestamp p

-- The process and the thread of an event. An index out of range, where the source panics, is `none`.
unfoldable pub stack_target_identity : EtwProcessor → StackTarget → Option (ℕ × ℕ)
unfolding get_elem?
stack_target_identity p target = elim target.kind [
  | StackTargetKind.lifecycle ↦ elim (get_elem? p.lifecycle_rows target.index) [
    | none ↦ none
    | some row ↦ some (row.event.pid, row.header_thread)
  ]
  | StackTargetKind.file_io ↦ elim (get_elem? p.file_io_rows target.index) [
    | none ↦ none
    | some row ↦ some (row.event.pid, row.header_thread)
  ]
]

abbrev add_lifecycle_frames : List ℕ → LifecycleRow → LifecycleRow
add_lifecycle_frames frames row = record row {
  addresses = append_stack_frames row.addresses frames;
}

abbrev pub add_file_io_frames : List ℕ → FileIoRow → FileIoRow
add_file_io_frames frames row = record row { addresses = append_stack_frames row.addresses frames }

unfoldable pub append_stack_frames_to_target : StackTarget → List ℕ → EtwProcessor → EtwProcessor
unfolding modify append_stack_frames
append_stack_frames_to_target target frames p = elim target.kind [
  | StackTargetKind.lifecycle ↦ record p {
    lifecycle_rows = modify (add_lifecycle_frames frames) p.lifecycle_rows target.index;
  }
  | StackTargetKind.file_io ↦ record p {
    file_io_rows = modify (add_file_io_frames frames) p.file_io_rows target.index;
  }
]

abbrev or_first : Option StackTarget → StackTarget → Option StackTarget
or_first none target = some target
or_first (some first) target = some first

abbrev pub is_target : EtwProcessor → Option (ℕ × ℕ) → Bool
is_target p none = false
is_target p (some (pid, thread)) = pid == p.target_pid

abbrev on_thread : ℕ → Option (ℕ × ℕ) → Bool
on_thread stack_thread none = false
on_thread stack_thread (some (pid, thread)) = thread == stack_thread

-- The first event of the target process on the walk's thread, or else its first event, if the walk
-- is of the target process.
unfoldable pub choose_target :
    EtwProcessor
    → DecodedStackWalkEvent
    → (fallback : Option StackTarget) → List StackTarget
    → Option StackTarget
unfolding stack_target_identity
choose_target p stack fallback [] = if stack.stack_process == p.target_pid then fallback else none
choose_target p stack fallback (target ∷ targets) =
    let identity = stack_target_identity p target in
    let rest =
      choose_target p stack (if is_target p identity then or_first fallback target else fallback)
        targets in
    if is_target p identity && on_thread stack.stack_thread identity then some target else rest

unfoldable pub find_target : DecodedStackWalkEvent → EtwProcessor → Option StackTarget
unfolding choose_target
find_target stack p = elim (lookup stack.event_timestamp p.event_indices_by_timestamp) [
  | none ↦ none
  | some targets ↦ choose_target p stack none targets
]

-- Whether the walk was attached, and the processor after it.
unfoldable pub attach_stack_walk_event : DecodedStackWalkEvent → EtwProcessor → Bool × EtwProcessor
unfolding find_target append_stack_frames_to_target
attach_stack_walk_event stack p = elim (find_target stack p) [
  | none ↦ (false, p)
  | some target ↦
      let p' = append_stack_frames_to_target target stack.stack_addresses p in
      (true, record p' { matched_stack_walk_events = p'.matched_stack_walk_events + 1 })
]

abbrev stacks_at : ℕ → Pending → List DecodedStackWalkEvent
stacks_at timestamp pending = elim (lookup timestamp pending) [ none ↦ [] | some stacks ↦ stacks ]

abbrev has_timestamp : ℕ → Pending → Bool
has_timestamp timestamp pending = elim (lookup timestamp pending) [
  | none ↦ false
  | some stacks ↦ true
]

-- Room is made for a new time; the entry of a time that is full stays as it is.
unfoldable pub make_room : ℕ → EtwProcessor → EtwProcessor
unfolding drop_oldest_pending_stack_timestamp
make_room timestamp p =
    if not (has_timestamp timestamp p.pending_stacks_by_timestamp)
      && leb max_pending_stack_timestamps (length p.pending_stacks_by_timestamp)
    then drop_oldest_pending_stack_timestamp p
    else p

unfoldable pub push_pending : DecodedStackWalkEvent → EtwProcessor → EtwProcessor
push_pending stack p =
    let stacks = stacks_at stack.event_timestamp p.pending_stacks_by_timestamp in
    if leb max_pending_stacks_per_timestamp (length stacks)
    then record p { dropped_pending_stack_walk_events = p.dropped_pending_stack_walk_events + 1 }
    else record p {
      pending_stacks_by_timestamp =
          insert stack.event_timestamp (stacks ++ stack ∷ []) p.pending_stacks_by_timestamp;
    }

unfoldable pub cache_pending_stack_walk_event : DecodedStackWalkEvent → EtwProcessor → EtwProcessor
unfolding make_room push_pending
cache_pending_stack_walk_event stack p =
    if not (stack.stack_process == p.target_pid)
    then record p { dropped_pending_stack_walk_events = p.dropped_pending_stack_walk_events + 1 }
    else push_pending stack (make_room stack.event_timestamp p)

-- The samples that a warning quotes are left out.
unfoldable pub process_stack_walk_event : DecodedStackWalkEvent → EtwProcessor → EtwProcessor
unfolding attach_stack_walk_event cache_pending_stack_walk_event
process_stack_walk_event stack p =
    let counted = record p { stack_walk_events = p.stack_walk_events + 1 } in
    let (attached, p') = attach_stack_walk_event stack counted in
    if attached then p' else cache_pending_stack_walk_event stack p'

unfoldable pub attach_all : List DecodedStackWalkEvent → EtwProcessor → EtwProcessor
unfolding attach_stack_walk_event
attach_all [] p = p
attach_all (stack ∷ stacks) p = attach_all stacks (attach_stack_walk_event stack p).1

-- The walks that wait for an event of this time are attached, now that there is one.
unfoldable pub attach_pending : ℕ → EtwProcessor → EtwProcessor
unfolding attach_all
attach_pending timestamp p = elim (lookup timestamp p.pending_stacks_by_timestamp) [
  | none ↦ p
  | some pending ↦
      attach_all pending
        (record p { pending_stacks_by_timestamp = erase timestamp p.pending_stacks_by_timestamp })
]

-- `entry(timestamp).or_default().push(target)`.
unfoldable pub index_event : ℕ → StackTarget → EtwProcessor → EtwProcessor
index_event timestamp target p = record p {
  event_indices_by_timestamp =
      insert timestamp
        ((elim (lookup timestamp p.event_indices_by_timestamp) [
          | none ↦ []
          | some targets ↦ targets
        ])
          ++ target ∷ [])
        p.event_indices_by_timestamp;
}
