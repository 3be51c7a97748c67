-- ===== src/Trace/Etw/FileIo.antt =====
-- The file events of crates/dbgflow-trace/src/profile/native_etw.rs: an operation begins with an event
-- and ends with an `op_end` of the same request packet (IRP).
pub mod Rows
pub mod Accounted
pub mod Kept
use dbgflow.Prelude.{
  ℕ, ◌+◌, String, Bool, true, false, not, ◌&&◌, ◌||◌, Option, none, some, List, [], ◌∷◌, ◌++◌,
  length, lookup, insert, erase, mem, add, remove, text_eq, if◌then◌else◌,
}
use dbgflow.Trace.Etw.{
  DecodedFileIoEvent, cleanup, close, op_end, PathSource, file_object_cache, file_key_cache,
}
use dbgflow.Trace.Etw.Processor.{
  EtwProcessor, StackTargetKind, FileIoRow, count_file_io, event_matches_target, same_kind,
  get_elem?, modify,
}
use dbgflow.Trace.Etw.Walk.{prune_pending_stacks_before, attach_pending, index_event}

abbrev pub has_key {ℓ} : {V : Type ℓ} → ℕ → List (ℕ × V) → Bool
has_key key table = elim (lookup key table) [ none ↦ false | some v ↦ true ]

abbrev irp_is_known : EtwProcessor → Option ℕ → Bool
irp_is_known p none = false
irp_is_known p (some irp_ptr) =
    has_key irp_ptr p.pending_file_irps || mem irp_ptr p.ignored_file_irps

unfoldable pub file_io_event_matches_target : DecodedFileIoEvent → EtwProcessor → Bool
file_io_event_matches_target decoded p =
    (same_kind decoded.event op_end && irp_is_known p decoded.irp_ptr)
    || event_matches_target decoded.pid p.target_pid

-- `filter(|path| !path.is_empty())`.
abbrev given_path : Option String → Option String
given_path none = none
given_path (some path) = if text_eq path "" then none else some path

abbrev insert_at : Option ℕ → String → List (ℕ × String) → List (ℕ × String)
insert_at none path paths = paths
insert_at (some pointer) path paths = insert pointer path paths

abbrev erase_at : Option ℕ → List (ℕ × String) → List (ℕ × String)
erase_at none paths = paths
erase_at (some pointer) paths = erase pointer paths

unfoldable pub cache_file_path : DecodedFileIoEvent → EtwProcessor → EtwProcessor
cache_file_path decoded p = elim (given_path decoded.path) [
  | none ↦ p
  | some path ↦ record p {
    file_paths_by_pointer =
        insert_at decoded.file_key path
          (insert_at decoded.file_object path p.file_paths_by_pointer);
  }
]

unfoldable pub remove_file_path : DecodedFileIoEvent → EtwProcessor → EtwProcessor
remove_file_path decoded p = record p {
  file_paths_by_pointer =
      erase_at decoded.file_key (erase_at decoded.file_object p.file_paths_by_pointer);
}

abbrev path_at : Option ℕ → List (ℕ × String) → Option String
path_at none paths = none
path_at (some pointer) paths = lookup pointer paths

unfoldable pub resolve_file_path :
    DecodedFileIoEvent → EtwProcessor → Option String × Option PathSource
resolve_file_path decoded p = elim (given_path decoded.path) [
  | some path ↦ (some path, decoded.path_source)
  | none ↦ elim (path_at decoded.file_object p.file_paths_by_pointer) [
    | some path ↦ (some path, some file_object_cache)
    | none ↦ elim (path_at decoded.file_key p.file_paths_by_pointer) [
      | some path ↦ (some path, some file_key_cache)
      | none ↦ (none, none)
    ]
  ]
]

-- `close` is not written; the `op_end` of its packet is let go.
unfoldable pub ignore_file_io_close : DecodedFileIoEvent → EtwProcessor → EtwProcessor
unfolding remove_file_path
ignore_file_io_close decoded p = elim decoded.irp_ptr [
  | none ↦ remove_file_path decoded p
  | some irp_ptr ↦ remove_file_path decoded (record p {
    pending_file_irps = erase irp_ptr p.pending_file_irps;
    reused_irp_without_op_end_count =
        p.reused_irp_without_op_end_count + (if has_key irp_ptr p.pending_file_irps then 1 else 0);
    ignored_file_irps = add irp_ptr p.ignored_file_irps;
  })
]

abbrev or_else {ℓ} : {A : Type ℓ} → Option A → Option A → Option A
or_else (some a) old = some a
or_else none old = old

unfoldable pub completed : DecodedFileIoEvent → ℕ → FileIoRow → FileIoRow
completed decoded raw_sequence row =
    let event = row.event in
    record row {
      event = record event {
        extra_info = or_else decoded.extra_info event.extra_info;
        nt_status = or_else decoded.nt_status event.nt_status;
        completion_pid = some decoded.pid;
        completion_tid = some decoded.event_thread_id;
        completion_sequence = some raw_sequence;
      };
    }

abbrev unmatched : EtwProcessor → EtwProcessor
unmatched p = record p { unmatched_op_end_count = p.unmatched_op_end_count + 1 }

-- The begin event stands at the index that is pending for the packet.
unfoldable pub complete_at :
    DecodedFileIoEvent → (irp_ptr event_index : ℕ) → EtwProcessor → EtwProcessor
unfolding completed modify get_elem?
complete_at decoded irp_ptr event_index p =
    let taken = record p { pending_file_irps = erase irp_ptr p.pending_file_irps } in
    elim (get_elem? p.file_io_rows event_index) [
      | none ↦ unmatched taken
      | some row ↦ record taken {
        matched_op_end_count = p.matched_op_end_count + 1;
        file_io_rows = modify (completed decoded p.file_io_raw_sequence) p.file_io_rows event_index;
      }
    ]

unfoldable pub merge_irp : DecodedFileIoEvent → (irp_ptr : ℕ) → EtwProcessor → EtwProcessor
unfolding complete_at
merge_irp decoded irp_ptr p = elim (lookup irp_ptr p.pending_file_irps) [
  | some event_index ↦ complete_at decoded irp_ptr event_index p
  | none ↦
      if mem irp_ptr p.ignored_file_irps
      then record p { ignored_file_irps = remove irp_ptr p.ignored_file_irps }
      else unmatched p
]

unfoldable pub merge_file_io_completion : DecodedFileIoEvent → EtwProcessor → EtwProcessor
unfolding merge_irp
merge_file_io_completion decoded p = elim decoded.irp_ptr [
  | none ↦ unmatched p
  | some irp_ptr ↦ merge_irp decoded irp_ptr p
]

unfoldable pub file_io_row : ℕ → Option String × Option PathSource → DecodedFileIoEvent → FileIoRow
file_io_row index (path, path_source) decoded = record {
  event = record {
    sequence = index + 1;
    event = decoded.event;
    pid = decoded.pid;
    tid = some decoded.event_thread_id;
    ttid = decoded.ttid;
    path = path;
    path_source = path_source;
    file_object = decoded.file_object;
    file_key = decoded.file_key;
    irp_ptr = decoded.irp_ptr;
    offset = decoded.offset;
    io_size = decoded.io_size;
    io_flags = decoded.io_flags;
    create_options = decoded.create_options;
    file_attributes = decoded.file_attributes;
    share_access = decoded.share_access;
    info_class = decoded.info_class;
    extra_info = decoded.extra_info;
    nt_status = decoded.nt_status;
    stack = [];
    completion_pid = none;
    completion_tid = none;
    completion_sequence = none;
  };
  timestamp = decoded.event_timestamp;
  header_thread = decoded.event_thread_id;
  addresses = decoded.stack_addresses;
}

unfoldable pub count_path : Option String → EtwProcessor → EtwProcessor
count_path none p = record p { file_path_unresolved = p.file_path_unresolved + 1 }
count_path (some path) p = record p { file_path_resolved = p.file_path_resolved + 1 }

-- The operation is pending under its packet; one that was pending there before is given up.
unfoldable pub await_completion : Option ℕ → (event_index : ℕ) → EtwProcessor → EtwProcessor
await_completion none event_index p = p
await_completion (some irp_ptr) event_index p = record p {
  pending_file_irps = insert irp_ptr event_index p.pending_file_irps;
  reused_irp_without_op_end_count =
      p.reused_irp_without_op_end_count + (if has_key irp_ptr p.pending_file_irps then 1 else 0);
}

-- The event with its path, counted and indexed.
unfoldable pub push_row : DecodedFileIoEvent → EtwProcessor → EtwProcessor
unfolding cache_file_path resolve_file_path count_path count_file_io file_io_row index_event
push_row decoded p =
    let cached = cache_file_path decoded p in
    let resolved = resolve_file_path decoded cached in
    let counted = count_path resolved.0 cached in
    let index = length p.file_io_rows in
    index_event decoded.event_timestamp (record { kind = StackTargetKind.file_io; index = index })
      (record counted {
        file_io_event_counts = count_file_io decoded.event counted.file_io_event_counts;
        file_io_rows = p.file_io_rows ++ file_io_row index resolved decoded ∷ [];
      })

unfoldable pub push_file_io : DecodedFileIoEvent → EtwProcessor → EtwProcessor
unfolding push_row await_completion
push_file_io decoded p =
    await_completion decoded.irp_ptr (length p.file_io_rows) (push_row decoded p)

unfoldable pub begin_file_io : DecodedFileIoEvent → EtwProcessor → EtwProcessor
unfolding push_file_io attach_pending remove_file_path
begin_file_io decoded p =
    let attached = attach_pending decoded.event_timestamp (push_file_io decoded p) in
    if same_kind decoded.event cleanup then remove_file_path decoded attached else attached

unfoldable pub process_file_io_event : DecodedFileIoEvent → EtwProcessor → EtwProcessor
unfolding file_io_event_matches_target prune_pending_stacks_before merge_file_io_completion
    ignore_file_io_close begin_file_io
process_file_io_event decoded p =
    let pruned =
      prune_pending_stacks_before decoded.event_timestamp
        (record p { file_io_raw_sequence = p.file_io_raw_sequence + 1 }) in
    if not (file_io_event_matches_target decoded p)
    then p
    else if same_kind decoded.event op_end
    then merge_file_io_completion decoded pruned
    else if same_kind decoded.event close
    then ignore_file_io_close decoded pruned
    else begin_file_io decoded pruned
