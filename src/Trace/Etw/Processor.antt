-- ===== src/Trace/Etw/Processor.antt =====
-- The state of EtwProcessor of crates/dbgflow-trace/src/profile/native_etw.rs. The vectors that are
-- pushed to together (the events of a set, their timestamps, header threads and addresses) are one
-- list of rows.
use dbgflow.Prelude.{
  ℕ, zero, suc, String, Bool, Option, none, some, List, [], ◌∷◌, ◌+◌, ◌==◌, if◌then◌else◌,
}
use dbgflow.Trace.Etw.{
  LifecycleKind, FileIoKind, process_start, process_end, thread_start, thread_end, image_load,
  image_unload, file_create_name, file_delete_name, file_rundown, create, cleanup, close, read,
  write, set_info, delete, rename, dir_enum, flush, query_info, fs_control, op_end, dir_notify,
  LifecycleEvent, FileIoEvent, DecodedStackWalkEvent,
}
use dbgflow.Trace.Etw.Settings.{NativeEtwSettings}
use dbgflow.Trace.Etw.Stack.{ModuleInterval, StackStats}

pub data StackTargetKind : Type 0 where
  lifecycle file_io : StackTargetKind

pub record StackTarget : Type 0 where
  pub kind : StackTargetKind
  pub index : ℕ

pub record LifecycleRow : Type 0 where
  pub event : LifecycleEvent
  pub timestamp : ℕ
  pub header_thread : ℕ
  pub addresses : List ℕ

pub record FileIoRow : Type 0 where
  pub event : FileIoEvent
  pub timestamp : ℕ
  pub header_thread : ℕ
  pub addresses : List ℕ

-- The warnings, by what is put into their text.
pub data EtwWarning : Type 0 where
  other_warning : String → EtwWarning
  stacks_unmatched : (stack_walk_events : ℕ) → EtwWarning
  stacks_dropped : ℕ → EtwWarning
  paths_unresolved : ℕ → EtwWarning
  op_ends_unmatched : ℕ → EtwWarning
  irps_reused : ℕ → EtwWarning
  io_incomplete : ℕ → EtwWarning

-- The names of the events in the order of the count maps.
abbrev kind_number : FileIoKind → ℕ
kind_number FileIoKind.file_name = 0
kind_number file_create_name = 1
kind_number file_delete_name = 2
kind_number file_rundown = 3
kind_number create = 4
kind_number cleanup = 5
kind_number read = 6
kind_number write = 7
kind_number set_info = 8
kind_number delete = 9
kind_number rename = 10
kind_number dir_enum = 11
kind_number flush = 12
kind_number query_info = 13
kind_number fs_control = 14
kind_number dir_notify = 15
kind_number close = 16
kind_number op_end = 17

abbrev lifecycle_number : LifecycleKind → ℕ
lifecycle_number process_start = 0
lifecycle_number process_end = 1
lifecycle_number thread_start = 2
lifecycle_number thread_end = 3
lifecycle_number image_load = 4
lifecycle_number image_unload = 5

abbrev pub same_kind : FileIoKind → FileIoKind → Bool
same_kind a b = kind_number a == kind_number b

abbrev same_lifecycle : LifecycleKind → LifecycleKind → Bool
same_lifecycle a b = lifecycle_number a == lifecycle_number b

unfoldable pub lifecycle_count_map : List (LifecycleKind × ℕ)
lifecycle_count_map =
    (process_start, 0)
    ∷ (process_end, 0)
    ∷ (thread_start, 0)
    ∷ (thread_end, 0)
    ∷ (image_load, 0)
    ∷ (image_unload, 0)
    ∷ []

unfoldable pub file_io_count_map : List (FileIoKind × ℕ)
file_io_count_map =
    (FileIoKind.file_name, 0)
    ∷ (file_create_name, 0)
    ∷ (file_delete_name, 0)
    ∷ (file_rundown, 0)
    ∷ (create, 0)
    ∷ (cleanup, 0)
    ∷ (read, 0)
    ∷ (write, 0)
    ∷ (set_info, 0)
    ∷ (delete, 0)
    ∷ (rename, 0)
    ∷ (dir_enum, 0)
    ∷ (flush, 0)
    ∷ (query_info, 0)
    ∷ (fs_control, 0)
    ∷ (dir_notify, 0)
    ∷ []

-- `if let Some(count) = counts.get_mut(event) { *count += 1 }`.
unfoldable pub count_lifecycle : LifecycleKind → List (LifecycleKind × ℕ) → List (LifecycleKind × ℕ)
count_lifecycle kind [] = []
count_lifecycle kind ((k, n) ∷ counts) =
    let rest = count_lifecycle kind counts in
    if same_lifecycle k kind then (k, n + 1) ∷ counts else (k, n) ∷ rest

unfoldable pub count_file_io : FileIoKind → List (FileIoKind × ℕ) → List (FileIoKind × ℕ)
count_file_io kind [] = []
count_file_io kind ((k, n) ∷ counts) =
    let rest = count_file_io kind counts in
    if same_kind k kind then (k, n + 1) ∷ counts else (k, n) ∷ rest

pub record EtwProcessor : Type 0 where
  pub target_pid : ℕ
  pub settings : NativeEtwSettings
  pub lifecycle_rows : List LifecycleRow
  pub file_io_rows : List FileIoRow
  pub pending_file_irps : List (ℕ × ℕ)
  pub ignored_file_irps : List ℕ
  pub event_indices_by_timestamp : List (ℕ × List StackTarget)
  pub pending_stacks_by_timestamp : List (ℕ × List DecodedStackWalkEvent)
  pub file_paths_by_pointer : List (ℕ × String)
  pub modules : List ModuleInterval
  pub warnings : List EtwWarning
  pub lifecycle_event_counts : List (LifecycleKind × ℕ)
  pub file_io_event_counts : List (FileIoKind × ℕ)
  pub lifecycle_stack_stats : StackStats
  pub file_io_stack_stats : StackStats
  pub file_path_resolved : ℕ
  pub file_path_unresolved : ℕ
  pub file_io_raw_sequence : ℕ
  pub matched_op_end_count : ℕ
  pub unmatched_op_end_count : ℕ
  pub reused_irp_without_op_end_count : ℕ
  pub stack_walk_events : ℕ
  pub matched_stack_walk_events : ℕ
  pub dropped_pending_stack_walk_events : ℕ

abbrev pub no_stats : StackStats
no_stats = record { total = 0; resolved = 0; unresolved = 0 }

unfoldable pub new : ℕ → NativeEtwSettings → EtwProcessor
unfolding lifecycle_count_map file_io_count_map
new target_pid settings = record {
  target_pid = target_pid;
  settings = settings;
  lifecycle_rows = [];
  file_io_rows = [];
  pending_file_irps = [];
  ignored_file_irps = [];
  event_indices_by_timestamp = [];
  pending_stacks_by_timestamp = [];
  file_paths_by_pointer = [];
  modules = [];
  warnings = [];
  lifecycle_event_counts = lifecycle_count_map;
  file_io_event_counts = file_io_count_map;
  lifecycle_stack_stats = no_stats;
  file_io_stack_stats = no_stats;
  file_path_resolved = 0;
  file_path_unresolved = 0;
  file_io_raw_sequence = 0;
  matched_op_end_count = 0;
  unmatched_op_end_count = 0;
  reused_irp_without_op_end_count = 0;
  stack_walk_events = 0;
  matched_stack_walk_events = 0;
  dropped_pending_stack_walk_events = 0;
}

abbrev pub event_matches_target : ℕ → ℕ → Bool
event_matches_target pid target_pid = pid == target_pid

-- A read of a vector at an index, and the change of one element.
module _ {ℓ} {A : Type ℓ} where
  unfoldable pub get_elem? : List A → ℕ → Option A
  get_elem? [] i = none
  get_elem? (x ∷ xs) zero = some x
  get_elem? (x ∷ xs) (suc i) = get_elem? xs i

  unfoldable pub modify : (A → A) → List A → ℕ → List A
  modify f [] i = []
  modify f (x ∷ xs) zero = f x ∷ xs
  modify f (x ∷ xs) (suc i) = x ∷ modify f xs i
