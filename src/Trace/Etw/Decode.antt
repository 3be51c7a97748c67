-- ===== src/Trace/Etw/Decode.antt =====
-- How a record of a trace is decoded in crates/dbgflow-trace/src/profile/native_etw.rs. The calls of
-- the trace data helper (TDH) for a property are functions of the record.
pub mod UserData
pub mod Frames
pub mod Records
use dbgflow.Prelude.{
  ℕ, zero, suc, ◌+◌, ◌-◌, ◌*◌, ◌%◌, String, Bool, true, false, not, ◌&&◌, Option, none, some, List,
  [], ◌∷◌, ◌++◌, map, length, ltb, lookup, ◌==◌, if◌then◌else◌,
}
use dbgflow.Trace.Etw.{
  DecodedLifecycleEvent, DecodedFileIoEvent, DecodedStackWalkEvent, LifecycleKind, FileIoKind,
  process_start, process_end, thread_start, thread_end, image_load, image_unload, file_create_name,
  file_delete_name, file_rundown, create, cleanup, close, read, write, set_info, delete, rename,
  dir_enum, flush, query_info, fs_control, op_end, dir_notify, PathSource, open_path, name_field,
}
use dbgflow.Trace.Etw.Processor.{EtwWarning, other_warning}
use dbgflow.Trace.Etw.Decode.UserData.{
  words, bytes_to_u32, bytes_to_u64, decode_stack_walk_user_data,
}

pub data Provider : Type 0 where
  process_guid thread_guid image_load_guid file_io_guid stack_walk_guid other_guid : Provider

pub data ExtType : Type 0 where
  stack_trace64 stack_trace32 other_type : ExtType

-- An extended data item: its `DataSize` bytes, or a null pointer.
pub record ExtendedItem : Type 0 where
  pub ext_type : ExtType
  pub data_ptr : Option (List ℕ)

pub record EventRecord : Type 0 where
  pub provider : Provider
  pub opcode : ℕ
  pub timestamp : ℕ
  pub thread_id : ℕ
  pub process_id : ℕ
  pub user_data : List ℕ
  pub extended_data : List ExtendedItem
  pub read_property : String → Option (List ℕ)
  -- The property `Stack{index}`.
  pub read_stack_property : ℕ → Option (List ℕ)
  pub read_string_property : String → Option String

abbrev after_header : List ℕ → List ℕ
after_header (a ∷ b ∷ c ∷ d ∷ e ∷ f ∷ g ∷ h ∷ frames) = frames
after_header bytes = []

abbrev item_addresses : ExtType → Option (List ℕ) → List ℕ
item_addresses kind none = []
item_addresses stack_trace64 (some bytes) = words 8 (after_header bytes)
item_addresses stack_trace32 (some bytes) = words 4 (after_header bytes)
item_addresses other_type (some bytes) = []

unfoldable pub stack_addresses : List ExtendedItem → List ℕ
unfolding words
stack_addresses [] = []
stack_addresses (item ∷ items) = item_addresses item.ext_type item.data_ptr ++ stack_addresses items

unfoldable pub find_map {ℓ} : {A : Type ℓ} → (String → Option A) → List String → Option A
find_map f [] = none
find_map f (name ∷ names) =
    let rest = find_map f names in elim (f name) [ some y ↦ some y | none ↦ rest ]

abbrev pub and_then {ℓ} : {A : Type ℓ} → Option (List ℕ) → (List ℕ → Option A) → Option A
and_then none f = none
and_then (some bytes) f = f bytes

unfoldable pub read_u32_any : EventRecord → List String → Option ℕ
unfolding find_map bytes_to_u32
read_u32_any r names = find_map (λ name. and_then (r.read_property name) bytes_to_u32) names

unfoldable pub read_u64_any : EventRecord → List String → Option ℕ
unfolding find_map bytes_to_u64
read_u64_any r names = find_map (λ name. and_then (r.read_property name) bytes_to_u64) names

unfoldable pub read_string_any : EventRecord → List String → Option String
unfolding find_map
read_string_any r names = find_map r.read_string_property names

abbrev pid_names : List String
pid_names = "ProcessId" ∷ "ProcessID" ∷ "PID" ∷ []

-- EVENT_TRACE_TYPE_START, _END and _LOAD.
abbrev process_kind : ℕ → Option LifecycleKind
process_kind opcode =
    if opcode == 1 then some process_start else if opcode == 2 then some process_end else none

abbrev thread_kind : ℕ → Option LifecycleKind
thread_kind opcode =
    if opcode == 1 then some thread_start else if opcode == 2 then some thread_end else none

abbrev image_kind : ℕ → Option LifecycleKind
image_kind opcode =
    if opcode == 10 then some image_load else if opcode == 2 then some image_unload else none

abbrev parent_pid : EventRecord → LifecycleKind → Option ℕ
parent_pid r process_start = read_u32_any r ("ParentId" ∷ "ParentID" ∷ "ParentProcessId" ∷ [])
parent_pid r _ = none

unfoldable pub process_event : EventRecord → LifecycleKind → ℕ → DecodedLifecycleEvent
unfolding read_u32_any read_string_any stack_addresses
process_event r event pid = record {
  event_timestamp = r.timestamp;
  event_thread_id = r.thread_id;
  event = event;
  pid = pid;
  tid = none;
  parent_pid = parent_pid r event;
  image_path = read_string_any r ("ImageFileName" ∷ "ImageName" ∷ []);
  image_base = none;
  image_size = none;
  stack_addresses = stack_addresses r.extended_data;
}

unfoldable pub thread_event : EventRecord → LifecycleKind → ℕ → DecodedLifecycleEvent
unfolding read_u32_any stack_addresses
thread_event r event pid = record {
  event_timestamp = r.timestamp;
  event_thread_id = r.thread_id;
  event = event;
  pid = pid;
  tid = read_u32_any r ("ThreadId" ∷ "ThreadID" ∷ "TThreadId" ∷ "TThreadID" ∷ []);
  parent_pid = none;
  image_path = none;
  image_base = none;
  image_size = none;
  stack_addresses = stack_addresses r.extended_data;
}

unfoldable pub image_event : EventRecord → LifecycleKind → ℕ → DecodedLifecycleEvent
unfolding read_u64_any read_string_any stack_addresses
image_event r event pid = record {
  event_timestamp = r.timestamp;
  event_thread_id = r.thread_id;
  event = event;
  pid = pid;
  tid = none;
  parent_pid = none;
  image_path = read_string_any r ("ImageFileName" ∷ "FileName" ∷ "ImageName" ∷ []);
  image_base = read_u64_any r ("ImageBase" ∷ "BaseAddress" ∷ []);
  image_size = read_u64_any r ("ImageSize" ∷ "Size" ∷ []);
  stack_addresses = stack_addresses r.extended_data;
}

abbrev event_of :
    Option LifecycleKind
    → Option ℕ
    → (LifecycleKind → ℕ → DecodedLifecycleEvent)
    → Option DecodedLifecycleEvent
event_of none pid f = none
event_of (some event) none f = none
event_of (some event) (some pid) f = some (f event pid)

abbrev image_warnings : Option LifecycleKind → Option ℕ → List EtwWarning
image_warnings (some event) none =
    other_warning "image event skipped because ProcessId is unavailable" ∷ []
image_warnings (some event) (some pid) = []
image_warnings none pid = []

-- The event, and the warnings that are added.
unfoldable pub decode_lifecycle_event : EventRecord → Option DecodedLifecycleEvent × List EtwWarning
unfolding process_event thread_event image_event read_u32_any
decode_lifecycle_event r =
    let pid = read_u32_any r pid_names in
    elim r.provider [
      | process_guid ↦ (event_of (process_kind r.opcode) pid (process_event r), [])
      | thread_guid ↦ (event_of (thread_kind r.opcode) pid (thread_event r), [])
      | image_load_guid ↦ (
        event_of (image_kind r.opcode) pid (image_event r),
        image_warnings (image_kind r.opcode) pid,
      )
      | _ ↦ (none, [])
    ]

-- The operations by their opcodes.
abbrev pub file_io_opcodes : List (ℕ × FileIoKind)
file_io_opcodes =
    (0, FileIoKind.file_name)
    ∷ (32, file_create_name)
    ∷ (35, file_delete_name)
    ∷ (36, file_rundown)
    ∷ (64, create)
    ∷ (65, cleanup)
    ∷ (66, close)
    ∷ (67, read)
    ∷ (68, write)
    ∷ (69, set_info)
    ∷ (70, delete)
    ∷ (71, rename)
    ∷ (72, dir_enum)
    ∷ (73, flush)
    ∷ (74, query_info)
    ∷ (75, fs_control)
    ∷ (76, op_end)
    ∷ (77, dir_notify)
    ∷ []

unfoldable pub file_io_path : EventRecord → FileIoKind → Option String
unfolding read_string_any
file_io_path r create = read_string_any r ("OpenPath" ∷ "FileName" ∷ "Path" ∷ [])
file_io_path r FileIoKind.file_name = read_string_any r ("FileName" ∷ "OpenPath" ∷ "Path" ∷ [])
file_io_path r file_create_name = read_string_any r ("FileName" ∷ "OpenPath" ∷ "Path" ∷ [])
file_io_path r file_delete_name = read_string_any r ("FileName" ∷ "OpenPath" ∷ "Path" ∷ [])
file_io_path r file_rundown = read_string_any r ("FileName" ∷ "OpenPath" ∷ "Path" ∷ [])
file_io_path r dir_enum = read_string_any r ("FileName" ∷ "OpenPath" ∷ "Path" ∷ [])
file_io_path r dir_notify = read_string_any r ("FileName" ∷ "OpenPath" ∷ "Path" ∷ [])
file_io_path r _ = none

abbrev source_of : FileIoKind → Option String → Option PathSource
source_of event none = none
source_of create (some path) = some open_path
source_of _ (some path) = some name_field

abbrev begin_addresses : FileIoKind → EventRecord → List ℕ
begin_addresses op_end r = []
begin_addresses _ r = stack_addresses r.extended_data

unfoldable pub file_io_event : EventRecord → FileIoKind → DecodedFileIoEvent
unfolding file_io_path read_u32_any read_u64_any stack_addresses
file_io_event r event = record {
  event_timestamp = r.timestamp;
  event_thread_id = r.thread_id;
  event = event;
  pid = elim (read_u32_any r pid_names) [ some pid ↦ pid | none ↦ r.process_id ];
  ttid = read_u32_any r ("TTID" ∷ "TThreadId" ∷ "TThreadID" ∷ "ThreadId" ∷ "ThreadID" ∷ []);
  path = file_io_path r event;
  path_source = source_of event (file_io_path r event);
  file_object = read_u64_any r ("FileObject" ∷ "FileObj" ∷ []);
  file_key = read_u64_any r ("FileKey" ∷ "FileObjectKey" ∷ []);
  irp_ptr = read_u64_any r ("IrpPtr" ∷ "Irp" ∷ "IrpPointer" ∷ []);
  offset = read_u64_any r ("Offset" ∷ "ByteOffset" ∷ []);
  io_size = read_u64_any r ("IoSize" ∷ "Size" ∷ "TransferSize" ∷ []);
  io_flags = read_u32_any r ("IoFlags" ∷ "Flags" ∷ []);
  create_options = read_u32_any r ("CreateOptions" ∷ []);
  file_attributes = read_u32_any r ("FileAttributes" ∷ []);
  share_access = read_u32_any r ("ShareAccess" ∷ []);
  info_class = read_u32_any r ("InfoClass" ∷ []);
  extra_info = read_u64_any r ("ExtraInfo" ∷ []);
  nt_status = read_u32_any r ("NtStatus" ∷ "Status" ∷ []);
  stack_addresses = begin_addresses event r;
}

unfoldable pub decode_file_io_event : EventRecord → Option DecodedFileIoEvent
unfolding file_io_event lookup
decode_file_io_event r = elim r.provider [
  | file_io_guid ↦ elim (lookup r.opcode file_io_opcodes) [
    | none ↦ none
    | some event ↦ some (file_io_event r event)
  ]
  | _ ↦ none
]
