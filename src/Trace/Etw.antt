-- ===== src/Trace/Etw.antt =====
-- The events of crates/dbgflow-trace/src/profile/native_etw.rs, as they are decoded and as they are
-- written. A number that is written in hexadecimal is kept as the number, and a timestamp is not
-- negative.
pub mod Settings
pub mod Stack
pub mod Processor
pub mod Walk
pub mod Lifecycle
pub mod FileIo
pub mod Finish
pub mod Tables
pub mod Decode
mod Examples
pub mod Events
pub mod Account
use dbgflow.Prelude.{ℕ, String, Bool, true, false, Option, List, ◌==◌}

pub data LifecycleKind : Type 0 where
  process_start process_end thread_start thread_end image_load image_unload : LifecycleKind

pub data FileIoKind : Type 0 where
  file_name file_create_name file_delete_name file_rundown create cleanup close read : FileIoKind
  write set_info delete rename dir_enum flush query_info fs_control op_end dir_notify : FileIoKind

-- Where a path comes from.
pub data PathSource : Type 0 where
  open_path name_field file_object_cache file_key_cache : PathSource

pub record DecodedLifecycleEvent : Type 0 where
  pub event_timestamp : ℕ
  pub event_thread_id : ℕ
  pub event : LifecycleKind
  pub pid : ℕ
  pub tid : Option ℕ
  pub parent_pid : Option ℕ
  pub image_path : Option String
  pub image_base : Option ℕ
  pub image_size : Option ℕ
  pub stack_addresses : List ℕ

pub record DecodedFileIoEvent : Type 0 where
  pub event_timestamp : ℕ
  pub event_thread_id : ℕ
  pub event : FileIoKind
  pub pid : ℕ
  pub ttid : Option ℕ
  pub path : Option String
  pub path_source : Option PathSource
  pub file_object : Option ℕ
  pub file_key : Option ℕ
  pub irp_ptr : Option ℕ
  pub offset : Option ℕ
  pub io_size : Option ℕ
  pub io_flags : Option ℕ
  pub create_options : Option ℕ
  pub file_attributes : Option ℕ
  pub share_access : Option ℕ
  pub info_class : Option ℕ
  pub extra_info : Option ℕ
  pub nt_status : Option ℕ
  pub stack_addresses : List ℕ

pub record DecodedStackWalkEvent : Type 0 where
  pub event_timestamp : ℕ
  pub stack_process : ℕ
  pub stack_thread : ℕ
  pub stack_addresses : List ℕ

-- The name of an image, or `image_{base:x}` where it has none.
pub data ModuleName : Type 0 where
  named : String → ModuleName
  unnamed : (base : ℕ) → ModuleName

-- A frame as it is written: a module and an offset into it, or the address.
pub data FrameText : Type 0 where
  in_module : (name : ModuleName) → (offset : ℕ) → FrameText
  at_address : ℕ → FrameText

pub record LifecycleEvent : Type 0 where
  pub sequence : ℕ
  pub event : LifecycleKind
  pub pid : ℕ
  pub tid : Option ℕ
  pub parent_pid : Option ℕ
  pub image_path : Option String
  pub image_base : Option ℕ
  pub image_size : Option ℕ
  pub stack : List FrameText

pub record FileIoEvent : Type 0 where
  pub sequence : ℕ
  pub event : FileIoKind
  pub pid : ℕ
  pub tid : Option ℕ
  pub ttid : Option ℕ
  pub path : Option String
  pub path_source : Option PathSource
  pub file_object : Option ℕ
  pub file_key : Option ℕ
  pub irp_ptr : Option ℕ
  pub offset : Option ℕ
  pub io_size : Option ℕ
  pub io_flags : Option ℕ
  pub create_options : Option ℕ
  pub file_attributes : Option ℕ
  pub share_access : Option ℕ
  pub info_class : Option ℕ
  pub extra_info : Option ℕ
  pub nt_status : Option ℕ
  pub stack : List FrameText
  pub completion_pid : Option ℕ
  pub completion_tid : Option ℕ
  pub completion_sequence : Option ℕ
