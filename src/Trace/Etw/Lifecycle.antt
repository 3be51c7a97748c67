-- ===== src/Trace/Etw/Lifecycle.antt =====
-- The events of processes, threads and images in crates/dbgflow-trace/src/profile/native_etw.rs.
use dbgflow.Prelude.{
  ℕ, ◌+◌, String, Bool, true, false, not, ◌&&◌, Option, none, some, List, [], ◌∷◌, ◌++◌, length,
  ◌==◌, if◌then◌else◌,
}
use dbgflow.Trace.Etw.{DecodedLifecycleEvent, image_load, image_unload, ModuleName, named, unnamed}
use dbgflow.Trace.Etw.Settings.{includes, process}
use dbgflow.Trace.Etw.Stack.{ModuleInterval}
use dbgflow.Trace.Etw.Processor.{
  EtwProcessor, StackTargetKind, LifecycleRow, count_lifecycle, event_matches_target,
}
use dbgflow.Trace.Etw.Walk.{prune_pending_stacks_before, attach_pending, index_event}

abbrev image_name : Option String → ℕ → ModuleName
image_name none base = unnamed base
image_name (some path) base = named path

unfoldable pub record_module_load : ℕ → ℕ → ℕ → ModuleName → EtwProcessor → EtwProcessor
record_module_load timestamp base size name p = record p {
  modules =
      p.modules
      ++ record { base = base; size = size; name = name; loaded_at = timestamp; unloaded_at = none }
        ∷ [];
}

abbrev same_size : Option ℕ → ℕ → Bool
same_size none size = true
same_size (some image_size) size = image_size == size

abbrev is_loaded : Option ℕ → Bool
is_loaded none = true
is_loaded (some unloaded_at) = false

-- `iter_mut().rev().find(…)`: whether a module was found, looking from the last, and the modules.
unfoldable pub unload_last :
    (timestamp base : ℕ) → (size : Option ℕ) → List ModuleInterval → Bool × List ModuleInterval
unload_last timestamp base size [] = (false, [])
unload_last timestamp base size (a ∷ modules) =
    let (found, rest) = unload_last timestamp base size modules in
    if found
    then (true, a ∷ rest)
    else if a.base == base && is_loaded a.unloaded_at && same_size size a.size
    then (true, record a { unloaded_at = some timestamp } ∷ rest)
    else (false, a ∷ rest)

unfoldable pub record_module_unload : ℕ → ℕ → Option ℕ → EtwProcessor → EtwProcessor
unfolding unload_last
record_module_unload timestamp base size p = record p {
  modules = (unload_last timestamp base size p.modules).1;
}

abbrev load_image : DecodedLifecycleEvent → Option ℕ → Option ℕ → EtwProcessor → EtwProcessor
load_image decoded (some base) (some size) p =
    record_module_load decoded.event_timestamp base size (image_name decoded.image_path base) p
load_image decoded (some base) none p = p
load_image decoded none size p = p

abbrev unload_image : DecodedLifecycleEvent → Option ℕ → EtwProcessor → EtwProcessor
unload_image decoded none p = p
unload_image decoded (some base) p =
    record_module_unload decoded.event_timestamp base decoded.image_size p

unfoldable pub record_module : DecodedLifecycleEvent → EtwProcessor → EtwProcessor
unfolding record_module_load record_module_unload
record_module decoded p = elim decoded.event [
  | image_load ↦ load_image decoded decoded.image_base decoded.image_size p
  | image_unload ↦ unload_image decoded decoded.image_base p
  | _ ↦ p
]

unfoldable pub lifecycle_row : ℕ → DecodedLifecycleEvent → LifecycleRow
lifecycle_row index decoded = record {
  event = record {
    sequence = index + 1;
    event = decoded.event;
    pid = decoded.pid;
    tid = decoded.tid;
    parent_pid = decoded.parent_pid;
    image_path = decoded.image_path;
    image_base = decoded.image_base;
    image_size = decoded.image_size;
    stack = [];
  };
  timestamp = decoded.event_timestamp;
  header_thread = decoded.event_thread_id;
  addresses = decoded.stack_addresses;
}

unfoldable pub push_lifecycle : DecodedLifecycleEvent → EtwProcessor → EtwProcessor
unfolding lifecycle_row count_lifecycle index_event
push_lifecycle decoded p =
    let index = length p.lifecycle_rows in
    index_event decoded.event_timestamp (record { kind = StackTargetKind.lifecycle; index = index })
      (record p {
        lifecycle_event_counts = count_lifecycle decoded.event p.lifecycle_event_counts;
        lifecycle_rows = p.lifecycle_rows ++ lifecycle_row index decoded ∷ [];
      })

unfoldable pub process_lifecycle_event : DecodedLifecycleEvent → EtwProcessor → EtwProcessor
unfolding record_module push_lifecycle attach_pending prune_pending_stacks_before includes
process_lifecycle_event decoded p =
    let pruned = record_module decoded (prune_pending_stacks_before decoded.event_timestamp p) in
    if not (event_matches_target decoded.pid p.target_pid)
    then p
    else if not (includes process p.settings)
    then pruned
    else attach_pending decoded.event_timestamp (push_lifecycle decoded pruned)
