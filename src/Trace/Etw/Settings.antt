-- ===== src/Trace/Etw/Settings.antt =====
-- crates/dbgflow-trace/src/profile/native_etw/settings.rs.
use Prim.Native.String.{◌++◌}
use dbgflow.Prelude.{
  ℕ, String, Bool, true, false, ◌+◌, Option, none, some, List, [], ◌∷◌, ltb, if◌then◌else◌,
}
use dbgflow.Common.Error.{Result, ok, err, backend}

pub data EtwEventSet : Type 0 where
  process file_io : EtwEventSet

unfoldable pub event_set_name : EtwEventSet → String
event_set_name process = "process"
event_set_name file_io = "file_io"

abbrev pub set_eq : EtwEventSet → EtwEventSet → Bool
set_eq process process = true
set_eq file_io file_io = true
set_eq process file_io = false
set_eq file_io process = false

-- `event_sets` in the source is an array of two places: whether each set is asked for.
pub record NativeEtwSettings : Type 0 where
  pub process_place : Option EtwEventSet
  pub file_io_place : Option EtwEventSet
  pub stacks_enabled : Bool

unfoldable pub count_set : EtwEventSet → List EtwEventSet → ℕ
count_set event_set [] = 0
count_set event_set (candidate ∷ candidates) =
    (if set_eq candidate event_set then 1 else 0) + count_set event_set candidates

abbrev place : EtwEventSet → NativeEtwSettings → NativeEtwSettings
place process settings = record settings { process_place = some process }
place file_io settings = record settings { file_io_place = some file_io }

-- `for event_set in event_sets`.
unfoldable pub normalize :
    List EtwEventSet → List EtwEventSet → NativeEtwSettings → Result NativeEtwSettings
unfolding count_set event_set_name
normalize all [] settings = ok settings
normalize all (event_set ∷ event_sets) settings =
    let rest = normalize all event_sets (place event_set settings) in
    if ltb 1 (count_set event_set all)
    then err
        (backend ("duplicate native ETW event set is not supported: " ++ event_set_name event_set))
    else rest

unfoldable pub native_etw_settings :
    (is_target_process : Bool)
    → List EtwEventSet
    → (stacks_enabled : Bool) → Result NativeEtwSettings
unfolding normalize
native_etw_settings false event_sets stacks =
    err (backend "native ETW scope must be target_process")
native_etw_settings true [] stacks =
    err (backend "native ETW event_sets must contain at least one event set")
native_etw_settings true (s ∷ ss) stacks =
    normalize (s ∷ ss) (s ∷ ss)
      (record { process_place = none; file_io_place = none; stacks_enabled = stacks })

abbrev holds : EtwEventSet → Option EtwEventSet → Bool
holds event_set none = false
holds event_set (some other) = set_eq other event_set

unfoldable pub includes : EtwEventSet → NativeEtwSettings → Bool
includes event_set settings =
    if holds event_set settings.process_place then true else holds event_set settings.file_io_place

abbrev with_name : Option EtwEventSet → List String → List String
with_name none names = names
with_name (some event_set) names = event_set_name event_set ∷ names

-- `flatten().map(event_set_name)`.
unfoldable pub event_set_names : NativeEtwSettings → List String
unfolding event_set_name
event_set_names settings = with_name settings.process_place (with_name settings.file_io_place [])
