-- ===== src/Trace/Profile.antt =====
-- The request and the result of a profile: crates/dbgflow-trace/src/profile/model.rs, target.rs and
-- collector.rs.
pub mod Run
pub mod Collect
pub mod Counts
pub mod Stopped
pub mod Ended
pub mod Released
pub mod CleanUps
pub mod Cleaned
mod Examples
use Prim.Native.String.{◌++◌}
use dbgflow.Prelude.{
  ℕ, String, Bool, true, false, Option, none, some, List, [], ◌∷◌, any, ◌==◌, codes, contains_code,
  if◌then◌else◌,
}
use dbgflow.Common.Error.{Result, ok, err, backend, Message}
use dbgflow.Session.Artifact.{ArtifactRef}
use dbgflow.Session.Target.{Files, found, failed}
use dbgflow.Trace.Etw.Settings.{EtwEventSet, process}
use dbgflow.Trace.Etw.Settings

pub record ProfileTarget : Type 0 where
  pub executable : String
  pub args : List String

-- The one scope is the target process.
pub record ProfileCollectorConfig : Type 0 where
  pub event_sets : List EtwEventSet
  pub stacks_enabled : Bool

pub data ProfileCollectorKind : Type 0 where
  native_etw : ProfileCollectorKind

abbrev pub collector_kind : ProfileCollectorConfig → ProfileCollectorKind
collector_kind config = native_etw

abbrev pub artifact_name : ProfileCollectorConfig → String
artifact_name config = "native_etw"

unfoldable pub default_config : ProfileCollectorConfig
default_config = record { event_sets = process ∷ Settings.file_io ∷ []; stacks_enabled = true }

pub record RunProfile : Type 0 where
  pub target : ProfileTarget
  pub timeout_ms : ℕ
  pub collectors : List ProfileCollectorConfig

unfoldable pub with_default_collectors : RunProfile → RunProfile
unfolding default_config
with_default_collectors request = elim request.collectors [
  | [] ↦ record request { collectors = default_config ∷ [] }
  | ◌∷◌ config configs ↦ request
]

unfoldable pub validate_profile_target : Files → ProfileTarget → Result ProfileTarget
validate_profile_target fs target = elim (fs.canonicalize target.executable) [
  | failed e ↦ err (backend ("invalid profile launch executable: " ++ e))
  | found path ↦
      if fs.is_file path
      then if any (λ arg. contains_code 0 (codes arg)) target.args
        then err (backend "profile launch arguments must not contain NUL bytes")
        else ok (record target { executable = path })
      else err (backend ("profile launch executable is not a file: " ++ path))
]

abbrev same_kind : ProfileCollectorKind → ProfileCollectorKind → Bool
same_kind native_etw native_etw = true

unfoldable pub reject_duplicates :
    List ProfileCollectorKind → List ProfileCollectorConfig → Result (Unit {0})
reject_duplicates seen [] = ok tt
reject_duplicates seen (config ∷ configs) =
    let rest = reject_duplicates (collector_kind config ∷ seen) configs in
    if any (λ kind. same_kind kind (collector_kind config)) seen
    then err (backend "duplicate profile collector kind is not supported: NativeEtw")
    else rest

pub data TargetExit : Type 0 where
  exited : (pid : ℕ) → (exit_code : Option ℕ) → TargetExit
  timed_out : (pid : ℕ) → TargetExit

pub record CollectorStop : Type 0 where
  pub artifacts : List ArtifactRef
  pub warnings : List String

pub data ProfileStatus : Type 0 where
  completed timed_out_status failed_status : ProfileStatus

pub data ProfileCompletionReason : Type 0 where
  target_exited timeout target_launch_failed collector_error : ProfileCompletionReason

-- A result without an error is completed, and one with an error is failed and has nothing else.
pub data CollectorOutcome : Type 0 where
  stopped : CollectorStop → CollectorOutcome
  not_stopped : Message → CollectorOutcome

pub record ProfileCollectorResult : Type 0 where
  pub kind : ProfileCollectorKind
  pub name : String
  pub outcome : CollectorOutcome

-- A warning of a collector, or one that is put together from a name and an error.
pub data Warning : Type 0 where
  own : String → Warning
  stop_failed : String → Message → Warning
  cleanup_failed : String → Message → Warning

pub record ProfileResult : Type 0 where
  pub status : ProfileStatus
  pub completion_reason : ProfileCompletionReason
  pub target_pid : Option ℕ
  pub target_exit_code : Option ℕ
  pub collector_results : List ProfileCollectorResult
  pub warnings : List Warning
  pub error : Option Message
