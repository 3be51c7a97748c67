-- ===== src/Trace/Ttd.antt =====
-- The request of a TTD recording: crates/dbgflow-trace/src/ttd/mod.rs. A path is its text.
pub mod Args
pub mod Decode
pub mod Validation
use dbgflow.Prelude.{ℕ, String, Bool, true, false, Option, List, []}

pub data TtdTarget : Type 0 where
  launch : (executable : String) → (args : List String) → TtdTarget
  attach : (pid : ℕ) → TtdTarget
  monitor : (program : String) → (cmd_line_filter : Option String) → TtdTarget

pub data TtdRecordMode : Type 0 where
  automatic manual : TtdRecordMode

pub data TtdReplayCpuSupport : Type 0 where
  default most_conservative most_aggressive intel_avx_required intel_avx2_required :
      TtdReplayCpuSupport

unfoldable pub mode_arg : TtdRecordMode → String
mode_arg TtdRecordMode.automatic = "Automatic"
mode_arg TtdRecordMode.manual = "Manual"

unfoldable pub cpu_arg : TtdReplayCpuSupport → String
cpu_arg TtdReplayCpuSupport.default = "Default"
cpu_arg TtdReplayCpuSupport.most_conservative = "MostConservative"
cpu_arg TtdReplayCpuSupport.most_aggressive = "MostAggressive"
cpu_arg TtdReplayCpuSupport.intel_avx_required = "IntelAvxRequired"
cpu_arg TtdReplayCpuSupport.intel_avx2_required = "IntelAvx2Required"

pub record TtdRecordingOptions : Type 0 where
  pub children : Bool
  pub no_ui : Bool
  pub accept_eula : Bool
  pub ring : Bool
  pub max_file_mb : ℕ
  pub modules : List String
  pub record_mode : TtdRecordMode
  pub replay_cpu_support : TtdReplayCpuSupport

abbrev pub default_options : TtdRecordingOptions
default_options = record {
  children = false;
  no_ui = true;
  accept_eula = false;
  ring = false;
  max_file_mb = 2048;
  modules = [];
  record_mode = TtdRecordMode.automatic;
  replay_cpu_support = TtdReplayCpuSupport.default;
}
