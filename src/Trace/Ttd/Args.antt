-- ===== src/Trace/Ttd/Args.antt =====
-- The command line of TTD.exe: crates/dbgflow-trace/src/ttd/args.rs. The vector that the code
-- pushes to is written from its end: each part takes the words that come after it.
use dbgflow.Prelude.{ℕ, String, Bool, Option, none, some, List, [], ◌∷◌, if◌then◌else◌}
use dbgflow.Trace.Ttd.{
  TtdTarget, TtdRecordMode, TtdReplayCpuSupport, TtdRecordingOptions, mode_arg, cpu_arg,
}

-- An `OsString` of the command line: a text, or the decimal text of a number.
pub data Word : Type 0 where
  text : String → Word
  decimal : ℕ → Word

unfoldable pub push_flag : Bool → String → List Word → List Word
push_flag set name after = if set then text name ∷ after else after

unfoldable pub push_modules : List String → List Word → List Word
push_modules [] after = after
push_modules (module_name ∷ modules) after =
    text "-module" ∷ text module_name ∷ push_modules modules after

unfoldable pub push_mode : TtdRecordMode → List Word → List Word
unfolding mode_arg
push_mode TtdRecordMode.automatic after = after
push_mode mode after = text "-recordmode" ∷ text (mode_arg mode) ∷ after

unfoldable pub push_cpu : TtdReplayCpuSupport → List Word → List Word
unfolding cpu_arg
push_cpu TtdReplayCpuSupport.default after = after
push_cpu cpu after = text "-replayCpuSupport" ∷ text (cpu_arg cpu) ∷ after

unfoldable pub push_texts : List String → List Word
push_texts [] = []
push_texts (arg ∷ args) = text arg ∷ push_texts args

unfoldable pub push_target : TtdTarget → List Word
unfolding push_texts
push_target (TtdTarget.launch executable args) = text "-launch" ∷ text executable ∷ push_texts args
push_target (TtdTarget.attach pid) = text "-attach" ∷ decimal pid ∷ []
push_target (TtdTarget.monitor program none) = text "-monitor" ∷ text program ∷ []
push_target (TtdTarget.monitor program (some filter)) =
    text "-cmdLineFilter" ∷ text filter ∷ text "-monitor" ∷ text program ∷ []

unfoldable pub build_ttd_args : TtdTarget → TtdRecordingOptions → String → List Word
unfolding push_flag push_modules push_mode push_cpu push_target
build_ttd_args target options traces_dir =
    text "-out"
    ∷ text traces_dir
    ∷ push_flag options.no_ui "-noUI" (
        push_flag options.accept_eula "-accepteula" (
          push_flag options.children "-children" (
            push_flag options.ring "-ring" (
              text "-maxFile"
              ∷ decimal options.max_file_mb
              ∷ push_modules options.modules (
                  push_mode options.record_mode
                    (push_cpu options.replay_cpu_support (push_target target)))))))

-- What `TTD.exe -stop` is given; `file_name` is that of the executable's path.
unfoldable pub ttd_stop_target : (String → Option String) → TtdTarget → Option ℕ → Option Word
ttd_stop_target file_name (TtdTarget.monitor program filter) recorded_pid = some (text "all")
ttd_stop_target file_name (TtdTarget.attach pid) none = some (decimal pid)
ttd_stop_target file_name (TtdTarget.attach pid) (some recorded) = some (decimal recorded)
ttd_stop_target file_name (TtdTarget.launch executable args) (some recorded) =
    some (decimal recorded)
ttd_stop_target file_name (TtdTarget.launch executable args) none = elim (file_name executable) [
  | none ↦ none
  | some name ↦ some (text name)
]
