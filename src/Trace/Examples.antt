-- ===== src/Trace/Examples.antt =====
-- Runs of the theorems on TTD recordings.
use dbgflow.Prelude.{◌≡◌, refl, true, false, none, some, is_blank, is_control}
use dbgflow.Common.Error.{ok}
use dbgflow.Common.Validation.{
  Paths, validate_plain_text, split_path_text_has_parent, split_parts, path_text_has_separator,
  is_absolute_path_text, is_unsupported,
}
use dbgflow.Session.Target.{Files, found}
use dbgflow.Trace.Ttd.{TtdTarget, default_options}
use dbgflow.Trace.Ttd.Args.{build_ttd_args}
use dbgflow.Trace.Ttd.Decode.{decode_ttd_args}
use dbgflow.Trace.Ttd.Decode.RoundTrip.{decode_ttd_args-build_ttd_args}
use dbgflow.Trace.Ttd.Validation.{
  validate_ttd_target, validate_ttd_options, validate_monitor, resolve_program, validate_filter,
}
use dbgflow.Trace.Ttd.Validation.Sound.{
  passes, is_allowed, passes-validate_ttd_options, is_safe, validate_ttd_target-is_safe,
}

abbrev watched : TtdTarget
watched = TtdTarget.monitor "app.exe" none

-- Every path is canonical, no path is absolute, and there is no file.
abbrev no_files : Files
no_files = record { canonicalize = found; is_file = λ _. false; own_pid = 4 }

abbrev no_paths : Paths
no_paths = record { has_parent_component = λ _. false; is_absolute = λ _. false }

decode_ttd_args-build_ttd_args_example :
    decode_ttd_args (build_ttd_args watched default_options "traces")
    ≡ some (watched, default_options, "traces")
decode_ttd_args-build_ttd_args_example =
    decode_ttd_args-build_ttd_args watched default_options "traces"

passes-validate_ttd_options_example :
    passes (validate_ttd_options default_options watched) ≡ is_allowed default_options watched
passes-validate_ttd_options_example = passes-validate_ttd_options default_options watched

watched_passes : validate_ttd_target no_files no_paths watched ≡ ok watched
unfolding validate_ttd_target validate_monitor resolve_program validate_filter validate_plain_text
    split_path_text_has_parent split_parts path_text_has_separator is_absolute_path_text
    is_unsupported is_blank is_control
watched_passes = refl

validate_ttd_target-is_safe_example : is_safe no_files no_paths watched ≡ true
validate_ttd_target-is_safe_example =
    validate_ttd_target-is_safe no_files no_paths watched watched watched_passes
