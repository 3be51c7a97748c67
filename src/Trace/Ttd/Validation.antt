-- ===== src/Trace/Ttd/Validation.antt =====
-- crates/dbgflow-trace/src/ttd/validation.rs, over the file system and the platform's paths.
pub mod Sound
use Prim.Native.String.{◌++◌}
use dbgflow.Prelude.{
  ℕ, String, Bool, true, false, not, ◌&&◌, ◌||◌, Option, none, some, List, [], ◌∷◌, ltb, ◌==◌, any,
  length, codes, contains_code, is_blank, if◌then◌else◌,
}
use dbgflow.Common.Error.{Result, ok, err, backend, ◌>>=◌}
use dbgflow.Common.Validation.{
  Paths, validate_plain_text, split_path_text_has_parent, path_text_has_separator,
  is_absolute_path_text,
}
use dbgflow.Session.Target.{Files, found, failed}
use dbgflow.Trace.Ttd.{TtdTarget, TtdRecordingOptions}

-- `for module in &options.modules`.
unfoldable pub validate_modules : List String → Result (Unit {0})
unfolding validate_plain_text
validate_modules [] = ok tt
validate_modules (module_name ∷ modules) =
    let rest = validate_modules modules in
    validate_plain_text module_name "TTD module" >>= λ _.
    if is_blank (codes module_name) then err (backend "TTD module must not be empty") else rest

abbrev pub is_monitor : TtdTarget → Bool
is_monitor (TtdTarget.monitor program filter) = true
is_monitor _ = false

unfoldable pub validate_ttd_options : TtdRecordingOptions → TtdTarget → Result (Unit {0})
unfolding validate_modules
validate_ttd_options options target =
    if options.max_file_mb == 0
    then err (backend "TTD max_file_mb must be greater than zero")
    else if options.ring && ltb 32768 options.max_file_mb
    then err (backend "TTD ring max_file_mb must be at most 32768")
    else if not options.ring && ltb 1048576 options.max_file_mb
    then err (backend "TTD max_file_mb must be at most 1048576")
    else (validate_modules options.modules >>= λ _.
        if not (is_monitor target) && ltb 64 (length options.modules)
        then err (backend "TTD modules list is too large")
        else ok tt)

unfoldable pub validate_launch : Files → String → List String → Result TtdTarget
validate_launch fs executable args = elim (fs.canonicalize executable) [
  | failed e ↦ err (backend ("invalid TTD launch executable: " ++ e))
  | found path ↦
      if fs.is_file path
      then (if any (λ arg. contains_code 0 (codes arg)) args
          then err (backend "TTD launch arguments must not contain NUL bytes")
          else ok (TtdTarget.launch path args))
      else err (backend ("TTD launch executable is not a file: " ++ path))
]

unfoldable pub validate_attach : ℕ → Result TtdTarget
validate_attach pid =
    if pid == 0
    then err (backend "TTD attach pid must be greater than zero")
    else ok (TtdTarget.attach pid)

-- The program as it is recorded: the canonical path, if it is absolute.
unfoldable pub resolve_program : Files → Paths → String → Result String
resolve_program fs paths program =
    if is_absolute_path_text paths program
    then elim (fs.canonicalize program) [
      | failed e ↦ err (backend ("invalid TTD monitor program path: " ++ e))
      | found canonical ↦
          if fs.is_file canonical
          then ok canonical
          else err (backend ("TTD monitor program path is not a file: " ++ canonical))
    ]
    else ok program

unfoldable pub validate_filter : Option String → Result (Unit {0})
unfolding validate_plain_text
validate_filter none = ok tt
validate_filter (some filter) = validate_plain_text filter "TTD monitor cmd_line_filter" >>= λ _.
    if is_blank (codes filter)
    then err (backend "TTD monitor cmd_line_filter must not be empty")
    else ok tt

unfoldable pub validate_monitor : Files → Paths → String → Option String → Result TtdTarget
unfolding validate_plain_text resolve_program validate_filter
validate_monitor fs paths program cmd_line_filter =
    validate_plain_text program "TTD monitor program" >>= λ _.
    if is_blank (codes program)
    then err (backend "TTD monitor program must not be empty")
    else if paths.has_parent_component program || split_path_text_has_parent program
    then err (backend "TTD monitor program must not contain path traversal")
    else if path_text_has_separator program && not (is_absolute_path_text paths program)
    then err (backend "TTD monitor program must be a file name or an absolute path")
    else (resolve_program fs paths program >>= λ resolved.
        validate_filter cmd_line_filter >>= λ _. ok (TtdTarget.monitor resolved cmd_line_filter))

unfoldable pub validate_ttd_target : Files → Paths → TtdTarget → Result TtdTarget
unfolding validate_launch validate_attach validate_monitor
validate_ttd_target fs paths (TtdTarget.launch executable args) = validate_launch fs executable args
validate_ttd_target fs paths (TtdTarget.attach pid) = validate_attach pid
validate_ttd_target fs paths (TtdTarget.monitor program filter) =
    validate_monitor fs paths program filter
