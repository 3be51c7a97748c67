-- ===== src/Trace/Ttd/Validation/Sound.antt =====
-- What crates/dbgflow-trace/src/ttd/validation.rs lets pass.
use dbgflow.Prelude.{
  String, ◌≡◌, refl, ◌⊎◌, inl, inr, Bool-cases, Bool, true, false, not, ◌&&◌, ◌||◌, Option, none,
  some, List, [], ◌∷◌, ltb, leb, any, all, length, codes, contains_code, is_blank, arith,
  if◌then◌else◌,
}
use dbgflow.Common.Error.{Result, ok, err}
use dbgflow.Common.Validation.{
  Paths, is_unsupported, validate_plain_text, split_path_text_has_parent, path_text_has_separator,
  is_absolute_path_text,
}
use dbgflow.Session.Target.{Files, Canonical, found, failed}
use dbgflow.Trace.Ttd.{TtdTarget, TtdRecordingOptions}
use dbgflow.Trace.Ttd.Validation.{
  validate_modules, is_monitor, validate_ttd_options, validate_launch, validate_attach,
  resolve_program, validate_filter, validate_monitor, validate_ttd_target,
}

-- A text that TTD.exe is given: not blank, and on one line.
abbrev pub is_plain : String → Bool
is_plain value = not (any is_unsupported (codes value)) && not (is_blank (codes value))

abbrev pub is_allowed : TtdRecordingOptions → TtdTarget → Bool
is_allowed options target =
    ltb 0 options.max_file_mb
    && leb options.max_file_mb (if options.ring then 32768 else 1048576)
    && all is_plain options.modules
    && (is_monitor target || leb (length options.modules) 64)

abbrev pub passes {ℓ} : {A : Type ℓ} → Result A → Bool
passes (ok a) = true
passes (err e) = false

passes-validate_modules :
    (modules : List String) → passes (validate_modules modules) ≡ all is_plain modules
unfolding validate_modules validate_plain_text
passes-validate_modules [] = refl
passes-validate_modules (x ∷ modules) = ground (arith, passes-validate_modules modules)

-- The options pass exactly if the files' size is at least 1 and at most 32768 with a ring, 1048576
-- without, every module is a plain text that is not blank, and there are at most 64 modules unless
-- a program is monitored.
pub passes-validate_ttd_options :
    (options : TtdRecordingOptions) (target : TtdTarget)
    → passes (validate_ttd_options options target) ≡ is_allowed options target
unfolding validate_ttd_options
passes-validate_ttd_options options target = ground (arith, passes-validate_modules options.modules)

abbrev all_plain : Option String → Bool
all_plain none = true
all_plain (some filter) = is_plain filter

-- The name of a program, without a directory.
abbrev pub is_file_name : Paths → String → Bool
is_file_name paths program =
    is_plain program
    && not (path_text_has_separator program)
    && not (split_path_text_has_parent program)
    && not (paths.has_parent_component program)

abbrev pub is_safe : Files → Paths → TtdTarget → Bool
is_safe fs paths (TtdTarget.launch executable args) =
    fs.is_file executable && not (any (λ arg. contains_code 0 (codes arg)) args)
is_safe fs paths (TtdTarget.attach pid) = ltb 0 pid
is_safe fs paths (TtdTarget.monitor program filter) =
    (fs.is_file program || is_file_name paths program) && all_plain filter

launch_safe :
    (fs : Files) (paths : Paths) (executable : String) (args : List String) (u : TtdTarget)
    → validate_launch fs executable args ≡ ok u
    → is_safe fs paths u ≡ true
unfolding validate_launch
launch_safe fs paths executable args u h = go (fs.canonicalize executable) refl
  where
    go : (c : Canonical) → fs.canonicalize executable ≡ c → is_safe fs paths u ≡ true
    go (found q) e = let is_u : u ≡ TtdTarget.launch q args = ground arith in rw is_u (ground arith)
    go (failed x) e = absurd (ground arith)

filter_safe : (filter : Option String) → passes (validate_filter filter) ≡ all_plain filter
unfolding validate_filter validate_plain_text
filter_safe none = refl
filter_safe (some filter) = ground arith

-- A program is resolved to a file, or stays as it is when it is not absolute.
resolved_safe :
    (fs : Files) (paths : Paths) (program q : String)
    → resolve_program fs paths program ≡ ok q
    → (fs.is_file q ≡ true) ⊎ ((q ≡ program) × (is_absolute_path_text paths program ≡ false))
unfolding resolve_program
resolved_safe fs paths program q h = elim (Bool-cases (is_absolute_path_text paths program)) [
  | inl absolute ↦ inl (go absolute (fs.canonicalize program) refl)
  | inr relative ↦ inr (ground arith, relative)
]
  where
    go :
        is_absolute_path_text paths program ≡ true
        → (c : Canonical) → fs.canonicalize program ≡ c
        → fs.is_file q ≡ true
    go absolute (found x) e = ground arith
    go absolute (failed x) e = absurd (ground arith)

monitor_passes :
    (fs : Files) (paths : Paths) (program : String) (filter : Option String) (u : TtdTarget)
    → validate_monitor fs paths program filter ≡ ok u
    → (q : String) × (u ≡ TtdTarget.monitor q filter)
      × (resolve_program fs paths program ≡ ok q)
      × (is_plain program ≡ true)
      × (all_plain filter ≡ true)
      × ((paths.has_parent_component program || split_path_text_has_parent program) ≡ false)
      × ((path_text_has_separator program && not (is_absolute_path_text paths program)) ≡ false)
unfolding validate_monitor validate_plain_text
monitor_passes fs paths program filter u h = go (resolve_program fs paths program) refl
  where
    go :
        (r : Result String)
        → resolve_program fs paths program ≡ r
        → (q : String) × (u ≡ TtdTarget.monitor q filter)
          × (resolve_program fs paths program ≡ ok q)
          × (is_plain program ≡ true)
          × (all_plain filter ≡ true)
          × ((paths.has_parent_component program || split_path_text_has_parent program) ≡ false)
          × ((path_text_has_separator program && not (is_absolute_path_text paths program)) ≡ false)
    go (ok q) e = (
      q,
      ground arith,
      e,
      ground arith,
      ground (arith, filter_safe filter),
      ground arith,
      ground arith,
    )
    go (err x) e = absurd (ground arith)

monitor_safe :
    (fs : Files) (paths : Paths) (program : String) (filter : Option String) (u : TtdTarget)
    → validate_monitor fs paths program filter ≡ ok u
    → is_safe fs paths u ≡ true
monitor_safe fs paths program filter u h =
    let (q, is_u, at, plain, kept, no_parent, no_path) =
      monitor_passes fs paths program filter u h in
    rw is_u (elim (resolved_safe fs paths program q at) [
      | inl file ↦ ground (arith, kept, file)
      | inr (same, relative) ↦ rw same (ground (arith, plain, kept, no_parent, no_path, relative))
    ])

-- A target that passes is safe to hand to TTD.exe: a program to launch is a file and no argument
-- has a NUL, a process is not 0, and a program to monitor is a file or the plain name of one,
-- without a directory or a way up, with a filter that is plain text and not blank, if any.
pub validate_ttd_target-is_safe :
    (fs : Files) (paths : Paths) (t u : TtdTarget)
    → validate_ttd_target fs paths t ≡ ok u
    → is_safe fs paths u ≡ true
unfolding validate_ttd_target
validate_ttd_target-is_safe fs paths (TtdTarget.launch executable args) u h =
    launch_safe fs paths executable args u h
validate_ttd_target-is_safe fs paths (TtdTarget.attach pid) u h =
    unfold validate_attach in ground arith
validate_ttd_target-is_safe fs paths (TtdTarget.monitor program filter) u h =
    monitor_safe fs paths program filter u h
