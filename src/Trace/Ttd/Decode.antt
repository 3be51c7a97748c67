-- ===== src/Trace/Ttd/Decode.antt =====
-- A reader of the command line of TTD.exe that crates/dbgflow-trace/src/ttd/args.rs builds.
pub mod RoundTrip
use dbgflow.Prelude.{
  String, ◌≡◌, refl, ◌∙◌, Bool, true, false, Option, none, some, List, [], ◌∷◌, text_eq, arith,
  if◌then◌else◌,
}
use dbgflow.Trace.Ttd.{TtdTarget, TtdRecordMode, TtdReplayCpuSupport, TtdRecordingOptions, cpu_arg}
use dbgflow.Trace.Ttd.Args.{
  Word, text, decimal, push_flag, push_modules, push_mode, push_cpu, push_texts, push_target,
  build_ttd_args,
}

unfoldable take_flag : String → List Word → Bool × List Word
take_flag name (text w ∷ ws) = if text_eq w name then (true, ws) else (false, text w ∷ ws)
take_flag name ws = (false, ws)

-- An option with a value.
unfoldable take_value : String → List Word → Option String × List Word
take_value name (text w ∷ text v ∷ ws) =
    if text_eq w name then (some v, ws) else (none, text w ∷ text v ∷ ws)
take_value name ws = (none, ws)

unfoldable take_modules : List Word → List String × List Word
take_modules (text w ∷ text v ∷ ws) =
    let (vs, rest) = take_modules ws in
    if text_eq w "-module" then (v ∷ vs, rest) else ([], text w ∷ text v ∷ ws)
take_modules ws = ([], ws)

unfoldable decode_mode : Option String → Option TtdRecordMode
decode_mode none = some TtdRecordMode.automatic
decode_mode (some v) = if text_eq v "Manual" then some TtdRecordMode.manual else none

unfoldable decode_cpu : Option String → Option TtdReplayCpuSupport
decode_cpu none = some TtdReplayCpuSupport.default
decode_cpu (some v) =
    if text_eq v "MostConservative"
    then some TtdReplayCpuSupport.most_conservative
    else if text_eq v "MostAggressive"
    then some TtdReplayCpuSupport.most_aggressive
    else if text_eq v "IntelAvxRequired"
    then some TtdReplayCpuSupport.intel_avx_required
    else if text_eq v "IntelAvx2Required"
    then some TtdReplayCpuSupport.intel_avx2_required
    else none

unfoldable decode_texts : List Word → Option (List String)
decode_texts [] = some []
decode_texts (text w ∷ ws) = elim (decode_texts ws) [ none ↦ none | some vs ↦ some (w ∷ vs) ]
decode_texts (decimal n ∷ ws) = none

-- What stands after the program's name: the end, or its arguments, or the program of a filter.
unfoldable decode_launch : String → List Word → Option TtdTarget
unfolding decode_texts
decode_launch executable ws = elim (decode_texts ws) [
  | none ↦ none
  | some args ↦ some (TtdTarget.launch executable args)
]

unfoldable decode_monitor : String → List Word → Option TtdTarget
decode_monitor program [] = some (TtdTarget.monitor program none)
decode_monitor program _ = none

unfoldable decode_filter : String → List Word → Option TtdTarget
decode_filter filter (text w ∷ text program ∷ []) =
    if text_eq w "-monitor" then some (TtdTarget.monitor program (some filter)) else none
decode_filter filter ws = none

unfoldable decode_target : List Word → Option TtdTarget
unfolding decode_launch decode_monitor decode_filter
decode_target (text w ∷ decimal pid ∷ []) =
    if text_eq w "-attach" then some (TtdTarget.attach pid) else none
decode_target (text w ∷ text v ∷ ws) =
    if text_eq w "-launch"
    then decode_launch v ws
    else if text_eq w "-monitor"
    then decode_monitor v ws
    else if text_eq w "-cmdLineFilter"
    then decode_filter v ws
    else none
decode_target ws = none

-- The options that a mode, a CPU and a target complete.
abbrev pub complete :
    Option TtdRecordMode
    → Option TtdReplayCpuSupport
    → Option TtdTarget
    → (TtdRecordMode → TtdReplayCpuSupport → TtdRecordingOptions)
    → String
    → Option (TtdTarget × TtdRecordingOptions × String)
complete (some mode) (some cpu) (some target) options dir = some (target, options mode cpu, dir)
complete (some mode) (some cpu) none options dir = none
complete (some mode) none target options dir = none
complete none cpu target options dir = none

-- From `-maxFile` on.
unfoldable decode_tail :
    Bool
    → Bool
    → Bool
    → Bool
    → String
    → List Word
    → Option (TtdTarget × TtdRecordingOptions × String)
decode_tail no_ui accept_eula children ring dir (text w ∷ decimal n ∷ ws) =
    let (modules, ws₁) = take_modules ws in
    let (mode, ws₂) = take_value "-recordmode" ws₁ in
    let (cpu, ws₃) = take_value "-replayCpuSupport" ws₂ in
    let options : TtdRecordMode → TtdReplayCpuSupport → TtdRecordingOptions = (λ mode cpu. record {
      children = children;
      no_ui = no_ui;
      accept_eula = accept_eula;
      ring = ring;
      max_file_mb = n;
      modules = modules;
      record_mode = mode;
      replay_cpu_support = cpu;
    }) in
    if text_eq w "-maxFile"
    then complete (decode_mode mode) (decode_cpu cpu) (decode_target ws₃) options dir
    else none
decode_tail no_ui accept_eula children ring dir ws = none

-- The target, the options and the directory of a command line.
pub decode_ttd_args : List Word → Option (TtdTarget × TtdRecordingOptions × String)
decode_ttd_args (text w ∷ text dir ∷ ws) =
    let (no_ui, ws₁) = take_flag "-noUI" ws in
    let (accept_eula, ws₂) = take_flag "-accepteula" ws₁ in
    let (children, ws₃) = take_flag "-children" ws₂ in
    let (ring, ws₄) = take_flag "-ring" ws₃ in
    if text_eq w "-out" then decode_tail no_ui accept_eula children ring dir ws₄ else none
decode_ttd_args ws = none
