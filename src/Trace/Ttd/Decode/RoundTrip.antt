-- ===== src/Trace/Ttd/Decode/RoundTrip.antt =====
-- The command line of crates/dbgflow-trace/src/ttd/args.rs, built and read back.
use dbgflow.Prelude.{
  String, ◌≡◌, refl, ◌∙◌, Bool, true, false, none, some, List, [], ◌∷◌, text_eq, arith,
}
use dbgflow.Trace.Ttd.{
  TtdTarget, TtdRecordMode, TtdReplayCpuSupport, TtdRecordingOptions, cpu_arg, mode_arg,
}
use dbgflow.Trace.Ttd.Args.{
  Word, text, decimal, push_flag, push_modules, push_mode, push_cpu, push_texts, push_target,
  build_ttd_args,
}
use dbgflow.Trace.Ttd.Decode.{
  take_flag, take_value, take_modules, decode_mode, decode_cpu, decode_texts, decode_target,
  decode_launch, decode_tail, decode_ttd_args,
}

decode_texts-push_texts : (args : List String) → decode_texts (push_texts args) ≡ some args
unfolding decode_texts push_texts
decode_texts-push_texts [] = refl
decode_texts-push_texts (arg ∷ args) = rw (decode_texts-push_texts args) refl

decode_target-push_target : (target : TtdTarget) → decode_target (push_target target) ≡ some target
unfolding decode_target push_target
decode_target-push_target (TtdTarget.launch executable args) =
    rw (decode_texts-push_texts args, decode_target, decode_launch) refl
decode_target-push_target (TtdTarget.attach pid) = refl
decode_target-push_target (TtdTarget.monitor program none) = refl
decode_target-push_target (TtdTarget.monitor program (some filter)) = refl

-- What stands after the modules begins with no `-module`.
take_modules-push_modules :
    (modules : List String) (after : List Word)
    → take_modules after ≡ ([], after)
    → take_modules (push_modules modules after) ≡ (modules, after)
unfolding take_modules push_modules
take_modules-push_modules [] after h = h
take_modules-push_modules (x ∷ modules) after h =
    rw (take_modules-push_modules modules after h) refl

take_flag-push_flag :
    (set : Bool) (name : String) (after : List Word)
    → text_eq name name ≡ true
    → take_flag name after ≡ (false, after)
    → take_flag name (push_flag set name after) ≡ (set, after)
unfolding take_flag push_flag
take_flag-push_flag true name after same h = rw same refl
take_flag-push_flag false name after same h = h

take_flag-skip :
    (set : Bool) (name other : String) (after : List Word)
    → text_eq other name ≡ false
    → take_flag name after ≡ (false, after)
    → take_flag name (push_flag set other after) ≡ (false, push_flag set other after)
unfolding take_flag push_flag
take_flag-skip true name other after differ h = rw differ refl
take_flag-skip false name other after differ h = h

-- Nothing that stands after a part is taken for that part.
no_value-push_target :
    (name : String) (target : TtdTarget)
    → text_eq "-launch" name ≡ false
    → text_eq "-attach" name ≡ false
    → text_eq "-monitor" name ≡ false
    → text_eq "-cmdLineFilter" name ≡ false
    → take_value name (push_target target) ≡ (none, push_target target)
unfolding take_value push_target
no_value-push_target name (TtdTarget.launch e args) a b c d = rw a refl
no_value-push_target name (TtdTarget.attach pid) a b c d = refl
no_value-push_target name (TtdTarget.monitor p none) a b c d = rw c refl
no_value-push_target name (TtdTarget.monitor p (some f)) a b c d = rw d refl

take_value-push_mode :
    (mode : TtdRecordMode) (cpu : TtdReplayCpuSupport) (target : TtdTarget)
    → let taken = take_value "-recordmode" (push_mode mode (push_cpu cpu (push_target target))) in
      (decode_mode taken.0 ≡ some mode) × (taken.1 ≡ push_cpu cpu (push_target target))
unfolding take_value push_mode push_cpu decode_mode mode_arg
take_value-push_mode TtdRecordMode.manual cpu target = (refl, refl)
take_value-push_mode TtdRecordMode.automatic TtdReplayCpuSupport.default target =
    let e = no_value-push_target "-recordmode" target refl refl refl refl in (rw e refl, rw e refl)
take_value-push_mode TtdRecordMode.automatic TtdReplayCpuSupport.most_conservative target =
    (refl, refl)
take_value-push_mode TtdRecordMode.automatic TtdReplayCpuSupport.most_aggressive target =
    (refl, refl)
take_value-push_mode TtdRecordMode.automatic TtdReplayCpuSupport.intel_avx_required target =
    (refl, refl)
take_value-push_mode TtdRecordMode.automatic TtdReplayCpuSupport.intel_avx2_required target =
    (refl, refl)

take_value-push_cpu :
    (cpu : TtdReplayCpuSupport) (target : TtdTarget)
    → let taken = take_value "-replayCpuSupport" (push_cpu cpu (push_target target)) in
      (decode_cpu taken.0 ≡ some cpu) × (taken.1 ≡ push_target target)
unfolding take_value push_cpu decode_cpu cpu_arg
take_value-push_cpu TtdReplayCpuSupport.default target =
    let e = no_value-push_target "-replayCpuSupport" target refl refl refl refl in
    (rw e refl, rw e refl)
take_value-push_cpu TtdReplayCpuSupport.most_conservative target = (refl, refl)
take_value-push_cpu TtdReplayCpuSupport.most_aggressive target = (refl, refl)
take_value-push_cpu TtdReplayCpuSupport.intel_avx_required target = (refl, refl)
take_value-push_cpu TtdReplayCpuSupport.intel_avx2_required target = (refl, refl)

no_modules :
    (mode : TtdRecordMode) (cpu : TtdReplayCpuSupport) (target : TtdTarget)
    → take_modules (push_mode mode (push_cpu cpu (push_target target)))
      ≡ ([], push_mode mode (push_cpu cpu (push_target target)))
unfolding take_modules push_mode push_cpu push_target
no_modules mode cpu target = ground arith

decode_tail-push :
    (a b c d : Bool) (dir : String) (target : TtdTarget) (options : TtdRecordingOptions)
    → decode_tail a b c d dir (
        text "-maxFile"
        ∷ decimal options.max_file_mb
        ∷ push_modules options.modules (
            push_mode options.record_mode
              (push_cpu options.replay_cpu_support (push_target target))))
      ≡ some (target, record options { no_ui = a; accept_eula = b; children = c; ring = d }, dir)
unfolding decode_tail
decode_tail-push a b c d dir target options =
    let modules =
      take_modules-push_modules options.modules _
        (no_modules options.record_mode options.replay_cpu_support target) in
    let mode = take_value-push_mode options.record_mode options.replay_cpu_support target in
    let cpu = take_value-push_cpu options.replay_cpu_support target in
    ground (arith, modules, mode, cpu, decode_target-push_target target)

none_before_size :
    (name : String) (ws : List Word)
    → text_eq "-maxFile" name ≡ false
    → take_flag name (text "-maxFile" ∷ ws) ≡ (false, text "-maxFile" ∷ ws)
unfolding take_flag
none_before_size name ws differ = rw differ refl

-- The four flags, read off in their order.
decode_flags :
    (a b c d : Bool) (dir : String) (ws : List Word)
    → decode_ttd_args (
        text "-out"
        ∷ text dir
        ∷ push_flag a "-noUI" (
            push_flag b "-accepteula"
              (push_flag c "-children" (push_flag d "-ring" (text "-maxFile" ∷ ws)))))
      ≡ decode_tail a b c d dir (text "-maxFile" ∷ ws)
unfolding decode_ttd_args
decode_flags a b c d dir ws =
    let r₄ = text "-maxFile" ∷ ws in
    let r₃ = push_flag d "-ring" r₄ in
    let r₂ = push_flag c "-children" r₃ in
    let r₁ = push_flag b "-accepteula" r₂ in
    let ui = take_flag-push_flag a "-noUI" r₁ refl (
      take_flag-skip b "-noUI" "-accepteula" r₂ refl (
        take_flag-skip c "-noUI" "-children" r₃ refl
          (take_flag-skip d "-noUI" "-ring" r₄ refl (none_before_size "-noUI" ws refl)))) in
    let eula = take_flag-push_flag b "-accepteula" r₂ refl (
      take_flag-skip c "-accepteula" "-children" r₃ refl (
        take_flag-skip d "-accepteula" "-ring" r₄ refl (none_before_size "-accepteula" ws refl))) in
    let kids =
      take_flag-push_flag c "-children" r₃ refl
        (take_flag-skip d "-children" "-ring" r₄ refl (none_before_size "-children" ws refl)) in
    let circle = take_flag-push_flag d "-ring" r₄ refl (none_before_size "-ring" ws refl) in
    rw (ui, eula, kids, circle) refl

-- The command line says what was asked for: from it the target, the options and the directory for
-- the traces can be read back, so that two different requests never give one command line.
pub decode_ttd_args-build_ttd_args :
    (target : TtdTarget) (options : TtdRecordingOptions) (dir : String)
    → decode_ttd_args (build_ttd_args target options dir) ≡ some (target, options, dir)
unfolding build_ttd_args
decode_ttd_args-build_ttd_args target options dir =
    decode_flags options.no_ui options.accept_eula options.children options.ring dir _
    ∙ decode_tail-push options.no_ui options.accept_eula options.children options.ring dir target
        options
