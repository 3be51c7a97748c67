-- ===== src/Session/Target/Valid.antt =====
-- What session/validation.rs lets pass.
use dbgflow.Prelude.{
  ℕ, String, ◌≡◌, refl, Bool, true, not, ◌&&◌, List, arith, ◌==◌, any, codes, contains_code,
}
use dbgflow.Common.Error.{ok}
use dbgflow.Session.Target.{
  DebugTarget, dump, attach, launch, Files, Canonical, found, failed, validate_dump_target,
  validate_attach_target, validate_launch_target, validate_target,
}

-- A target that a worker may open: a file that is there, or a process that is another one.
abbrev pub is_sound : Files → DebugTarget → Bool
is_sound fs (dump path) = fs.is_file path
is_sound fs (attach pid) = not (pid == 0) && not (pid == fs.own_pid)
is_sound fs (launch executable args) =
    fs.is_file executable && not (any (λ arg. contains_code 0 (codes arg)) args)

dump_passes :
    (fs : Files) (path : String) (u : DebugTarget)
    → validate_target fs (dump path) ≡ ok u
    → (q : String) × (u ≡ dump q) × (fs.canonicalize path ≡ found q) × (fs.is_file q ≡ true)
unfolding validate_target validate_dump_target
dump_passes fs path u h = go (fs.canonicalize path) refl
  where
    go :
        (c : Canonical)
        → fs.canonicalize path ≡ c
        → (q : String) × (u ≡ dump q) × (fs.canonicalize path ≡ found q) × (fs.is_file q ≡ true)
    go (found q) e = (q, ground arith, e, ground arith)
    go (failed x) e = absurd (ground arith)

launch_passes :
    (fs : Files) (path : String) (args : List String) (u : DebugTarget)
    → validate_target fs (launch path args) ≡ ok u
    → (q : String) × (u ≡ launch q args)
      × (fs.canonicalize path ≡ found q)
      × (is_sound fs (launch q args) ≡ true)
unfolding validate_target validate_launch_target
launch_passes fs path args u h = go (fs.canonicalize path) refl
  where
    go :
        (c : Canonical)
        → fs.canonicalize path ≡ c
        → (q : String) × (u ≡ launch q args)
          × (fs.canonicalize path ≡ found q)
          × (is_sound fs (launch q args) ≡ true)
    go (found q) e = (q, ground arith, e, ground arith)
    go (failed x) e = absurd (ground arith)

attach_passes :
    (fs : Files) (pid : ℕ) (u : DebugTarget)
    → validate_target fs (attach pid) ≡ ok u
    → (u ≡ attach pid) × (is_sound fs (attach pid) ≡ true)
unfolding validate_target validate_attach_target
attach_passes fs pid u h = (ground arith, ground arith)

sound_again :
    (fs : Files) (u : DebugTarget)
    → ((path : String) → u ≡ dump path → fs.canonicalize path ≡ found path)
    → ((path : String) (args : List String)
        → u ≡ launch path args
        → fs.canonicalize path ≡ found path)
    → is_sound fs u ≡ true
    → validate_target fs u ≡ ok u
unfolding validate_target validate_dump_target validate_attach_target validate_launch_target
sound_again fs (dump path) h k s = ground (arith, h path refl)
sound_again fs (attach pid) h k s = ground arith
sound_again fs (launch path args) h k s = ground (arith, k path args refl)

-- If `canonicalize` leaves a canonical path as it is, then a target that passes the validation is
-- sound (its file is a file and no argument has a NUL, or its process is not 0 and not the server
-- itself), and the validation passes it again as it is.
pub validate_target-is_sound :
    (fs : Files)
    → ((p q : String) → fs.canonicalize p ≡ found q → fs.canonicalize q ≡ found q)
    → (t u : DebugTarget) → validate_target fs t ≡ ok u
    → (is_sound fs u ≡ true) × (validate_target fs u ≡ ok u)
validate_target-is_sound fs stable (dump path) u h =
    let (q, is_q, at, file) = dump_passes fs path u h in
    let s : is_sound fs u ≡ true = rw is_q file in
    (s, sound_again fs u (λ p e. ground (arith, stable path q)) (λ p xs e. absurd (ground arith)) s)
validate_target-is_sound fs stable (attach pid) u h =
    let (same, sound) = attach_passes fs pid u h in
    let s : is_sound fs u ≡ true = rw same sound in
    (s, sound_again fs u (λ p e. absurd (ground arith)) (λ p xs e. absurd (ground arith)) s)
validate_target-is_sound fs stable (launch path args) u h =
    let (q, is_q, at, sound) = launch_passes fs path args u h in
    let s : is_sound fs u ≡ true = rw is_q sound in
    (s, sound_again fs u (λ p e. absurd (ground arith)) (λ p xs e. ground (arith, stable path q)) s)
