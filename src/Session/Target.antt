-- ===== src/Session/Target.antt =====
-- DebugTarget of crates/dbgflow-debug/src/backend/mod.rs, and session/validation.rs. A path is its
-- text, and the file system is the parameter `Files`.
pub mod Valid
use dbgflow.Prelude.{
  ℕ, String, ◌≡◌, ◌↔◌, Bool, true, false, ◌&&◌, List, arith, ◌==◌, text_eq, texts_eq, texts_eq_iff,
  eq_iff, any, codes, contains_code, if◌then◌else◌,
}
use Prim.Native.String.{◌++◌}
use dbgflow.Common.Error.{Result, ok, err, backend, ◌>>=◌}

pub data DebugTarget : Type 0 where
  dump : String → DebugTarget
  attach : ℕ → DebugTarget
  launch : String → List String → DebugTarget

-- `==`, derived.
unfoldable pub target_eq : DebugTarget → DebugTarget → Bool
target_eq (dump p) (dump q) = text_eq p q
target_eq (attach p) (attach q) = p == q
target_eq (launch e xs) (launch f ys) = text_eq e f && texts_eq xs ys
target_eq _ _ = false

pub target_eq_iff : (s t : DebugTarget) → (target_eq s t ≡ true) ↔ (s ≡ t)
unfolding target_eq
target_eq_iff (dump p) (dump q) = ground (arith, eq_iff p q)
target_eq_iff (launch e xs) (launch f ys) = ground (arith, eq_iff e f, texts_eq_iff xs ys)
target_eq_iff _ _ = ground arith

-- What `canonicalize` answers: the canonical path, or the text of the error.
pub data Canonical : Type 0 where
  found : String → Canonical
  failed : String → Canonical

-- The file system and the process's own number, as validation sees them.
pub record Files : Type 0 where
  pub canonicalize : String → Canonical
  pub is_file : String → Bool
  pub own_pid : ℕ

unfoldable pub validate_dump_target : Files → String → Result String
validate_dump_target fs path = elim (fs.canonicalize path) [
  | failed e ↦ err (backend ("invalid dump path: " ++ e))
  | found canonical_path ↦
      if fs.is_file canonical_path
      then ok canonical_path
      else err (backend ("dump path is not a file: " ++ canonical_path))
]

unfoldable pub validate_attach_target : Files → ℕ → Result DebugTarget
validate_attach_target fs pid =
    if pid == 0
    then err (backend "attach pid must be greater than zero")
    else if pid == fs.own_pid
    then err (backend "refusing to attach to the current dbgflow process")
    else ok (attach pid)

unfoldable pub validate_launch_target : Files → String → List String → Result DebugTarget
validate_launch_target fs executable args = elim (fs.canonicalize executable) [
  | failed e ↦ err (backend ("invalid launch executable: " ++ e))
  | found path ↦
      if fs.is_file path
      then (if any (λ arg. contains_code 0 (codes arg)) args
          then err (backend "launch arguments must not contain NUL bytes")
          else ok (launch path args))
      else err (backend ("launch executable is not a file: " ++ path))
]

unfoldable pub validate_target : Files → DebugTarget → Result DebugTarget
unfolding validate_dump_target validate_attach_target validate_launch_target
validate_target fs (dump path) = validate_dump_target fs path >>= λ p. ok (dump p)
validate_target fs (attach pid) = validate_attach_target fs pid
validate_target fs (launch executable args) = validate_launch_target fs executable args
