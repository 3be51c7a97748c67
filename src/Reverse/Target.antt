-- ===== src/Reverse/Target.antt =====
-- crates/dbgflow-reverse/src/ida/target.rs, over the file system. The Windows prefix of a canonical
-- path is taken off by the parameter `normalize`, and `extension` is that of std::path.
use Prim.Native.String.{◌++◌}
use dbgflow.Prelude.{
  ℕ, String, Bool, true, false, not, ◌&&◌, ◌||◌, Option, none, some, List, [], ◌∷◌, leb, ◌+◌, ◌==◌,
  text_eq, codes, contains_code, if◌then◌else◌,
}
use dbgflow.Common.Error.{Result, ok, err, backend, ◌>>=◌}
use dbgflow.Session.Target.{Files, found, failed}
use dbgflow.Reverse.Model.{IdaTarget, binary, database}

abbrev pub path_of : IdaTarget → String
path_of (binary path) = path
path_of (database path) = path

abbrev pub with_path : String → IdaTarget → IdaTarget
with_path path (binary old) = binary path
with_path path (database old) = database path

unfoldable pub validate_path_text : String → Result (Unit {0})
validate_path_text path =
    if text_eq path ""
    then err (backend "IDA target path must not be empty")
    else if contains_code 0 (codes path)
    then err (backend "IDA target path must not contain NUL bytes")
    else ok tt

abbrev lower : ℕ → ℕ
lower c = if leb b'A' c && leb c b'Z' then c + 32 else c

-- `eq_ignore_ascii_case`.
unfoldable pub eq_ignore_case : List ℕ → List ℕ → Bool
eq_ignore_case [] [] = true
eq_ignore_case [] (d ∷ ds) = false
eq_ignore_case (c ∷ cs) [] = false
eq_ignore_case (c ∷ cs) (d ∷ ds) = lower c == lower d && eq_ignore_case cs ds

-- `none` where there is no extension or it is not text.
unfoldable pub is_ida_database_path : (String → Option String) → String → Bool
unfolding eq_ignore_case
is_ida_database_path extension path = elim (extension path) [
  | none ↦ false
  | some e ↦ eq_ignore_case (codes e) (codes "idb") || eq_ignore_case (codes e) (codes "i64")
]

abbrev is_database : IdaTarget → Bool
is_database (binary path) = false
is_database (database path) = true

unfoldable pub validate_ida_target :
    Files
    → (normalize : String → String) → (extension : String → Option String) → IdaTarget
    → Result IdaTarget
unfolding validate_path_text is_ida_database_path
validate_ida_target fs normalize extension target = validate_path_text (path_of target) >>= λ _.
    elim (fs.canonicalize (path_of target)) [
      | failed e ↦ err (backend ("invalid IDA target path " ++ path_of target ++ ": " ++ e))
      | found raw ↦
          let canonical = normalize raw in
          if not (fs.is_file canonical)
          then err
              (backend ("invalid IDA target path " ++ canonical ++ "; expected an existing file"))
          else if is_database target && not (is_ida_database_path extension canonical)
          then err
              (backend ("invalid IDA database path " ++ canonical ++ "; expected .idb or .i64"))
          else ok (with_path canonical target)
    ]
