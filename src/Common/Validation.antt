-- ===== src/Common/Validation.antt =====
-- crates/dbgflow-common/src/validation.rs. A path is its text; what `std::path` says of it depends
-- on the platform and is the parameter `Paths`.
use Prim.Native.String.{◌++◌}
use dbgflow.Prelude.{
  ℕ, String, Bool, false, ◌&&◌, ◌||◌, List, [], ◌∷◌, ◌==◌, leb, any, codes, contains_code,
  is_control, if◌then◌else◌,
}
use dbgflow.Common.Error.{Result, ok, err, backend}

pub record Paths : Type 0 where
  pub has_parent_component : String → Bool
  pub is_absolute : String → Bool

-- The characters that no plain text has.
unfoldable pub is_unsupported : ℕ → Bool
unfolding is_control
is_unsupported c = c == 0 || c == 13 || c == 10 || c == 0x2028 || c == 0x2029 || is_control c

unfoldable pub validate_plain_text : String → String → Result (Unit {0})
validate_plain_text value label =
    if any is_unsupported (codes value)
    then err (backend (label ++ " contains unsupported control characters"))
    else ok tt

abbrev pub is_separator : ℕ → Bool
is_separator c = c == b'\\' || c == b'/'

abbrev push_part : ℕ → List (List ℕ) → List (List ℕ)
push_part c [] = (c ∷ []) ∷ []
push_part c (part ∷ parts) = (c ∷ part) ∷ parts

-- `split(['\\', '/'])`.
unfoldable pub split_parts : List ℕ → List (List ℕ)
split_parts [] = [] ∷ []
split_parts (c ∷ cs) =
    let rest = split_parts cs in if is_separator c then [] ∷ rest else push_part c rest

abbrev pub is_parent : List ℕ → Bool
is_parent (a ∷ b ∷ []) = a == b'.' && b == b'.'
is_parent _ = false

unfoldable pub split_path_text_has_parent : String → Bool
unfolding split_parts
split_path_text_has_parent path = any is_parent (split_parts (codes path))

unfoldable pub path_text_has_separator : String → Bool
path_text_has_separator path = contains_code b'\\' (codes path) || contains_code b'/' (codes path)

abbrev is_ascii_alphabetic : ℕ → Bool
is_ascii_alphabetic c = (leb b'A' c && leb c b'Z') || (leb b'a' c && leb c b'z')

-- The source reads bytes; only ASCII bytes pass, so that they are the characters.
abbrev pub looks_absolute : List ℕ → Bool
looks_absolute (a ∷ b ∷ c ∷ rest) =
    (b == b':' && is_separator c && is_ascii_alphabetic a) || (a == b'\\' && b == b'\\')
looks_absolute (a ∷ b ∷ []) = a == b'\\' && b == b'\\'
looks_absolute _ = false

unfoldable pub is_absolute_path_text : Paths → String → Bool
is_absolute_path_text paths path = paths.is_absolute path || looks_absolute (codes path)
