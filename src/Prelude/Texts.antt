-- ===== src/Prelude/Texts.antt =====
-- Texts as lists of code points, and the classes of characters that the code asks for.
use Prim.Native.Nat.{ℕ}
use Prim.Native.Char.{code}
use Prim.Native.String.{String}
use mathlib.Core.Bool.{Bool, ◌&&◌, ◌||◌}
use mathlib.Core.List.{List, [], ◌∷◌}
use dbgflow.Prelude.Tests.{leb, ◌==◌}
use dbgflow.Prelude.Lists.{any, all}

-- `chars()`.
abbrev pub codes : String → List ℕ
codes String.[] = []
codes (String.◌∷◌ letter text) = code letter ∷ codes text

-- `char::is_control`: the general category Cc.
unfoldable pub is_control : ℕ → Bool
is_control c = leb c 0x1f || (leb 0x7f c && leb c 0x9f)

-- `char::is_whitespace`: the property White_Space.
unfoldable pub is_whitespace : ℕ → Bool
is_whitespace c =
    (leb 9 c && leb c 13)
    || c == 0x20
    || c == 0x85
    || c == 0xa0
    || c == 0x1680
    || (leb 0x2000 c && leb c 0x200a)
    || c == 0x2028
    || c == 0x2029
    || c == 0x202f
    || c == 0x205f
    || c == 0x3000

-- `text.contains(c)`.
abbrev pub contains_code : ℕ → List ℕ → Bool
contains_code c cs = any (λ d. d == c) cs

-- `text.trim().is_empty()`.
unfoldable pub is_blank : List ℕ → Bool
unfolding is_whitespace
is_blank cs = all is_whitespace cs
