-- ===== src/Reverse/Manager/Output/Names.antt =====
-- No two outputs of ida/manager.rs have the same file name.
use mathlib.Core.List.{append_assoc}
use native.Mathlib.Nat.{pow-suc}
use dbgflow.Prelude.{
  ℕ, zero, suc, ◌+◌, ◌/◌, ◌%◌, ◌^◌, ◌<◌, ◌≤◌, ◌≡◌, ◌≢◌, sym, ◌∙◌, List, [], ◌∷◌, ◌++◌, arith,
  length,
}
use dbgflow.Reverse.Manager.{IdaSessionManager}
use dbgflow.Reverse.Manager.Output.{hex_digit, hex, output_name, unique_output_name, sanitize}

hex_digit-inj : (a b : ℕ) → a < 16 → b < 16 → hex_digit a ≡ hex_digit b → a ≡ b
unfolding hex_digit
hex_digit-inj a b p q h = ground arith

div_bound : (a k : ℕ) → a < 16 ^ suc k → a / 16 < 16 ^ k
div_bound a k h = omega (arith, pow-suc 16 k)

hex-append-inj :
    (k a b : ℕ) (xs ys : List ℕ)
    → a < 16 ^ k
    → b < 16 ^ k
    → hex k a ++ xs ≡ hex k b ++ ys
    → (a ≡ b) × (xs ≡ ys)
unfolding hex
hex-append-inj zero a b xs ys p q h = (omega arith, h)
hex-append-inj (suc k) a b xs ys p q h =
    let (high, low) =
      hex-append-inj k (a / 16) (b / 16) (hex_digit (a % 16) ∷ xs) (hex_digit (b % 16) ∷ ys)
        (div_bound a k p) (div_bound b k q)
        (sym (append_assoc (hex k (a / 16)) (hex_digit (a % 16) ∷ []) xs)
          ∙ h
          ∙ append_assoc (hex k (b / 16)) (hex_digit (b % 16) ∷ []) ys) in
    let digits : hex_digit (a % 16) ≡ hex_digit (b % 16) = cc in
    let last : a % 16 ≡ b % 16 =
      hex_digit-inj (a % 16) (b % 16) (omega arith) (omega arith) digits in
    (omega arith, cc)

output_name-inj :
    (i j : ℕ) (b c : List ℕ) → i < 2 ^ 64 → j < 2 ^ 64 → output_name i b ≡ output_name j c → i ≡ j
unfolding output_name
output_name-inj i j b c p q h =
    (hex-append-inj 16 i j (b'-' ∷ sanitize b) (b'-' ∷ sanitize c) (omega arith) (omega arith) h).0

-- The names of outputs that follow each other.
pub names : IdaSessionManager → (bases : List (List ℕ)) → List (List ℕ)
names m [] = []
names m (base ∷ bases) = (unique_output_name base m).0 ∷ names (unique_output_name base m).1 bases

abbrev Differs : List ℕ → List (List ℕ) → Type 0
Differs name [] = Unit
Differs name (other ∷ others) = (name ≢ other) × Differs name others

abbrev pub Apart : List (List ℕ) → Type 0
Apart [] = Unit
Apart (name ∷ others) = Differs name others × Apart others

later-Differs :
    (i : ℕ) (base : List ℕ) (m : IdaSessionManager) (bases : List (List ℕ))
    → i < m.output_sequence
    → m.output_sequence + length bases ≤ 2 ^ 64
    → Differs (output_name i base) (names m bases)
unfolding names unique_output_name
later-Differs i base m [] h p = tt
later-Differs i base m (b ∷ []) h p = (
  λ e.
      absurd
        (omega (arith, output_name-inj i m.output_sequence base b (omega arith) (omega arith) e)),
  tt,
)
later-Differs i base m (b ∷ c ∷ bases) h p = (
  λ e.
      absurd
        (omega (arith, output_name-inj i m.output_sequence base b (omega arith) (omega arith) e)),
  later-Differs i base (unique_output_name b m).1 (c ∷ bases) (omega arith) (omega arith),
)

-- As long as the sequence number of a u64 does not wrap around, the files of all the outputs have
-- different names, whatever the tools are called.
pub names-Apart :
    (m : IdaSessionManager) (bases : List (List ℕ))
    → m.output_sequence + length bases ≤ 2 ^ 64
    → Apart (names m bases)
unfolding names unique_output_name
names-Apart m [] h = tt
names-Apart m (b ∷ []) h = (tt, tt)
names-Apart m (b ∷ c ∷ bases) h = (
  later-Differs m.output_sequence b (unique_output_name b m).1 (c ∷ bases) (omega arith)
      (omega arith),
  names-Apart (unique_output_name b m).1 (c ∷ bases) (omega arith),
)
