-- ===== src/Prelude/Maps.antt =====
-- A hash map or a hash set by number, as an association list or a list without repeats.
use Prim.Native.Nat.{ℕ}
use mathlib.Core.Path.{◌≡◌}
use mathlib.Core.Bool.{Bool, false, ◌||◌}
use mathlib.Core.Logic.{inl, inr}
use mathlib.Core.List.{List, [], ◌∷◌}
use mathlib.Core.Option.{Option, none, some}
use native.Mathlib.Omega.{arith}
use dbgflow.Prelude.Tests.{◌==◌, ==_iff, Bool-cases, if◌then◌else◌}

module _ {ℓ} {V : Type ℓ} where
  unfoldable pub lookup : (key : ℕ) → (table : List (ℕ × V)) → Option V
  lookup key [] = none
  lookup key ((at, value) ∷ table) = if at == key then some value else lookup key table

  unfoldable pub insert : (key : ℕ) (value : V) → (table : List (ℕ × V)) → List (ℕ × V)
  insert key value [] = (key, value) ∷ []
  insert key value ((at, old) ∷ table) =
      let rest = insert key value table in
      if at == key then (key, value) ∷ table else (at, old) ∷ rest

  unfoldable pub erase : ℕ → List (ℕ × V) → List (ℕ × V)
  erase k [] = []
  erase k ((j, w) ∷ m) = let rest = erase k m in if j == k then rest else (j, w) ∷ rest

  unfoldable pub values : List (ℕ × V) → List V
  values [] = []
  values ((j, w) ∷ m) = w ∷ values m

  pub lookup-insert :
      (key j : ℕ) (value : V) (table : List (ℕ × V))
      → lookup j (insert key value table) ≡ (if key == j then some value else lookup j table)
  unfolding lookup insert
  lookup-insert key j value [] = ground arith
  lookup-insert key j value ((i, old) ∷ table) = ground (arith, lookup-insert key j value table)

  pub lookup-erase :
      (k j : ℕ) (m : List (ℕ × V)) → lookup j (erase k m) ≡ (if k == j then none else lookup j m)
  unfolding lookup erase
  lookup-erase k j [] = ground arith
  lookup-erase k j ((i, w) ∷ m) = ground (arith, lookup-erase k j m)

unfoldable pub mem : ℕ → List ℕ → Bool
mem k [] = false
mem k (j ∷ s) = j == k || mem k s

unfoldable pub add : ℕ → List ℕ → List ℕ
add k s = if mem k s then s else k ∷ s

unfoldable pub remove : ℕ → List ℕ → List ℕ
remove k [] = []
remove k (j ∷ s) = let rest = remove k s in if j == k then rest else j ∷ rest

pub mem-add : (k j : ℕ) (s : List ℕ) → mem j (add k s) ≡ (k == j || mem j s)
unfolding mem add
mem-add k j s = elim (Bool-cases (k == j)) [
  | inl e ↦ let p = (==_iff k j).0 e in ground (arith, p)
  | inr e ↦ ground arith
]

pub mem-remove : (k j : ℕ) (s : List ℕ) → mem j (remove k s) ≡ (if k == j then false else mem j s)
unfolding mem remove
mem-remove k j [] = ground arith
mem-remove k j (i ∷ s) = ground (arith, mem-remove k j s)
