-- ===== src/Trace/Etw/Tables.antt =====
-- Tables by number with distinct keys, measured by what their values weigh.
use dbgflow.Prelude.{
  ℕ, suc, ◌+◌, ◌≡◌, refl, true, false, Option, none, some, List, [], ◌∷◌, ◌++◌, length, lookup,
  insert, erase, lookup-insert, lookup-erase, arith, ◌==◌, if◌then◌else◌, ◌||◌, Option-cases,
  Bool-cases, inl, inr, ◌≢◌, zero, ◌<◌,
}
use dbgflow.Trace.Etw.Walk.{least_key}
use dbgflow.Trace.Etw.FileIo.{has_key}
use dbgflow.Trace.Etw.Processor.{get_elem?, modify}

module _ {ℓ} {V : Type ℓ} (weight : V → ℕ) where
  abbrev pub total : List (ℕ × V) → ℕ
  total [] = 0
  total ((k, v) ∷ table) = weight v + total table

  abbrev pub weight_at : Option V → ℕ
  weight_at none = 0
  weight_at (some v) = weight v

  pub total-insert :
      (k : ℕ) (v : V) (table : List (ℕ × V))
      → total (insert k v table) + weight_at (lookup k table) ≡ total table + weight v
  unfolding insert lookup
  total-insert k v [] = ground arith
  total-insert k v ((j, w) ∷ table) = ground (arith, total-insert k v table)

module _ {ℓ} {V : Type ℓ} where
  abbrev pub Distinct : List (ℕ × V) → Type 0
  Distinct [] = Unit
  Distinct ((k, v) ∷ table) = (has_key k table ≡ false) × Distinct table

  pub has_key-insert :
      (k j : ℕ) (v : V) (table : List (ℕ × V))
      → has_key j (insert k v table) ≡ (k == j || has_key j table)
  has_key-insert k j v table = ground (arith, lookup-insert k j v table)

  pub has_key-erase :
      (k j : ℕ) (table : List (ℕ × V))
      → has_key j (erase k table) ≡ (if k == j then false else has_key j table)
  has_key-erase k j table = ground (arith, lookup-erase k j table)

  pub insert-Distinct :
      (k : ℕ) (v : V) (table : List (ℕ × V)) → Distinct table → Distinct (insert k v table)
  unfolding insert lookup
  insert-Distinct k v [] d = (refl, tt)
  insert-Distinct k v ((j, w) ∷ table) d =
      ground (arith, insert-Distinct k v table, has_key-insert k j v table)

  pub erase-Distinct : (k : ℕ) (table : List (ℕ × V)) → Distinct table → Distinct (erase k table)
  unfolding erase
  erase-Distinct k [] d = d
  erase-Distinct k ((j, w) ∷ table) d =
      ground (arith, erase-Distinct k table, has_key-erase k j table)

module _ {ℓ} {V : Type ℓ} (weight : V → ℕ) where
  absent_erase :
      (k : ℕ) (table : List (ℕ × V))
      → has_key k table ≡ false
      → total weight (erase k table) ≡ total weight table
  unfolding erase lookup
  absent_erase k [] h = refl
  absent_erase k ((j, w) ∷ table) h = ground (arith, absent_erase k table)

  pub total-erase :
      (k : ℕ) (table : List (ℕ × V))
      → Distinct table
      → total weight (erase k table) + weight_at weight (lookup k table) ≡ total weight table
  unfolding erase lookup
  total-erase k [] d = refl
  total-erase k ((j, w) ∷ table) d = ground (arith, total-erase k table, absent_erase k table)

module _ {ℓ} {V : Type ℓ} where
  pub total-one : (table : List (ℕ × V)) → total (λ _. 1) table ≡ length table
  total-one [] = refl
  total-one ((k, v) ∷ table) = omega (arith, total-one table)

  pub length-insert :
      (k : ℕ) (v : V) (table : List (ℕ × V))
      → length (insert k v table) + (if has_key k table then 1 else 0) ≡ length table + 1
  unfolding insert lookup
  length-insert k v [] = ground arith
  length-insert k v ((j, w) ∷ table) = ground (arith, length-insert k v table)

  pub length-erase :
      (k : ℕ) (table : List (ℕ × V))
      → Distinct table
      → length (erase k table) + (if has_key k table then 1 else 0) ≡ length table
  length-erase k table d =
      ground
        (arith, total-erase (λ (v : V). 1) k table d, total-one table, total-one (erase k table))

  -- A key that is found least is a key.
  pub has_key-least_key :
      (k : ℕ) (table : List (ℕ × V)) → least_key table ≡ some k → has_key k table ≡ true
  unfolding least_key lookup
  has_key-least_key k [] h = absurd (ground arith)
  has_key-least_key k ((j, w) ∷ table) h = elim (Option-cases (least_key table)) [
    | inl e ↦ ground (arith, e)
    | inr (i, e) ↦ ground (arith, e, has_key-least_key i table e)
  ]

  pub least_key-some : (k : ℕ) (v : V) (table : List (ℕ × V)) → least_key ((k, v) ∷ table) ≢ none
  unfolding least_key
  least_key-some k v table h = ground arith

module _ {ℓ} {A : Type ℓ} where
  pub get_elem?-push : (x : A) (xs : List A) → get_elem? (xs ++ x ∷ []) (length xs) ≡ some x
  unfolding get_elem?
  get_elem?-push x [] = refl
  get_elem?-push x (y ∷ xs) = get_elem?-push x xs

  pub get_elem?-old :
      (xs ys : List A) (i : ℕ) → i < length xs → get_elem? (xs ++ ys) i ≡ get_elem? xs i
  unfolding get_elem?
  get_elem?-old [] ys i h = absurd (omega arith)
  get_elem?-old (x ∷ xs) ys zero h = refl
  get_elem?-old (x ∷ xs) ys (suc i) h = get_elem?-old xs ys i (omega arith)

  pub get_elem?-modify :
      (f : A → A) (xs : List A) (i j : ℕ)
      → get_elem? (modify f xs i) j ≡ (
          if i == j
          then elim (get_elem? xs j) [ none ↦ none | some x ↦ some (f x) ]
          else get_elem? xs j)
  unfolding get_elem? modify
  get_elem?-modify f [] i j = ground arith
  get_elem?-modify f (x ∷ xs) zero zero = refl
  get_elem?-modify f (x ∷ xs) zero (suc j) = ground arith
  get_elem?-modify f (x ∷ xs) (suc i) zero = ground arith
  get_elem?-modify f (x ∷ xs) (suc i) (suc j) = ground (arith, get_elem?-modify f xs i j)

  pub length-modify : (f : A → A) (xs : List A) (i : ℕ) → length (modify f xs i) ≡ length xs
  unfolding modify
  length-modify f [] i = refl
  length-modify f (x ∷ xs) zero = refl
  length-modify f (x ∷ xs) (suc i) = omega (arith, length-modify f xs i)

-- Each entry of a table satisfies P.
module _ {ℓ} {V : Type ℓ} (P : ℕ → V → Type 0) where
  abbrev pub AllEntries : List (ℕ × V) → Type 0
  AllEntries [] = Unit
  AllEntries ((k, v) ∷ table) = P k v × AllEntries table

  pub insert-AllEntries :
      (k : ℕ) (v : V) (table : List (ℕ × V))
      → P k v
      → AllEntries table
      → AllEntries (insert k v table)
  unfolding insert
  insert-AllEntries k v [] h a = (h, tt)
  insert-AllEntries k v ((j, w) ∷ table) h a = elim (Bool-cases (j == k)) [
    | inl e ↦ ground (arith, e, h)
    | inr e ↦ ground (arith, e, insert-AllEntries k v table h a.1)
  ]

  pub erase-AllEntries :
      (k : ℕ) (table : List (ℕ × V)) → AllEntries table → AllEntries (erase k table)
  unfolding erase
  erase-AllEntries k [] a = a
  erase-AllEntries k ((j, w) ∷ table) a = elim (Bool-cases (j == k)) [
    | inl e ↦ ground (arith, e, erase-AllEntries k table a.1)
    | inr e ↦ ground (arith, e, erase-AllEntries k table a.1)
  ]

  pub lookup-AllEntries :
      (k : ℕ) (v : V) (table : List (ℕ × V)) → AllEntries table → lookup k table ≡ some v → P k v
  unfolding lookup
  lookup-AllEntries k v [] a h = absurd (ground arith)
  lookup-AllEntries k v ((j, w) ∷ table) a h = elim (Bool-cases (j == k)) [
    | inl e ↦ ground (arith, e)
    | inr e ↦ lookup-AllEntries k v table a.1 (ground (arith, e))
  ]

pub get_elem?-below {ℓ} :
    {A : Type ℓ} (xs : List A) (i : ℕ) → i < length xs → (x : A) × (get_elem? xs i ≡ some x)
unfolding get_elem?
get_elem?-below [] i h = absurd (omega arith)
get_elem?-below (x ∷ xs) zero h = (x, refl)
get_elem?-below (x ∷ xs) (suc i) h = get_elem?-below xs i (omega arith)
