-- ===== src/Trace/Etw/FileIo/Rows.antt =====
-- The rows of the file events in native_etw.rs: which of them wait for the end of their operation,
-- and how they are numbered.
use dbgflow.Prelude.{
  ℕ, suc, zero, ◌+◌, ◌<◌, ◌≤◌, ◌≡◌, refl, ap, ◌∙◌, Option, none, some, List, [], ◌∷◌, ◌++◌, length,
  lookup, insert, erase, arith, ◌==◌, Bool-cases, inl, inr,
}
use dbgflow.Trace.Etw.Processor.{EtwProcessor, FileIoRow, modify}
use dbgflow.Trace.Etw.Tables.{Distinct}

abbrev pub given {ℓ} : {A : Type ℓ} → Option A → ℕ
given none = 0
given (some a) = 1

-- The rows of an operation that has a packet.
abbrev pub with_irp : List FileIoRow → ℕ
with_irp [] = 0
with_irp (row ∷ rows) = given row.event.irp_ptr + with_irp rows

-- The rows are numbered on from `n`.
unfoldable pub Numbered : ℕ → List FileIoRow → Type 0
Numbered n [] = Unit
Numbered n (row ∷ rows) = (row.event.sequence ≡ n + 1) × Numbered (n + 1) rows

pub with_irp-push :
    (row : FileIoRow) (rows : List FileIoRow)
    → with_irp (rows ++ row ∷ []) ≡ with_irp rows + given row.event.irp_ptr
with_irp-push row [] = ground arith
with_irp-push row (r ∷ rows) = ground (arith, with_irp-push row rows)

pub push-Numbered :
    (n : ℕ) (row : FileIoRow) (rows : List FileIoRow)
    → row.event.sequence ≡ n + length rows + 1
    → Numbered n rows
    → Numbered n (rows ++ row ∷ [])
unfolding Numbered
push-Numbered n row [] h m = (omega arith, tt)
push-Numbered n row (r ∷ rows) h m = (m.0, push-Numbered (n + 1) row rows (omega arith) m.1)

pub with_irp-modify :
    (f : FileIoRow → FileIoRow)
    → ((row : FileIoRow) → (f row).event.irp_ptr ≡ row.event.irp_ptr)
    → (rows : List FileIoRow) (i : ℕ) → with_irp (modify f rows i) ≡ with_irp rows
unfolding modify
with_irp-modify f irp [] i = refl
with_irp-modify f irp (r ∷ rows) zero = ap (λ x. given x + with_irp rows) (irp r)
with_irp-modify f irp (r ∷ rows) (suc i) =
    ap (λ x. given r.event.irp_ptr + x) (with_irp-modify f irp rows i)

pub modify-Numbered :
    (f : FileIoRow → FileIoRow)
    → ((row : FileIoRow) → (f row).event.sequence ≡ row.event.sequence)
    → (n : ℕ) (rows : List FileIoRow) (i : ℕ) → Numbered n rows
    → Numbered n (modify f rows i)
unfolding modify Numbered
modify-Numbered f number n [] i m = m
modify-Numbered f number n (r ∷ rows) zero m = (number r ∙ m.0, m.1)
modify-Numbered f number n (r ∷ rows) (suc i) m = (m.0, modify-Numbered f number (n + 1) rows i m.1)

-- The packets wait for rows that there are.
unfoldable pub Below : ℕ → List (ℕ × ℕ) → Type 0
Below n [] = Unit
Below n ((irp, i) ∷ irps) = (i < n) × Below n irps

pub weaken-Below : (n m : ℕ) (irps : List (ℕ × ℕ)) → n ≤ m → Below n irps → Below m irps
unfolding Below
weaken-Below n m [] h b = tt
weaken-Below n m ((irp, i) ∷ irps) h b = (omega arith, weaken-Below n m irps h b.1)

pub lookup-Below :
    (n irp i : ℕ) (irps : List (ℕ × ℕ)) → Below n irps → lookup irp irps ≡ some i → i < n
unfolding Below lookup
lookup-Below n irp i [] b h = absurd (ground arith)
lookup-Below n irp i ((k, j) ∷ irps) b h = ground (arith, lookup-Below n irp i irps b.1)

pub erase-Below : (n irp : ℕ) (irps : List (ℕ × ℕ)) → Below n irps → Below n (erase irp irps)
unfolding Below erase
erase-Below n irp [] b = tt
erase-Below n irp ((k, j) ∷ irps) b = elim (Bool-cases (k == irp)) [
  | inl e ↦ ground (arith, e, erase-Below n irp irps b.1)
  | inr e ↦ ground (arith, e, erase-Below n irp irps b.1)
]

pub insert-Below :
    (n irp i : ℕ) (irps : List (ℕ × ℕ)) → i < n → Below n irps → Below n (insert irp i irps)
unfolding Below insert
insert-Below n irp i [] h b = (h, tt)
insert-Below n irp i ((k, j) ∷ irps) h b = elim (Bool-cases (k == irp)) [
  | inl e ↦ ground (arith, e, insert-Below n irp i irps h b.1)
  | inr e ↦ ground (arith, e, insert-Below n irp i irps h b.1)
]

-- The operations that are pending are rows, each row with a packet is accounted for, each row has a
-- path or is counted as without one, and the rows are numbered.
pub record IoInvariant (p : EtwProcessor) : Type 0 where
  pub distinct : Distinct p.pending_file_irps
  pub below : Below (length p.file_io_rows) p.pending_file_irps
  pub accounted :
      p.matched_op_end_count + length p.pending_file_irps + p.reused_irp_without_op_end_count
      ≡ with_irp p.file_io_rows
  pub paths : p.file_path_resolved + p.file_path_unresolved ≡ length p.file_io_rows
  pub numbered : Numbered 0 p.file_io_rows
