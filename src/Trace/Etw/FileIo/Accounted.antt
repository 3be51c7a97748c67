-- ===== src/Trace/Etw/FileIo/Accounted.antt =====
-- The file events of native_etw.rs keep the rows accounted for.
use dbgflow.Prelude.{
  ℕ, String, ◌+◌, ◌<◌, ◌≡◌, refl, Option, none, some, List, [], ◌∷◌, ◌++◌, length, lookup, arith,
  Option-cases, inl, inr, length-append,
}
use dbgflow.Trace.Etw.{DecodedFileIoEvent}
use dbgflow.Trace.Etw.Processor.{EtwProcessor, FileIoRow}
use dbgflow.Trace.Etw.FileIo.{
  merge_irp, complete_at, merge_file_io_completion, ignore_file_io_close, push_file_io, push_row,
  await_completion, completed, remove_file_path, cache_file_path, count_path, resolve_file_path,
  file_io_row,
}
use dbgflow.Trace.Etw.FileIo.Rows.{
  Below, weaken-Below, lookup-Below, erase-Below, insert-Below, IoInvariant, with_irp, Numbered,
  with_irp-push, push-Numbered, with_irp-modify, modify-Numbered, given,
}
use dbgflow.Trace.Etw.Walk.{index_event}
use dbgflow.Trace.Etw.Tables.{
  Distinct, get_elem?-below, insert-Distinct, erase-Distinct, length-insert, length-erase,
  length-modify,
}

-- Another processor with as many rows, the same packets and counts.
pub record SameIo (p q : EtwProcessor) : Type 0 where
  pub size : length q.file_io_rows ≡ length p.file_io_rows
  pub packets : with_irp q.file_io_rows ≡ with_irp p.file_io_rows
  pub numbered : Numbered 0 p.file_io_rows → Numbered 0 q.file_io_rows
  pub irps : q.pending_file_irps ≡ p.pending_file_irps
  pub matched : q.matched_op_end_count ≡ p.matched_op_end_count
  pub reused : q.reused_irp_without_op_end_count ≡ p.reused_irp_without_op_end_count
  pub resolved : q.file_path_resolved ≡ p.file_path_resolved
  pub unresolved : q.file_path_unresolved ≡ p.file_path_unresolved

pub SameIo-IoInvariant : (p q : EtwProcessor) → SameIo p q → IoInvariant p → IoInvariant q
SameIo-IoInvariant p q s v = ground (
  arith,
  s.numbered v.numbered,
  weaken-Below (length p.file_io_rows) (length q.file_io_rows) p.pending_file_irps
      (omega (arith, s.size)) v.below,
)

completed-irp :
    (decoded : DecodedFileIoEvent) (n : ℕ) (row : FileIoRow)
    → (completed decoded n row).event.irp_ptr ≡ row.event.irp_ptr
unfolding completed
completed-irp decoded n row = refl

completed-number :
    (decoded : DecodedFileIoEvent) (n : ℕ) (row : FileIoRow)
    → (completed decoded n row).event.sequence ≡ row.event.sequence
unfolding completed
completed-number decoded n row = refl

complete_at-IoInvariant :
    (decoded : DecodedFileIoEvent) (irp i : ℕ) (p : EtwProcessor)
    → lookup irp p.pending_file_irps ≡ some i
    → IoInvariant p
    → IoInvariant (complete_at decoded irp i p)
unfolding complete_at
complete_at-IoInvariant decoded irp i p h v =
    let below = lookup-Below (length p.file_io_rows) irp i p.pending_file_irps v.below h in
    let (row, e) = get_elem?-below p.file_io_rows i below in
    ground (
      arith,
      e,
      h,
      length-erase irp p.pending_file_irps v.distinct,
      erase-Distinct irp p.pending_file_irps v.distinct,
      erase-Below (length p.file_io_rows) irp p.pending_file_irps v.below,
      length-modify (completed decoded p.file_io_raw_sequence) p.file_io_rows i,
      with_irp-modify (completed decoded p.file_io_raw_sequence)
          (completed-irp decoded p.file_io_raw_sequence) p.file_io_rows i,
      modify-Numbered (completed decoded p.file_io_raw_sequence)
          (completed-number decoded p.file_io_raw_sequence) 0 p.file_io_rows i v.numbered,
    )

pub merge_file_io_completion-IoInvariant :
    (decoded : DecodedFileIoEvent) (p : EtwProcessor)
    → IoInvariant p
    → IoInvariant (merge_file_io_completion decoded p)
unfolding merge_file_io_completion merge_irp
merge_file_io_completion-IoInvariant decoded p v = elim (Option-cases decoded.irp_ptr) [
  | inl e ↦ ground (arith, e)
  | inr (irp, e) ↦ elim (Option-cases (lookup irp p.pending_file_irps)) [
    | inl e' ↦ ground (arith, e, e')
    | inr (i, e') ↦ ground (arith, e, e', complete_at-IoInvariant decoded irp i p e' v)
  ]
]

pub ignore_file_io_close-IoInvariant :
    (decoded : DecodedFileIoEvent) (p : EtwProcessor)
    → IoInvariant p
    → IoInvariant (ignore_file_io_close decoded p)
unfolding ignore_file_io_close remove_file_path
ignore_file_io_close-IoInvariant decoded p v = elim (Option-cases decoded.irp_ptr) [
  | inl e ↦ ground (arith, e)
  | inr (irp, e) ↦ ground (
    arith,
    e,
    length-erase irp p.pending_file_irps v.distinct,
    erase-Distinct irp p.pending_file_irps v.distinct,
    erase-Below (length p.file_io_rows) irp p.pending_file_irps v.below,
  )
]

cache_file_path-SameIo :
    (decoded : DecodedFileIoEvent) (p : EtwProcessor) → SameIo p (cache_file_path decoded p)
unfolding cache_file_path
cache_file_path-SameIo decoded p = ground arith

rows-cache_file_path :
    (decoded : DecodedFileIoEvent) (p : EtwProcessor)
    → p.file_io_rows ≡ (cache_file_path decoded p).file_io_rows
unfolding cache_file_path
rows-cache_file_path decoded p = ground arith

-- Where the event's row is in and its path is counted, its packet is still to be accounted for.
record RowPushed (irp_ptr : Option ℕ) (p : EtwProcessor) : Type 0 where
  distinct : Distinct p.pending_file_irps
  below : Below (length p.file_io_rows) p.pending_file_irps
  accounted :
      p.matched_op_end_count
        + length p.pending_file_irps
        + p.reused_irp_without_op_end_count
        + given irp_ptr
      ≡ with_irp p.file_io_rows
  paths : p.file_path_resolved + p.file_path_unresolved ≡ length p.file_io_rows
  numbered : Numbered 0 p.file_io_rows

await_completion-IoInvariant :
    (irp_ptr : Option ℕ) (n : ℕ) (p : EtwProcessor)
    → n < length p.file_io_rows
    → RowPushed irp_ptr p
    → IoInvariant (await_completion irp_ptr n p)
unfolding await_completion
await_completion-IoInvariant none n p h r = ground arith
await_completion-IoInvariant (some irp) n p h r = ground (
  arith,
  length-insert irp n p.pending_file_irps,
  insert-Distinct irp n p.pending_file_irps r.distinct,
  insert-Below (length p.file_io_rows) irp n p.pending_file_irps h r.below,
)

count_path-RowPushed :
    (path : Option String) (row : FileIoRow) (rows : List FileIoRow) (p : EtwProcessor)
    → rows ≡ p.file_io_rows
    → row.event.sequence ≡ length rows + 1
    → IoInvariant p
    → RowPushed row.event.irp_ptr (record (count_path path p) { file_io_rows = rows ++ row ∷ [] })
unfolding count_path
count_path-RowPushed path row rows p e h v =
    let size = length-append rows (row ∷ []) in
    ground (
      arith,
      e,
      size,
      with_irp-push row rows,
      push-Numbered 0 row rows (omega (arith, h)) (ground (arith, e, v.numbered)),
      weaken-Below (length p.file_io_rows) (length (rows ++ row ∷ [])) p.pending_file_irps
          (ground (arith, e, size)) v.below,
    )

push_row-RowPushed :
    (decoded : DecodedFileIoEvent) (p : EtwProcessor)
    → IoInvariant p
    → RowPushed decoded.irp_ptr (push_row decoded p)
unfolding push_row index_event file_io_row
push_row-RowPushed decoded p v =
    let cached = cache_file_path decoded p in
    let path = resolve_file_path decoded cached in
    let c = SameIo-IoInvariant p cached (cache_file_path-SameIo decoded p) v in
    let r =
      count_path-RowPushed path.0 (file_io_row (length p.file_io_rows) path decoded) p.file_io_rows
        cached (rows-cache_file_path decoded p) refl c in
    record {
      distinct = r.distinct;
      below = r.below;
      accounted = r.accounted;
      paths = r.paths;
      numbered = r.numbered;
    }

length-push_row :
    (decoded : DecodedFileIoEvent) (p : EtwProcessor)
    → length (push_row decoded p).file_io_rows ≡ length p.file_io_rows + 1
unfolding push_row index_event
length-push_row decoded p = length-append p.file_io_rows (
    file_io_row (length p.file_io_rows) (resolve_file_path decoded (cache_file_path decoded p))
      decoded
    ∷ [])

pub push_file_io-IoInvariant :
    (decoded : DecodedFileIoEvent) (p : EtwProcessor)
    → IoInvariant p
    → IoInvariant (push_file_io decoded p)
unfolding push_file_io
push_file_io-IoInvariant decoded p v =
    await_completion-IoInvariant decoded.irp_ptr (length p.file_io_rows) (push_row decoded p)
      (omega (arith, length-push_row decoded p)) (push_row-RowPushed decoded p v)
