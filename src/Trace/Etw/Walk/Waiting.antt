-- ===== src/Trace/Etw/Walk/Waiting.antt =====
-- The cache of stack walks that wait for their event, in native_etw.rs.
use dbgflow.Prelude.{
  ℕ, suc, zero, ◌+◌, ◌≤◌, ◌<◌, ◌≡◌, refl, ap, sym, ◌∙◌, List, [], ◌∷◌, ◌++◌, length, lookup, arith,
  length-append, leb, if◌then◌else◌, Option-cases, Bool-cases, inl, inr,
}
use dbgflow.Trace.Etw.{DecodedStackWalkEvent}
use dbgflow.Trace.Etw.Processor.{EtwProcessor}
use dbgflow.Trace.Etw.FileIo.{has_key}
use dbgflow.Trace.Etw.Walk.{
  Pending, least_key, drop_timestamp, drop_oldest_pending_stack_timestamp, prune_loop,
  prune_pending_stacks_before, make_room, push_pending, stacks_at, is_before,
}
use dbgflow.Trace.Etw.Tables.{
  Distinct, AllEntries, insert-AllEntries, erase-AllEntries, lookup-AllEntries, insert-Distinct,
  erase-Distinct, length-insert, length-erase, total, total-insert, total-erase, has_key-least_key,
  least_key-some,
}

-- The walks of one time of the target process.
abbrev pub OfTime : (pid time : ℕ) → List DecodedStackWalkEvent → Type 0
OfTime pid time [] = Unit
OfTime pid time (stack ∷ stacks) =
    (stack.stack_process ≡ pid) × (stack.event_timestamp ≡ time) × OfTime pid time stacks

abbrev pub Entry : ℕ → ℕ → List DecodedStackWalkEvent → Type 0
Entry pid time stacks = OfTime pid time stacks × (length stacks ≤ 32)

-- The walks that wait, `n` walks being in hand: they are walks of the target, at most 32 for each of
-- at most 4096 times, and each walk was attached, is dropped or waits.
pub record WalkInvariant (n : ℕ) (p : EtwProcessor) : Type 0 where
  pub distinct : Distinct p.pending_stacks_by_timestamp
  pub entries : AllEntries (Entry p.target_pid) p.pending_stacks_by_timestamp
  pub times : length p.pending_stacks_by_timestamp ≤ 4096
  pub accounted :
      p.stack_walk_events
      ≡ p.matched_stack_walk_events
        + p.dropped_pending_stack_walk_events
        + total length p.pending_stacks_by_timestamp
        + n

pub push-OfTime :
    (pid time : ℕ) (stack : DecodedStackWalkEvent) (stacks : List DecodedStackWalkEvent)
    → stack.stack_process ≡ pid
    → stack.event_timestamp ≡ time
    → OfTime pid time stacks
    → OfTime pid time (stacks ++ stack ∷ [])
push-OfTime pid time stack [] h e o = (h, e, tt)
push-OfTime pid time stack (s ∷ stacks) h e o =
    (o.0, o.1, push-OfTime pid time stack stacks h e o.2)

drop_timestamp-WalkInvariant :
    (n oldest : ℕ) (p : EtwProcessor)
    → WalkInvariant n p
    → WalkInvariant n (drop_timestamp oldest p)
unfolding drop_timestamp
drop_timestamp-WalkInvariant n oldest p v =
    elim (Option-cases (lookup oldest p.pending_stacks_by_timestamp)) [
      | inl e ↦ ground (arith, e)
      | inr (removed, e) ↦ ground (
        arith,
        e,
        erase-Distinct oldest p.pending_stacks_by_timestamp v.distinct,
        length-erase oldest p.pending_stacks_by_timestamp v.distinct,
        erase-AllEntries (Entry p.target_pid) oldest p.pending_stacks_by_timestamp v.entries,
        total-erase length oldest p.pending_stacks_by_timestamp v.distinct,
      )
    ]

drop_oldest-WalkInvariant :
    (n : ℕ) (p : EtwProcessor)
    → WalkInvariant n p
    → WalkInvariant n (drop_oldest_pending_stack_timestamp p)
unfolding drop_oldest_pending_stack_timestamp
drop_oldest-WalkInvariant n p v = elim (Option-cases (least_key p.pending_stacks_by_timestamp)) [
  | inl e ↦ ground (arith, e)
  | inr (oldest, e) ↦ ground (arith, e, drop_timestamp-WalkInvariant n oldest p v)
]

pub prune_loop-WalkInvariant :
    (n fuel timestamp : ℕ) (p : EtwProcessor)
    → WalkInvariant n p
    → WalkInvariant n (prune_loop fuel timestamp p)
unfolding prune_loop
prune_loop-WalkInvariant n zero timestamp p v = v
prune_loop-WalkInvariant n (suc fuel) timestamp p v =
    elim (Bool-cases (is_before timestamp (least_key p.pending_stacks_by_timestamp))) [
      | inl e ↦ ground (
        arith,
        e,
        prune_loop-WalkInvariant n fuel timestamp (drop_oldest_pending_stack_timestamp p)
            (drop_oldest-WalkInvariant n p v),
      )
      | inr e ↦ ground (arith, e)
    ]

pub prune_pending_stacks_before-WalkInvariant :
    (n timestamp : ℕ) (p : EtwProcessor)
    → WalkInvariant n p
    → WalkInvariant n (prune_pending_stacks_before timestamp p)
unfolding prune_pending_stacks_before
prune_pending_stacks_before-WalkInvariant n timestamp p v =
    prune_loop-WalkInvariant n (length p.pending_stacks_by_timestamp) timestamp p v

-- A cache with an entry gives the first of them up.
drop_oldest-smaller :
    (k : ℕ) (stacks : List DecodedStackWalkEvent) (rest : Pending) (p : EtwProcessor)
    → p.pending_stacks_by_timestamp ≡ (k, stacks) ∷ rest
    → Distinct p.pending_stacks_by_timestamp
    → length (drop_oldest_pending_stack_timestamp p).pending_stacks_by_timestamp
      < length p.pending_stacks_by_timestamp
unfolding drop_oldest_pending_stack_timestamp drop_timestamp
drop_oldest-smaller k stacks rest p h d =
    elim (Option-cases (least_key p.pending_stacks_by_timestamp)) [
      | inl e ↦ absurd (least_key-some k stacks rest (ap least_key (sym h) ∙ e))
      | inr (oldest, e) ↦ ground (
        arith,
        e,
        has_key-least_key oldest p.pending_stacks_by_timestamp e,
        length-erase oldest p.pending_stacks_by_timestamp d,
      )
    ]

abbrev HasRoom : ℕ → EtwProcessor → Type 0
HasRoom timestamp p =
    length p.pending_stacks_by_timestamp
    < 4096 + (if has_key timestamp p.pending_stacks_by_timestamp then 1 else 0)

full_drops :
    (p : EtwProcessor) (pending : Pending)
    → p.pending_stacks_by_timestamp ≡ pending
    → 4096 ≤ length pending
    → length pending ≤ 4096
    → Distinct p.pending_stacks_by_timestamp
    → length (drop_oldest_pending_stack_timestamp p).pending_stacks_by_timestamp < 4096
full_drops p [] e h r d = absurd (omega arith)
full_drops p ((k, stacks) ∷ rest) e h r d = ground (arith, drop_oldest-smaller k stacks rest p e d)

pub make_room-WalkInvariant :
    (n timestamp : ℕ) (p : EtwProcessor)
    → WalkInvariant n p
    → WalkInvariant n (make_room timestamp p) × HasRoom timestamp (make_room timestamp p)
unfolding make_room
make_room-WalkInvariant n timestamp p v =
    elim (Option-cases (lookup timestamp p.pending_stacks_by_timestamp)) [
      | inl e ↦ elim (Bool-cases (leb 4096 (length p.pending_stacks_by_timestamp))) [
        | inl f ↦ ground (
          arith,
          e,
          f,
          drop_oldest-WalkInvariant n p v,
          full_drops p p.pending_stacks_by_timestamp refl,
        )
        | inr f ↦ ground (arith, e, f)
      ]
      | inr (stacks, e) ↦ ground (arith, e)
    ]

stacks_at-OfTime :
    (pid time : ℕ) (table : Pending)
    → AllEntries (Entry pid) table
    → OfTime pid time (stacks_at time table)
stacks_at-OfTime pid time table a = elim (Option-cases (lookup time table)) [
  | inl e ↦ ground (arith, e)
  | inr (stacks, e) ↦ ground (arith, e, lookup-AllEntries (Entry pid) time stacks table a e)
]

pub push_pending-WalkInvariant :
    (stack : DecodedStackWalkEvent) (p : EtwProcessor)
    → stack.stack_process ≡ p.target_pid
    → HasRoom stack.event_timestamp p
    → WalkInvariant 1 p
    → WalkInvariant 0 (push_pending stack p)
unfolding push_pending
push_pending-WalkInvariant stack p h r v =
    let time = stack.event_timestamp in
    let table = p.pending_stacks_by_timestamp in
    let stacks = stacks_at time table in
    elim (Bool-cases (leb 32 (length stacks))) [
      | inl f ↦ ground (arith, f)
      | inr f ↦ ground (
        arith,
        f,
        length-append stacks (stack ∷ []),
        length-insert time (stacks ++ stack ∷ []) table,
        total-insert length time (stacks ++ stack ∷ []) table,
        insert-Distinct time (stacks ++ stack ∷ []) table v.distinct,
        insert-AllEntries (Entry p.target_pid) time (stacks ++ stack ∷ []) table
            (ground (
              arith,
              f,
              length-append stacks (stack ∷ []),
              push-OfTime p.target_pid time stack stacks h refl
                  (stacks_at-OfTime p.target_pid time table v.entries),
            ))
            v.entries,
      )
    ]
