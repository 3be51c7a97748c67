-- ===== src/Trace/Etw/Walk/Settled.antt =====
-- Each stack walk of native_etw.rs is attached, dropped or waits.
use dbgflow.Prelude.{
  ℕ, suc, ◌+◌, ◌≡◌, true, false, List, [], ◌∷◌, length, lookup, erase, arith, ◌==◌, Option-cases,
  Bool-cases, inl, inr,
}
use dbgflow.Trace.Etw.{DecodedStackWalkEvent}
use dbgflow.Trace.Etw.Processor.{EtwProcessor}
use dbgflow.Trace.Etw.Walk.{
  make_room, cache_pending_stack_walk_event, process_stack_walk_event, attach_stack_walk_event,
  attach_all, attach_pending, drop_timestamp, drop_oldest_pending_stack_timestamp,
}
use dbgflow.Trace.Etw.Walk.Attach.{Attaches, attach-Attaches}
use dbgflow.Trace.Etw.Walk.Waiting.{
  WalkInvariant, make_room-WalkInvariant, push_pending-WalkInvariant, OfTime, Entry,
}
use dbgflow.Trace.Etw.Walk.Targets.{HasTarget, attach-true, attach-HasTarget, HasTarget-taken}
use dbgflow.Trace.Etw.Tables.{
  lookup-AllEntries, erase-AllEntries, erase-Distinct, length-erase, total-erase,
}

target_pid-make_room :
    (timestamp : ℕ) (p : EtwProcessor) → (make_room timestamp p).target_pid ≡ p.target_pid
unfolding make_room drop_timestamp drop_oldest_pending_stack_timestamp
target_pid-make_room timestamp p = ground arith

cache_pending_stack_walk_event-WalkInvariant :
    (stack : DecodedStackWalkEvent) (p : EtwProcessor)
    → WalkInvariant 1 p
    → WalkInvariant 0 (cache_pending_stack_walk_event stack p)
unfolding cache_pending_stack_walk_event
cache_pending_stack_walk_event-WalkInvariant stack p v =
    let (w, room) = make_room-WalkInvariant 1 stack.event_timestamp p v in
    elim (Bool-cases (stack.stack_process == p.target_pid)) [
      | inl e ↦ ground (
        arith,
        e,
        push_pending-WalkInvariant stack (make_room stack.event_timestamp p)
            (ground (arith, e, target_pid-make_room stack.event_timestamp p)) room w,
      )
      | inr e ↦ ground (arith, e)
    ]

Attaches-WalkInvariant :
    (m n : ℕ) (p q : EtwProcessor) → Attaches m p q → WalkInvariant (m + n) p → WalkInvariant n q
Attaches-WalkInvariant m n p q a v = record {
  distinct = rw a.pending v.distinct;
  entries = rw (a.pending, a.target_pid) v.entries;
  times = rw a.pending v.times;
  accounted = ground (arith, a.pending, a.walks, a.dropped, a.matched, v.accounted);
}

attached-WalkInvariant :
    (n : ℕ) (stack : DecodedStackWalkEvent) (p : EtwProcessor)
    → (attach_stack_walk_event stack p).0 ≡ true
    → WalkInvariant (suc n) p
    → WalkInvariant n (attach_stack_walk_event stack p).1
attached-WalkInvariant n stack p e v =
    Attaches-WalkInvariant 1 n p (attach_stack_walk_event stack p).1
      (ground (arith, e, attach-Attaches stack p)) (ground (arith, v))

missed-WalkInvariant :
    (stack : DecodedStackWalkEvent) (p : EtwProcessor)
    → (attach_stack_walk_event stack p).0 ≡ false
    → WalkInvariant 1 p
    → WalkInvariant 1 (attach_stack_walk_event stack p).1
missed-WalkInvariant stack p e v =
    Attaches-WalkInvariant 0 1 p (attach_stack_walk_event stack p).1
      (ground (arith, e, attach-Attaches stack p)) v

count-WalkInvariant :
    (p : EtwProcessor)
    → WalkInvariant 0 p
    → WalkInvariant 1 (record p { stack_walk_events = p.stack_walk_events + 1 })
count-WalkInvariant p v = record {
  distinct = v.distinct;
  entries = v.entries;
  times = v.times;
  accounted = omega (arith, v.accounted);
}

pub process_stack_walk_event-WalkInvariant :
    (stack : DecodedStackWalkEvent) (p : EtwProcessor)
    → WalkInvariant 0 p
    → WalkInvariant 0 (process_stack_walk_event stack p)
unfolding process_stack_walk_event
process_stack_walk_event-WalkInvariant stack p v =
    let counted = record p { stack_walk_events = p.stack_walk_events + 1 } in
    let attached = attach_stack_walk_event stack counted in
    elim (Bool-cases attached.0) [
      | inl e ↦
          ground (arith, e, attached-WalkInvariant 0 stack counted e (count-WalkInvariant p v))
      | inr e ↦ ground (
        arith,
        e,
        cache_pending_stack_walk_event-WalkInvariant stack attached.1
            (missed-WalkInvariant stack counted e (count-WalkInvariant p v)),
      )
    ]

attach_all-WalkInvariant :
    (timestamp : ℕ) (stacks : List DecodedStackWalkEvent) (p : EtwProcessor)
    → OfTime p.target_pid timestamp stacks
    → HasTarget timestamp p
    → WalkInvariant (length stacks) p
    → WalkInvariant 0 (attach_all stacks p)
unfolding attach_all
attach_all-WalkInvariant timestamp [] p o t v = v
attach_all-WalkInvariant timestamp (stack ∷ stacks) p o t v =
    let attached = attach_stack_walk_event stack p in
    attach_all-WalkInvariant timestamp stacks attached.1
      (rw (attach-Attaches stack p).target_pid o.2) (attach-HasTarget stack timestamp p t)
      (attached-WalkInvariant (length stacks) stack p (attach-true stack p o.0 (rw o.1 t)) v)

-- With an event of the target at its time, none of the walks of that time waits on.
pub attach_pending-WalkInvariant :
    (timestamp : ℕ) (p : EtwProcessor)
    → HasTarget timestamp p
    → WalkInvariant 0 p
    → WalkInvariant 0 (attach_pending timestamp p)
unfolding attach_pending
attach_pending-WalkInvariant timestamp p t v =
    elim (Option-cases (lookup timestamp p.pending_stacks_by_timestamp)) [
      | inl e ↦ ground (arith, e)
      | inr (stacks, e) ↦
          let table = p.pending_stacks_by_timestamp in
          let taken = record p { pending_stacks_by_timestamp = erase timestamp table } in
          ground (
            arith,
            e,
            attach_all-WalkInvariant timestamp stacks taken
                (lookup-AllEntries (Entry p.target_pid) timestamp stacks table v.entries e).0
                (HasTarget-taken p (erase timestamp table) timestamp t)
                (record {
                  distinct = erase-Distinct timestamp table v.distinct;
                  entries = erase-AllEntries (Entry p.target_pid) timestamp table v.entries;
                  times = ground (arith, length-erase timestamp table v.distinct, v.times);
                  accounted =
                      ground (arith, e, total-erase length timestamp table v.distinct, v.accounted);
                }),
          )
    ]
