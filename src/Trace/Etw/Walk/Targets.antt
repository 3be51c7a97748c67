-- ===== src/Trace/Etw/Walk/Targets.antt =====
-- The event that a stack walk is attached to, in native_etw.rs.
use dbgflow.Prelude.{
  ℕ, ◌≡◌, refl, Bool, true, false, ◌||◌, Option, none, some, List, [], ◌∷◌, ◌++◌, lookup, arith,
  is_some, Option-cases, Bool-cases, inl, inr, lookup-insert,
}
use dbgflow.Trace.Etw.{DecodedStackWalkEvent}
use dbgflow.Trace.Etw.Processor.{EtwProcessor, StackTarget}
use dbgflow.Trace.Etw.Walk.{
  stack_target_identity, append_stack_frames_to_target, choose_target, find_target,
  attach_stack_walk_event, Pending, is_target, or_first, add_file_io_frames, add_lifecycle_frames,
  index_event,
}
use dbgflow.Trace.Etw.Walk.Attach.{attach-Attaches}
use dbgflow.Trace.Etw.Tables.{get_elem?-modify}

unfoldable targets_process : EtwProcessor → List StackTarget → Bool
targets_process p [] = false
targets_process p (target ∷ targets) =
    is_target p (stack_target_identity p target) || targets_process p targets

abbrev pub targets_at : ℕ → EtwProcessor → List StackTarget
targets_at timestamp p = elim (lookup timestamp p.event_indices_by_timestamp) [
  | none ↦ []
  | some targets ↦ targets
]

-- There is an event of the target process at this time.
unfoldable pub HasTarget : ℕ → EtwProcessor → Type 0
unfolding targets_process
HasTarget timestamp p = targets_process p (targets_at timestamp p) ≡ true

index_identity :
    (timestamp : ℕ) (target : StackTarget) (p : EtwProcessor) (other : StackTarget)
    → stack_target_identity (index_event timestamp target p) other ≡ stack_target_identity p other
unfolding index_event stack_target_identity
index_identity timestamp target p other = refl

taken_identity :
    (p : EtwProcessor) (pending : Pending) (other : StackTarget)
    → stack_target_identity (record p { pending_stacks_by_timestamp = pending }) other
      ≡ stack_target_identity p other
unfolding stack_target_identity
taken_identity p pending other = refl

-- A walk of the target process finds an event where there is one.
is_some-choose_target :
    (p : EtwProcessor) (stack : DecodedStackWalkEvent) (fallback : Option StackTarget)
    (targets : List StackTarget)
    → stack.stack_process ≡ p.target_pid
    → (is_some fallback || targets_process p targets) ≡ true
    → is_some (choose_target p stack fallback targets) ≡ true
unfolding choose_target targets_process
is_some-choose_target p stack fallback [] h t = ground arith
is_some-choose_target p stack fallback (target ∷ targets) h t =
    let identity = stack_target_identity p target in
    elim (Bool-cases (is_target p identity)) [
      | inl e ↦
          ground (arith, e, is_some-choose_target p stack (or_first fallback target) targets h)
      | inr e ↦ ground (arith, e, is_some-choose_target p stack fallback targets h)
    ]

identity-append :
    (target other : StackTarget) (frames : List ℕ) (p : EtwProcessor)
    → stack_target_identity (append_stack_frames_to_target target frames p) other
      ≡ stack_target_identity p other
unfolding stack_target_identity append_stack_frames_to_target
identity-append target other frames p = ground (
  arith,
  get_elem?-modify (add_file_io_frames frames) p.file_io_rows target.index other.index,
  get_elem?-modify (add_lifecycle_frames frames) p.lifecycle_rows target.index other.index,
)

targets_process-same :
    (p q : EtwProcessor)
    → q.target_pid ≡ p.target_pid
    → ((target : StackTarget) → stack_target_identity q target ≡ stack_target_identity p target)
    → (targets : List StackTarget) → targets_process q targets ≡ targets_process p targets
unfolding targets_process
targets_process-same p q h same [] = refl
targets_process-same p q h same (target ∷ targets) =
    ground (arith, h, same target, targets_process-same p q h same targets)

is_some-find_target :
    (stack : DecodedStackWalkEvent) (p : EtwProcessor)
    → stack.stack_process ≡ p.target_pid
    → HasTarget stack.event_timestamp p
    → is_some (find_target stack p) ≡ true
unfolding find_target HasTarget targets_process
is_some-find_target stack p h t =
    elim (Option-cases (lookup stack.event_timestamp p.event_indices_by_timestamp)) [
      | inl e ↦ absurd (ground (arith, e))
      | inr (targets, e) ↦ ground (arith, e, is_some-choose_target p stack none targets h)
    ]

-- A walk of the target process is attached where there is an event of it at its time.
pub attach-true :
    (stack : DecodedStackWalkEvent) (p : EtwProcessor)
    → stack.stack_process ≡ p.target_pid
    → HasTarget stack.event_timestamp p
    → (attach_stack_walk_event stack p).0 ≡ true
unfolding attach_stack_walk_event
attach-true stack p h t = ground (arith, is_some-find_target stack p h t)

identity-attach :
    (stack : DecodedStackWalkEvent) (p : EtwProcessor) (other : StackTarget)
    → stack_target_identity (attach_stack_walk_event stack p).1 other
      ≡ stack_target_identity p other
unfolding attach_stack_walk_event stack_target_identity
identity-attach stack p other = elim (Option-cases (find_target stack p)) [
  | inl e ↦ ground (arith, e)
  | inr (target, e) ↦ ground (arith, e, identity-append target other stack.stack_addresses p)
]

pub attach-HasTarget :
    (stack : DecodedStackWalkEvent) (timestamp : ℕ) (p : EtwProcessor)
    → HasTarget timestamp p
    → HasTarget timestamp (attach_stack_walk_event stack p).1
unfolding HasTarget
attach-HasTarget stack timestamp p t =
    let a = attach-Attaches stack p in
    ground (
      arith,
      a.indices,
      targets_process-same p (attach_stack_walk_event stack p).1 a.target_pid
          (identity-attach stack p) (targets_at timestamp p),
    )

targets_process-push :
    (p : EtwProcessor) (target : StackTarget) (targets : List StackTarget)
    → is_target p (stack_target_identity p target) ≡ true
    → targets_process p (targets ++ target ∷ []) ≡ true
unfolding targets_process
targets_process-push p target [] h = ground arith
targets_process-push p target (other ∷ targets) h =
    ground (arith, targets_process-push p target targets h)

pub index_event-HasTarget :
    (timestamp : ℕ) (target : StackTarget) (p : EtwProcessor)
    → is_target p (stack_target_identity p target) ≡ true
    → HasTarget timestamp (index_event timestamp target p)
unfolding HasTarget index_event
index_event-HasTarget timestamp target p h = ground (
  arith,
  targets_process-push p target (targets_at timestamp p) h,
  targets_process-same p (index_event timestamp target p) refl (index_identity timestamp target p)
      (targets_at timestamp p ++ target ∷ []),
  lookup-insert timestamp timestamp (targets_at timestamp p ++ target ∷ [])
      p.event_indices_by_timestamp,
)

pub same-HasTarget :
    (timestamp : ℕ) (p q : EtwProcessor)
    → q.target_pid ≡ p.target_pid
    → q.event_indices_by_timestamp ≡ p.event_indices_by_timestamp
    → ((target : StackTarget) → stack_target_identity q target ≡ stack_target_identity p target)
    → HasTarget timestamp p
    → HasTarget timestamp q
unfolding HasTarget
same-HasTarget timestamp p q h i same t =
    ground (arith, i, targets_process-same p q h same (targets_at timestamp p))

pub HasTarget-taken :
    (p : EtwProcessor) (pending : Pending) (timestamp : ℕ)
    → HasTarget timestamp p
    → HasTarget timestamp (record p { pending_stacks_by_timestamp = pending })
unfolding HasTarget
HasTarget-taken p pending timestamp t = ground (
  arith,
  targets_process-same p (record p { pending_stacks_by_timestamp = pending }) refl
      (taken_identity p pending) (targets_at timestamp p),
)
