-- ===== src/Trace/Etw/Walk/Attach.antt =====
-- What attaching a stack walk does, in native_etw.rs.
use dbgflow.Prelude.{ℕ, ◌+◌, ◌≡◌, Bool, true, false, arith}
use dbgflow.Trace.Etw.{DecodedStackWalkEvent}
use dbgflow.Trace.Etw.Processor.{EtwProcessor}
use dbgflow.Trace.Etw.Walk.{append_stack_frames_to_target, attach_stack_walk_event}

-- What attaching leaves alone: all but the addresses of the rows and the count of matches.
pub record Attaches (n : ℕ) (p q : EtwProcessor) : Type 0 where
  pub target_pid : q.target_pid ≡ p.target_pid
  pub settings : q.settings ≡ p.settings
  pub irps : q.pending_file_irps ≡ p.pending_file_irps
  pub ignored : q.ignored_file_irps ≡ p.ignored_file_irps
  pub indices : q.event_indices_by_timestamp ≡ p.event_indices_by_timestamp
  pub pending : q.pending_stacks_by_timestamp ≡ p.pending_stacks_by_timestamp
  pub modules : q.modules ≡ p.modules
  pub resolved : q.file_path_resolved ≡ p.file_path_resolved
  pub unresolved : q.file_path_unresolved ≡ p.file_path_unresolved
  pub matched_io : q.matched_op_end_count ≡ p.matched_op_end_count
  pub reused : q.reused_irp_without_op_end_count ≡ p.reused_irp_without_op_end_count
  pub walks : q.stack_walk_events ≡ p.stack_walk_events
  pub dropped : q.dropped_pending_stack_walk_events ≡ p.dropped_pending_stack_walk_events
  pub matched : q.matched_stack_walk_events ≡ p.matched_stack_walk_events + n

abbrev pub matches : Bool → ℕ
matches true = 1
matches false = 0

pub attach-Attaches :
    (stack : DecodedStackWalkEvent) (p : EtwProcessor)
    → Attaches (matches (attach_stack_walk_event stack p).0) p (attach_stack_walk_event stack p).1
unfolding attach_stack_walk_event append_stack_frames_to_target
attach-Attaches stack p = ground arith
