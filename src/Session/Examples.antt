-- ===== src/Session/Examples.antt =====
-- Runs of the sessions' theorems on a small manager. `Evals` has those of an eval, `Parts` those of
-- the registry, the queries, the targets and the startup, `Workers` that of the worker protocol.
pub mod Evals
pub mod Parts
pub mod Workers
use dbgflow.Prelude.{
  String, ◌≡◌, refl, Bool, true, false, Option, none, some, [], ◌∷◌, lookup, insert, values, arith,
}
use dbgflow.Common.Error.{SessionId, Message, ok}
use dbgflow.Session.State.{SessionState, BackendExecutionState, BackendExecutionEvent, is_reusable}
use dbgflow.Session.Target.{attach, target_eq}
use dbgflow.Session.Operation.{OperationStatus, OperationSummary, Session}
use dbgflow.Session.Manager.{SessionManager, new}
use dbgflow.Session.Create.{written, find_reusable, starting_session, get_or_create}
use dbgflow.Session.Create.Reuse.{get_or_create_again}
use dbgflow.Session.Close.{
  request_close, LockOutcome, guarded, timed_out, close_thread, would_block, wait_for_operation,
}
use dbgflow.Session.Close.Settled.{
  IsSettled, answer, settled, close_thread-IsSettled, wait_for_operation_total,
}
use dbgflow.Session.Monitor.{mark_worker_unavailable}
use dbgflow.Session.Eval.Operation.{
  Ending, finish_operation, start_operation, apply_backend_execution_event,
}
use dbgflow.Session.Lifecycle.Edge.{Update}
use dbgflow.Session.Lifecycle.Steps.{Reach, creates, close_ends, backend_reports, begun, next}
use dbgflow.Session.Lifecycle.Safety.{IsSound, IsBorn, Step-Update, Step-IsBorn, Reach-IsSound}
use dbgflow.Session.Lifecycle.Unique.{HasUniqueTargets, Step-HasUniqueTargets}
use dbgflow.Session.Lifecycle.Reopen.{reopened_twin}

abbrev operation_3 : OperationSummary
operation_3 = record {
  command_id = 3;
  command = "k";
  status = OperationStatus.running;
  started_at_unix_ms = 40;
  finished_at_unix_ms = none;
  duration_ms = none;
  artifact = none;
  error = none;
  output_bytes = none;
}

-- A session over the process 7.
abbrev pub session_in : SessionId → SessionState → Option String → Session
session_in id state command = record {
  id = id;
  backend = "dbgeng";
  backend_session_id = some "b";
  target = attach 7;
  state = state;
  created_at_unix_ms = 10;
  updated_at_unix_ms = 20;
  warnings = [];
  current_operation = command;
  last_operation = some operation_3;
  error = none;
}

-- A manager at time 100 with this one session, whose worker is 50.
abbrev pub holding : Session → SessionManager
holding s = record {
  clock = 100;
  workers = record { workers = (s.id, 50) ∷ []; cancel_requested = [] };
  sessions = (s.id, s) ∷ [];
  operation_locks = s.id ∷ [];
  artifact_root = [];
  event_subscribers = [];
  journal = [];
}

abbrev closing_1 : Session
closing_1 = session_in 1 SessionState.closing none

abbrev closed_1 : Session
closed_1 = session_in 1 SessionState.closed none

abbrev pub broken_1 : Session
broken_1 = session_in 1 SessionState.break none

abbrev pub running_event : BackendExecutionEvent
running_event = record { state = BackendExecutionState.running; reason = none }

abbrev pub break_event : BackendExecutionEvent
break_event = record { state = BackendExecutionState.break; reason = none }

pub held : (s : Session) → lookup s.id (holding s).sessions ≡ some s
unfolding lookup
held s = ground arith

Step-Update_example :
    (t : Session) × (lookup 1
        (apply_backend_execution_event 1 running_event (holding broken_1)).1.sessions
      ≡ some t)
    × Update broken_1 t
Step-Update_example =
    Step-Update {m = holding broken_1} (backend_reports 1 running_event) 1 broken_1 (held broken_1)

absent_2 : lookup 2 (holding closed_1).sessions ≡ none
unfolding lookup
absent_2 = refl

abbrev twin_2 : Session
twin_2 = starting_session 2 100 (attach 7)

born_2 : lookup 2 (get_or_create written 2 (attach 7) (holding closed_1)).1.sessions ≡ some twin_2
unfolding lookup insert get_or_create find_reusable values is_reusable target_eq starting_session
born_2 = refl

Step-IsBorn_example : IsBorn 2 (holding closed_1) twin_2
Step-IsBorn_example =
    Step-IsBorn {m = holding closed_1} (creates written 2 (attach 7) absent_2) 2 twin_2 absent_2
      born_2

reached : Reach 100 [] (get_or_create written 1 (attach 7) (new 100 [])).1
unfolding new lookup
reached = next begun (creates written 1 (attach 7) refl)

entry_1 :
    lookup 1 (get_or_create written 1 (attach 7) (new 100 [])).1.sessions
    ≡ some (starting_session 1 100 (attach 7))
unfolding lookup insert get_or_create find_reusable values new starting_session
entry_1 = refl

Reach-IsSound_example : IsSound 1 (starting_session 1 100 (attach 7))
Reach-IsSound_example = Reach-IsSound reached 1 (starting_session 1 100 (attach 7)) entry_1

-- A creation in an empty manager, asked for again.
made_1 :
    get_or_create written 1 (attach 7) (new 100 [])
    ≡ (ok (starting_session 1 100 (attach 7)), (get_or_create written 1 (attach 7) (new 100 [])).1)
unfolding get_or_create find_reusable values new starting_session
made_1 = refl

get_or_create_again_example :
    get_or_create written 2 (attach 7) (get_or_create written 1 (attach 7) (new 100 [])).1
    ≡ (ok (starting_session 1 100 (attach 7)), (get_or_create written 1 (attach 7) (new 100 [])).1)
get_or_create_again_example =
    get_or_create_again written written 1 2 (attach 7) (new 100 [])
      (get_or_create written 1 (attach 7) (new 100 [])).1 (starting_session 1 100 (attach 7)) made_1

close_thread-IsSettled_example :
    IsSettled 1
      (answer timed_out (ok tt) 1 (holding closing_1))
      (close_thread timed_out (ok tt) 1 (holding closing_1))
      (settled 100 (answer timed_out (ok tt) 1 (holding closing_1)) closing_1)
close_thread-IsSettled_example =
    close_thread-IsSettled timed_out (ok tt) 1 (holding closing_1) closing_1 (held closing_1)

wait_for_operation_total_example :
    (outcome : LockOutcome) × (wait_for_operation ((would_block, 50) ∷ (would_block, 10000) ∷ [])
      ≡ some outcome)
wait_for_operation_total_example =
    wait_for_operation_total ((would_block, 50) ∷ []) (would_block, 10000) (omega arith)

-- After the request the worker reports a break, and the clock goes on.
abbrev asked_1 : SessionManager
asked_1 = (request_close true 1 (holding broken_1)).1

abbrev reported_1 : SessionManager
reported_1 = (apply_backend_execution_event 1 break_event asked_1).1

one_target : HasUniqueTargets (holding broken_1)
unfolding lookup
one_target i j s t p q _ _ _ = ground arith

stays_open :
    (i : SessionId) (s t : Session)
    → lookup i (holding broken_1).sessions ≡ some s
    → lookup i (close_thread guarded (ok tt) 1 (holding broken_1)).sessions ≡ some t
    → is_reusable s.state ≡ false
    → is_reusable t.state ≡ false
unfolding lookup is_reusable
stays_open i s t p q h = absurd (ground arith)

Step-HasUniqueTargets_example : HasUniqueTargets (close_thread guarded (ok tt) 1 (holding broken_1))
Step-HasUniqueTargets_example =
    Step-HasUniqueTargets {m = holding broken_1} (close_ends guarded (ok tt) 1) stays_open
      one_target

none_in_use : find_reusable (attach 7) (values (holding closed_1).sessions) ≡ none
unfolding find_reusable values is_reusable target_eq
none_in_use = refl

reopened_twin_example :
    ¬ HasUniqueTargets
      (apply_backend_execution_event 1 break_event
        (get_or_create written 2 (attach 7) (holding closed_1)).1).1
reopened_twin_example =
    reopened_twin 1 2 (holding closed_1) closed_1 break_event (held closed_1) refl refl none_in_use
      absent_2
