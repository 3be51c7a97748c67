-- ===== src/Session/Examples/Parts.antt =====
-- Runs of the theorems on the registry, the queries, the targets and the startup.
use mathlib.Core.List.{Perm}
use dbgflow.Prelude.{
  ℕ, String, ◌≡◌, ◌≢◌, refl, false, true, some, [], ◌∷◌, values, mem, lookup, remove, insert, arith,
}
use dbgflow.Common.Error.{SessionId, ok, err, backend}
use dbgflow.Session.State.{SessionState}
use dbgflow.Session.Target.{attach, Files, found, validate_target, validate_attach_target}
use dbgflow.Session.Target.Valid.{is_sound, validate_target-is_sound}
use dbgflow.Session.Registry.{empty, get, is_cancel_requested, kill_once, insert_worker}
use dbgflow.Session.Registry.Once.{
  World, Reach, started, next, registered, kill_requested, IsNoDup, Reach-kill_once,
}
use dbgflow.Session.Operation.{Session}
use dbgflow.Session.Manager.{list_sessions}
use dbgflow.Session.Manager.Queries.{oldest_first, list_sessions-perm}
use dbgflow.Session.Startup.{Launch, startup_thread}
use dbgflow.Session.Startup.Ended.{IsEnded, startup_thread-IsEnded}
use dbgflow.Session.Examples.{session_in, holding, broken_1, held}

none_registered : (j : SessionId) → get j empty ≢ some 50
unfolding get empty lookup
none_registered j e = ground arith

-- The worker 50 is launched for the session 1, and killed.
abbrev killed_50 : World
killed_50 = record { registry = (kill_once 1 (insert_worker 1 50 empty)).1; killed = 50 ∷ [] }

killed_once : Reach killed_50
unfolding kill_once insert_worker empty lookup mem remove insert
killed_once = next (next started (registered 1 50 refl none_registered)) (kill_requested 1)

Reach-kill_once_example :
    IsNoDup killed_50.killed
    × ((id : SessionId) (w : ℕ)
        → get id killed_50.registry ≡ some w
        → mem w killed_50.killed ≡ is_cancel_requested id killed_50.registry)
Reach-kill_once_example = Reach-kill_once killed_once

list_sessions-perm_example :
    Perm (list_sessions (holding broken_1)) (values (holding broken_1).sessions)
    × (oldest_first (list_sessions (holding broken_1)) ≡ true)
list_sessions-perm_example = list_sessions-perm (holding broken_1)

-- Every path is canonical, and every file is there.
abbrev all_there : Files
all_there = record { canonicalize = found; is_file = λ _. true; own_pid = 4 }

same_path : (p q : String) → all_there.canonicalize p ≡ found q → all_there.canonicalize q ≡ found q
same_path p q h = refl

passes_7 : validate_target all_there (attach 7) ≡ ok (attach 7)
unfolding validate_target validate_attach_target
passes_7 = refl

validate_target-is_sound_example :
    (is_sound all_there (attach 7) ≡ true) × (validate_target all_there (attach 7) ≡ ok (attach 7))
validate_target-is_sound_example =
    validate_target-is_sound all_there same_path (attach 7) (attach 7) passes_7

abbrev starting_1 : Session
starting_1 = session_in 1 SessionState.starting (some "create_session")

-- The launcher fails.
abbrev no_worker : Launch
no_worker = record {
  lock_poisoned = false;
  launched = err (backend "no worker");
  created = err (backend "no worker");
  closed = ok tt;
  others = λ k. k;
  duration_ms = 9;
}

startup_thread-IsEnded_example : IsEnded 1 (startup_thread no_worker 1 (holding starting_1))
startup_thread-IsEnded_example =
    startup_thread-IsEnded no_worker 1 (holding starting_1) starting_1 (λ k x at. (x, at))
      (held starting_1)
