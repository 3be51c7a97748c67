-- ===== src/Session/Examples/Workers.antt =====
-- A run of the theorem on the worker protocol.
use dbgflow.Prelude.{ℕ, String, ◌≡◌, none, [], ◌∷◌}
use dbgflow.Common.Error.{DbgFlowError, ok}
use dbgflow.Session.Target.{attach}
use dbgflow.Session.Worker.{WorkerRequest, went}
use dbgflow.Session.Worker.Runtime.{DebugBackend, logs, changes, run_session_worker_stdio}
use dbgflow.Session.Worker.Exchange.{
  converse, call, frames_of, numbered, converse-run_session_worker_stdio,
}
use dbgflow.Session.Examples.{running_event}

-- A backend that logs, reports and answers.
abbrev calm : DebugBackend
calm = record {
  name = "dbgeng";
  create = λ target. ("opened" ∷ [], ok (record { id = "b"; warnings = [] }));
  run = λ id command. (
    logs "run" ∷ changes running_event ∷ [],
    went (record { output = command; warnings = []; final_state = none }),
  );
  close = λ id. ([], ok tt);
}

abbrev number_text : ℕ → String
number_text n = "n"

abbrev error_text : DbgFlowError → String
error_text e = "e"

converse-run_session_worker_stdio_example :
    converse number_text error_text 9 1
      (WorkerRequest.create_session (attach 7)
        ∷ WorkerRequest.execute "g"
        ∷ WorkerRequest.close_session
        ∷ [])
      (frames_of (
        run_session_worker_stdio calm error_text none (
          numbered 1 (
            WorkerRequest.create_session (attach 7)
            ∷ WorkerRequest.execute "g"
            ∷ WorkerRequest.close_session
            ∷ []))))
    ≡ call number_text error_text 9 calm
        (WorkerRequest.create_session (attach 7)
          ∷ WorkerRequest.execute "g"
          ∷ WorkerRequest.close_session
          ∷ [])
        none
converse-run_session_worker_stdio_example =
    converse-run_session_worker_stdio number_text error_text 9 calm
      (WorkerRequest.create_session (attach 7)
        ∷ WorkerRequest.execute "g"
        ∷ WorkerRequest.close_session
        ∷ [])
      none 1
