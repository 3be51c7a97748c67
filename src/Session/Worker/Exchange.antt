-- ===== src/Session/Worker/Exchange.antt =====
-- The two ends of the worker protocol, put together.
use Prim.Native.String.{◌++◌ as append}
use dbgflow.Prelude.{
  ℕ, suc, String, ◌≡◌, refl, ap, sym, ◌∙◌, Bool, true, false, Option, none, some, List, [], ◌∷◌,
  ◌++◌, arith, if◌then◌else◌,
}
use dbgflow.Common.Error.{DbgFlowError, backend}
use dbgflow.Session.State.{BackendExecutionEvent}
use dbgflow.Session.Worker.{
  Outcome, went, failed, plain_failure, WorkerRequest, create_session, execute, close_session,
  WorkerResult, WorkerOutput, response, execution_state_changed, Line, frame, accept_response,
  into_execute_failure, read_response, has_sink,
}
use dbgflow.Session.Worker.Runtime.{
  DebugBackend, Emission, logs, changes, emitted, logged, handle, response_frame, Input, request,
  run_session_worker_stdio,
}

-- What is written is what is read.
abbrev pub frames_of : List WorkerOutput → List Line
frames_of [] = []
frames_of (out ∷ outs) = frame out ∷ frames_of outs

-- An answer on its way: an error becomes a backend error with its text.
abbrev pub carried : (DbgFlowError → String) → Outcome WorkerResult → Outcome WorkerResult
carried display (went result) = went result
carried display (failed failure) =
    failed
      (record { error = backend (display failure.error); partial_output = failure.partial_output })

abbrev is_response : WorkerOutput → Bool
is_response (response n r e) = true
is_response _ = false

-- The events among the frames before a response.
abbrev pub events_of : List WorkerOutput → List BackendExecutionEvent
events_of [] = []
events_of (execution_state_changed event ∷ outs) = event ∷ events_of outs
events_of (_ ∷ outs) = events_of outs

-- Each request gets the next number.
abbrev pub numbered : ℕ → List WorkerRequest → List Input
numbered n [] = []
numbered n (r ∷ rs) = request n r ∷ numbered (suc n) rs

module _ (show : ℕ → String) (display : DbgFlowError → String) (pid : ℕ) where
  read_answer :
      (n : ℕ) (sink : Bool) (a : Outcome WorkerResult) (lines : List Line)
      → read_response show pid n sink (frame (response_frame display n a) ∷ lines)
        ≡ (carried display a, [], lines)
  unfolding read_response response_frame accept_response into_execute_failure
  read_answer n sink (went result) lines = ground arith
  read_answer n sink (failed failure) lines = ground arith

  read_logged :
      (n : ℕ) (sink : Bool) (events : List String) (outs : List WorkerOutput)
      → read_response show pid n sink (frames_of (logged events ++ outs))
        ≡ read_response show pid n sink (frames_of outs)
  unfolding read_response
  read_logged n sink [] outs = refl
  read_logged n sink (event ∷ events) outs = read_logged n sink events outs

  read_emitted :
      (n : ℕ) (es : List Emission) (outs : List WorkerOutput) (a : Outcome WorkerResult)
      (rest : List Line)
      → read_response show pid n true (frames_of outs) ≡ (a, [], rest)
      → read_response show pid n true (frames_of (emitted es ++ outs))
        ≡ (a, events_of (emitted es), rest)
  unfolding read_response
  read_emitted n [] outs a rest h = h
  read_emitted n (logs event ∷ es) outs a rest h = read_emitted n es outs a rest h
  read_emitted n (changes event ∷ es) outs a rest h = rw (read_emitted n es outs a rest h) refl

  no_events : (events : List String) → events_of (logged events) ≡ []
  no_events [] = refl
  no_events (event ∷ events) = no_events events

  -- One request: the server gets the worker's answer and, for a command, its events in order.
  read_handled :
      (b : DebugBackend) (r : WorkerRequest) (held : Option String) (n : ℕ)
      (rest : List WorkerOutput)
      → let h = handle b r held in
        read_response show pid n
          (has_sink r)
          (frames_of (h.frames ++ response_frame display n h.answer ∷ rest))
        ≡ (carried display h.answer, events_of h.frames, frames_of rest)
  unfolding handle
  read_handled b (create_session target) (some held) n rest = read_answer n false _ (frames_of rest)
  read_handled b (create_session target) none n rest =
      let (lines, made) = b.create target in
      read_logged n false lines _
      ∙ read_answer n false _ (frames_of rest)
      ∙ ap
          (λ es.
            (carried display (handle b (create_session target) none).answer, es, frames_of rest))
          (sym (no_events lines))
  read_handled b (execute command) none n rest = read_answer n true _ (frames_of rest)
  read_handled b (execute command) (some held) n rest =
      let (lines, result) = b.run held command in
      read_emitted n lines _ _ (frames_of rest) (read_answer n true _ (frames_of rest))
  read_handled b close_session none n rest = read_answer n false _ (frames_of rest)
  read_handled b close_session (some held) n rest =
      let (lines, result) = b.close held in
      read_logged n false lines _
      ∙ read_answer n false _ (frames_of rest)
      ∙ ap (λ es. (carried display (handle b close_session (some held)).answer, es, frames_of rest))
          (sym (no_events lines))

  -- The server's side of a conversation: the answer and the events of each request. The test whether the
  -- worker has exited, before each request is written, is left out.
  pub converse :
      ℕ → List WorkerRequest → List Line → List (Outcome WorkerResult × List BackendExecutionEvent)
  converse n [] lines = []
  converse n (r ∷ rs) lines =
      let (answer, events, rest) = read_response show pid n (has_sink r) lines in
      (answer, events) ∷ converse (suc n) rs rest

  -- Requests to a worker that has exited.
  pub gone : List WorkerRequest → List (Outcome WorkerResult × List BackendExecutionEvent)
  gone [] = []
  gone (r ∷ rs) =
      (
        failed (
            plain_failure
              (backend (append "session worker process exited before response: pid " (show pid)))),
        [],
      )
      ∷ gone rs

  -- The same conversation without a protocol: the worker's runtime is called.
  pub call :
      DebugBackend
      → List WorkerRequest
      → Option String
      → List (Outcome WorkerResult × List BackendExecutionEvent)
  call b [] held = []
  call b (r ∷ rs) held =
      let h = handle b r held in
      let rest = call b rs h.backend_session_id in
      (carried display h.answer, events_of h.frames) ∷ (if h.should_exit then gone rs else rest)

  converse-gone : (n : ℕ) (rs : List WorkerRequest) → converse n rs [] ≡ gone rs
  unfolding converse gone read_response
  converse-gone n [] = refl
  converse-gone n (r ∷ rs) = rw (converse-gone (suc n) rs) refl

  after :
      (stop : Bool) (n : ℕ) (rs : List WorkerRequest) (outs : List WorkerOutput)
      (c : List (Outcome WorkerResult × List BackendExecutionEvent))
      → converse n rs (frames_of outs) ≡ c
      → converse n rs (frames_of (if stop then [] else outs)) ≡ (if stop then gone rs else c)
  after true n rs outs c h = converse-gone n rs
  after false n rs outs c h = h

  -- A conversation over the pipes is a conversation with the worker's runtime itself: each request
  -- gets the answer to it, an error as a backend error with its text, and a command's events in
  -- their order, up to the request that makes the worker exit; those after it fail.
  pub converse-run_session_worker_stdio :
      (b : DebugBackend) (rs : List WorkerRequest) (held : Option String) (n : ℕ)
      → converse n rs (frames_of (run_session_worker_stdio b display held (numbered n rs)))
        ≡ call b rs held
  unfolding converse call run_session_worker_stdio
  converse-run_session_worker_stdio b [] held n = refl
  converse-run_session_worker_stdio b (r ∷ rs) held n =
      let h = handle b r held in
      rw
        (read_handled b r held n (
          if h.should_exit
          then []
          else run_session_worker_stdio b display h.backend_session_id (numbered (suc n) rs)))
        (ap (λ later. (carried display h.answer, events_of h.frames) ∷ later)
          (after h.should_exit (suc n) rs _ _
            (converse-run_session_worker_stdio b rs h.backend_session_id (suc n))))
