-- ===== src/Lib.antt =====
-- dbgflow: the sessions of the debugging server and of IDA, recordings, profiles, and the parts they stand on.
--
-- The program keeps a table of debug sessions. A session is created for a target (a dump, a
-- process to attach to, a program to launch); a startup thread launches a worker process for it and
-- lets the worker open the target. Callers evaluate debugger commands in the worker, which reports
-- changes of the target's execution on the way, and close the session; a close thread waits for the
-- operation that runs, closes the worker and settles the session. A monitor thread watches the
-- worker. All of them meet in the table of sessions, the registry of workers and one lock for each
-- session's operations. Every change is written to the session's artifact files.
--
-- Which file models what (paths from the repository's root):
--   Prelude            tests, maps, lists and texts that the other files share
--   Common.Error       crates/dbgflow-common/src/error.rs, ids.rs
--   Common.Job         crates/dbgflow-common/src/job.rs (SingleActiveJob::start, the guard's drop)
--   Common.Validation  crates/dbgflow-common/src/validation.rs
--   Common.Proxy       crates/dbgflow-common/src/proxy.rs; Common.Proxy.Worker: proxy_env_changes of
--                      .../session/worker.rs and apply_env_changes of .../src/process.rs
--   Session.State      crates/dbgflow-debug/src/session/state.rs, the states of backend/mod.rs
--   Session.Target     .../session/validation.rs, DebugTarget of backend/mod.rs
--   Session.Artifact   the records of crates/dbgflow-common/src/artifacts/manager.rs
--   Session.Operation  .../session/operation.rs, and the struct Session of manager.rs
--   Session.Registry   .../session/worker_registry.rs
--   Session.Audit      .../session/audit.rs
--   Session.Manager    the state of .../session/manager.rs and its queries
--   Session.Create     create_session_with_context, initialize_session_audit
--   Session.Close      close_session, its thread, finish_worker_close
--   Session.Startup    spawn_worker_startup, finish_worker_startup, state_for_target
--   Session.Eval       eval, start_operation, finish_operation, apply_backend_execution_event
--   Session.Monitor    spawn_worker_monitor, mark_worker_unavailable
--   Session.Lifecycle  the sections of the manager in any order, and what they keep
--   Session.Worker     the protocol of .../session/worker.rs, the server's end; Session.Worker.Runtime
--                      has the worker's end
--   Common.Json        what the code asks of a serde_json::Value
--   Reverse.Model, Reverse.Target   crates/dbgflow-reverse/src/ida/model.rs, target.rs
--   Reverse.Upstream, Reverse.Tools   .../ida/worker.rs: how answers are read, the tools on offer
--   Reverse.Manager    the state of .../ida/manager.rs; its children Output, Health, Create, Close and
--                      Call have the operations, Rules and Races what several proofs share
--   Trace.Ttd          the request types of crates/dbgflow-trace/src/ttd/mod.rs
--   Trace.Ttd.Args     .../ttd/args.rs (Trace.Ttd.Decode reads such a command line back)
--   Trace.Ttd.Validation   .../ttd/validation.rs
--   Trace.Etw          the events of crates/dbgflow-trace/src/profile/native_etw.rs
--   Trace.Etw.Settings, Trace.Etw.Stack   .../profile/native_etw/settings.rs, stack.rs
--   Trace.Etw.Decode   how a record is decoded (UserData: the bytes of a stack walk)
--   Trace.Etw.Processor, .Walk, .Lifecycle, .FileIo, .Finish   the state and the operations of
--                      EtwProcessor, from the first record to the report; Account, Events and Tables
--                      have what is proved of them together
--   Trace.Profile      crates/dbgflow-trace/src/profile/model.rs, target.rs, collector.rs
--   Trace.Profile.Collect, Trace.Profile.Run   .../profile/manager.rs: the collectors, run_profile;
--                      Counts, Stopped, Ended, Released, CleanUps and Cleaned have what a profile lets go of
--   Common.Examples, Session.Examples, Reverse.Examples, Trace.Examples, Trace.Etw.Examples,
--   Trace.Profile.Examples   the theorems at concrete inputs
--
-- How state and operations correspond. SessionManager is a record of the fields of the struct; the
-- launcher, the logger, the proxy, the symbol path and the launch configuration are only handed on
-- to workers and are left out. A hash map is an association list, and the order in which its values
-- are found is that of the list. Each function takes the manager and gives it back beside its
-- answer. A thread takes part with its sections, and the sections of different threads follow each
-- other in any order (Lifecycle.Steps). A section is what a thread does from one hold of a lock to the
-- next. Some are coarser than the source: the ends of a close and of a startup (close_thread,
-- finish_worker_startup) have the wait for the worker's close within them, a creation (get_or_create) enters the operation lock together with the
-- session, where the source does so after it has let go of the sessions' lock, and the end of an eval
-- (end_eval) reads and writes the session in one step. The beginning of an eval is cut at each of its
-- calls that take the lock (Between). The
-- mutexes of the manager's maps are not poisoned; the operation lock's poisoning is an input.
-- `clock` is what now_unix_ms reads; it stands still within a section. A UUID is a number, which
-- stands for its text too. The text of an error is kept as the error (Message). An append to an
-- artifact file whose failure only reaches the log is an entry of the journal, as are the kills and
-- closes of workers and the threads that are spawned; logging is not modelled. A path is a list of
-- its parts, and a target's path is the text that canonicalize gives. `as u64` is `% 2 ^ 64`.
--
-- What workers, the launcher, the disk and the operation lock answer are parameters: the result of
-- a worker's close, the list of the reports that come in while a command executes, how far the
-- audit files of a new session could be written, the attempts to take the operation lock with the
-- time each is made at (wait_for_operation, whose limit is the 10000 ms of the source).
--
-- The server and a worker exchange lines of JSON. A line is the frame that it parses as or what is
-- wrong with it (Line, Input), and serde_json is taken to read back the frame that it wrote; a
-- number's decimal text and an error's text are parameters there. Of a request that follows the exit
-- of a worker the server's own test (has_exited, before it writes) is left out: the request fails at the
-- pipe here.
--
-- A session of IDA is a database that the supervisor process of ida-pro-mcp opens. An operation of its
-- manager is a function from the manager into an answer and the manager after it, also after a
-- failure. What the supervisor answers to its n-th call, and what other threads do to the manager
-- while that call is awaited, are parameters (Outside), as are the time and the writes that fail.
--
-- A recording of Time Travel Debugging starts with a request: its target and options are validated
-- and turned into the command line of TTD.exe. What the file system and std::path say of a path are
-- parameters (Files, Paths).
--
-- A profile with the native ETW collector leaves a trace of the kernel's events. After the run its
-- records are read one after the other: those of the target process become events, the stack walks
-- are attached to the events of their time, and an operation on a file, which begins with one record
-- and ends with another, becomes one event. EtwProcessor is a record of the fields of the struct, but
-- the vectors that are pushed to together are one list of rows, and the samples that a warning quotes
-- are left out. A timestamp is a natural number, where the source has an i64: one of 2^63
-- and more, which is negative there, is outside the model, a number that is written in hexadecimal is kept as the
-- number, and an index out of range, where the source panics, has no event. What Windows' trace data
-- helper gives for a property of a record is a function of the record (EventRecord). The loop over the
-- walks that are too old has the size of their cache as fuel, and each round takes one out.
--
-- The run of a profile is a function of what the collectors, the runner of the target and the disk
-- answer (World). It keeps a journal of the calls of the collectors and the events, in order.
--
-- The proxy settings come from the command line or the environment and are handed to the workers.
-- Of an environment only the nine proxy variables are read, so that it is a function of them; where
-- Windows ignores case, a variable is looked up by its upper-case name.
--
-- Not modelled: the process of a worker and its pipes, the DbgEng backend (COM calls), process
-- launching (Win32), the wait for a profile's target, the start and the stop of a trace session, the
-- run of a TTD recording, the process and the pipes of the IDA supervisor, the MCP facade, the HTTP
-- endpoint, the Windows service, and the vendored ida-pro-mcp, which is another project.
pub mod Prelude
pub mod Common
pub mod Session
pub mod Reverse
pub mod Trace
