-- ===== src/Lib.antt =====
-- A verification library for Otters, an agent orchestrator: a daemon that takes pipelines through
-- the phases of a runbook, starts agents in terminal sessions, and keeps a write-ahead log.
--
-- The parts and where they are modelled (a path `core/src/x.rs` stands for `crates/core/src/x.rs`):
--
--   Base      what the modules share: tests on numbers and texts, lists, texts by their characters,
--             `Result`, `HashMap` as `Dict`, and `Exec`, code that changes a state and may fail
--             (what was changed before a failure stays changed).
--   Core      the data of crates/core: `Event` (core/src/event.rs), `Effect` (effect.rs),
--             `Operation` and `PhaseStatus` (operation.rs, pipeline/phase.rs), `Pipeline` with
--             `transition` (pipeline/state.rs), `Worker` (worker/state.rs), the fake clock and the
--             sequential ids (clock.rs, id.rs).
--   Storage   crates/storage: `State` is the materialized state, with `apply` and `get_pipeline`
--             (state.rs); `Wal` is the log, with `open_wal`, `append` and `replay` (wal.rs).
--   Runbook   crates/runbook: `Template` (template.rs), `Command` with `validate_args` and
--             `parse_args` (command.rs), `ArgSyntax` with `parse_arg_spec` (command.rs), `Pipeline`
--             (pipeline.rs), `Agent` (agent.rs), `Book`, the runbook and its lookups (parser.rs,
--             worker.rs), and `Parser`, from TOML values to a runbook (parser.rs).
--   Engine    crates/engine: `Machine` is what the executor shares behind its mutexes (log, state,
--             scheduler, watchers) with the outside world, and `Env` is what it takes from outside;
--             `Executor` runs each effect (executor.rs), `Phases`, `Spawn`, `Workspace`, `Monitor`,
--             `SessionLog`, `Scheduler` and `Events` are the files of these names, and `Runtime` is
--             runtime.rs: `Phase` starts, advances, fails and completes phases, `Session` watches
--             the sessions of agents, `Handler` handles events.
--   Daemon    crates/daemon: `Lifecycle` is the daemon with its start from the log, its event loop
--             and its heartbeats, `Startup` its files, the steps of its start and its shutdown,
--             `Sessions` the check of the sessions (lifecycle.rs), `Wire` the framing of messages
--             (protocol.rs), `Server` the requests and `Connection` one request on a socket
--             (server.rs, protocol.rs), and `Reach` the main loop (main.rs) as a relation.
--   Adapters  crates/adapters: `Session` is the trait of terminal sessions with what its clients rely
--             on, and its implementations `Fake` and `Tmux`; `Repo` that of worktrees, with `Fake` and
--             `Git`; `Notify` that of notifications; `Traced` the wrappers (traced.rs).
--   Cli       crates/cli, client.rs: `Client` makes the calls on the daemon, `System` is what it asks
--             of the system (environment, files, processes), `Startup` reads the daemon's log, `Stop`
--             and `Start` connect to the daemon, stop it and start it.
--   Examples  concrete inputs for the theorems.
--
-- How they interact: a request, a timer or an internal event becomes an `Event`; the runtime turns it
-- into `Effect`s, which the executor runs in order on the machine; an effect that persists writes
-- the log and then applies the operation to the state; the events that effects produce go back into
-- the loop. A call of the client is a request that goes through JSON and a frame to the daemon's
-- connection, whose response comes back the same way. A start of the daemon replays the log into a
-- new state. The two schedulers are kept apart as the code keeps them: `Daemon.scheduler` is the one that `startup_inner` makes,
-- `Machine.scheduler` the one that `Runtime::new` makes.
--
-- Representation: numbers are natural numbers, with the wrap-around of a `u64` written out; times
-- are counts of milliseconds. The order of the entries of a `Dict` stands for the order in which a
-- `HashMap` happens to be iterated. A log is the text of its file. A mutex is locked and released
-- within a handler, and the daemon handles one event at a time, so a handler is a function from
-- machine to machine.
--
-- Bounds and fuel: `process_events` runs the event loop on fuel and gives `none` where it did not end.
-- The loop of the code has no bound: a phase may go back to an earlier one for ever. The steps of
-- `Reach` are those runs that end, so what is stated of them is stated of every daemon that is ready
-- for its next step. `parse_loop` of `ArgSyntax` has as much fuel as the text has characters, since
-- each turn reads one at least. The loops of the client that wait (`Stop`, `Start`) take fuel for
-- their turns: a wait has one turn at most for each millisecond of its timeout where the interval
-- between two turns is not zero. All else is by structural recursion.
--
-- Parameters: serde_json (`Codec`, `object`, `field`, `as_str`, `parse_json`), the matches of the
-- regex crate (`Templates`), TOML values and what serde derives on them (`Toml`), the programs tmux,
-- git and pgrep (`Programs`, `Git`), sockets (`Stream`), processes, files, the clock and the id
-- generator. The engine takes the operations of the adapters as parameters (`Env`), and the start of
-- the daemon files, locks and sockets (`Host`). `IsFaithful` says of the JSON texts of log entries that
-- they parse back and hold no line break; `IsAtomic` says of a write to the log that one that fails leaves nothing in
-- the file; `Works` says that log, JSON texts and notifier do not fail; `IsStream` says that what is
-- written to a socket comes in at its other end in order; `IsJson` says that messages parse back;
-- `IsToml` says that a table holds each key once; `IsClock` says that a sleep takes its time;
-- `IsHost` says that a path whose removal returned `Ok` is gone. `System.can_block` says whether
-- tokio's `block_on` runs a future where it is called, or panics.
--
-- Not modelled: tracing, which nothing reads; signals to the daemon, its log file, the
-- reconciliation that only logs, and the loop that accepts connections; the command line itself (main.rs and commands of
-- crates/cli), which parses arguments and prints; how a `PathBuf` compares, for which paths are texts.
pub mod Base
pub mod Core
pub mod Storage
pub mod Runbook
pub mod Engine
pub mod Adapters
pub mod Daemon
pub mod Cli
pub mod Examples
