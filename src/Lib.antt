-- ===== src/Lib.antt =====
-- Verification library of ProcHerd, a supervisor of detached processes (Rust, src/*.rs).
--
-- A `start` command creates a run: a directory with a state document, a specification, an owner
-- token and a lock (src/store.rs). A detached supervisor (src/supervisor.rs) holds the lock,
-- acquires leases of ports and directories (src/leases.rs), runs the child, records its output
-- within a budget (src/logs.rs), decides when the child is ready (src/readiness.rs), stops it on
-- request or at its deadline, and persists every change. The other commands (src/cli.rs) read the
-- documents and the lock: status, wait, logs, stop, list, leases and gc. On Windows the supervisor is
-- started with a command line of its own (src/windows_detach.rs).
--
-- Files and the code they model:
--   Prelude, Prelude/*: Boolean tests, lists, texts, search in texts, decimal numbers, paths.
--   Error: src/error.rs. Model, Model/*: src/model.rs. Hex: src/hex.rs.
--   Readiness/Tracker: `ReadinessTracker` of src/readiness.rs; Readiness/Conditions:
--     `build_conditions` and what it calls; Readiness/Probes: `probe_http` and `read_http_status`;
--     Readiness/Probes/StatusLine and Answers, Probing, LogMatch, Invariant, Runs and
--     Conditions/Loopback: proofs.
--   Logs/Writer: `LogWriter` of src/logs.rs, Logs/Reader: `read_logs` and `decode_record`; their
--     children are proofs.
--   Leases/Names: the names and environment variables of src/leases.rs, Leases/Registry: the port
--     registry, Leases/Allocation: `LeaseAllocation`, Leases/Placeholders: `replace_placeholders`,
--     Leases/Populate: `acquire` and `populate_state`; their children are proofs.
--   Store/RunId, Store/Files, Store/Runs, Store/Creation, Store/Removal, Store/Token, Store/Request,
--     Store/Update, Store/Listing: src/store.rs; Store/Creation/Token,
--     Store/Refinement: proofs.
--   Supervisor/Body: functions that change variables and return early; Supervisor/Stopping: stop
--     requests and signals, Supervisor/Loop: the loop of `supervise_locked`, Supervisor/Failure:
--     `mark_supervisor_failed`, Supervisor/Startup: `supervise_locked` before its loop,
--     Supervisor/Supervise: `supervise` as a whole (src/supervisor.rs); Supervisor/Loop/Terminal,
--     Supervisor/Loop/Returns, Supervisor/Startup/Documents and Supervisor/Supervise/Ends: proofs.
--   Cli/Start: the checks of `start` and the documents that it plans, Cli/Start/Awaiting: its loop,
--     Cli/Start/Whole: the command; Cli/Clock: the loops that wait;
--     Cli/Durations, Cli/Observe, Cli/Wait, Cli/Stop, Cli/Gc, and
--     Cli/Views for status, logs, list and leases: src/cli.rs; Cli/Start/Checks, Cli/Start/Accepted,
--     Cli/Start/Awaiting/Returns, Cli/Wait/Returns and Cli/Stop/Returns: proofs.
--   WindowsDetach: the command line of src/windows_detach.rs; its children: the documented rules of
--     a reader of command lines, and proofs.
--   Tests, Tests/*: the definitions and theorems at concrete values.
--
-- Conventions. A text is the list of its UTF-8 bytes. An error keeps its message as the format
-- literal with the interpolated values. Numbers are natural numbers; where the code saturates at
-- 2^64 - 1 the model does, and usize has 64 bits. The Unix build is modelled, and the
-- command line of the Windows build. An `Instant` is a
-- number of nanoseconds in the supervisor and of milliseconds in the commands, and a wall-clock time one of milliseconds. What the code reads from outside
-- (clocks, files, signals, the child's status, results of writes) is an argument, so that a theorem
-- holds for every reading. The parsing of ULIDs, URLs and addresses, SHA-256, base64 and the JSON
-- reader belong to other libraries: they are parameters, with laws where the code relies on them.
--
-- Loops are structural recursion on the list that the code iterates over. A loop that waits is
-- recursion on the list of what its iterations read: it has not returned at the end of the list,
-- which the result says. The attempts at a port (128), the batch of log chunks (64) and the search
-- for the next probe (one round over the checks) are the code's own bounds. Decimal printing has one
-- more unit of fuel than the number, which has no more digits than that; the reading of a status
-- line has as much fuel as bytes it may read (1024), and each turn reads one at least.
--
-- Not modelled: argument parsing, printing, schemas, completions and the fixture commands of
-- src/cli.rs; the launch, the wrapped child and the wait for the lock in src/supervisor.rs; the
-- capture threads of src/logs.rs; the sockets of src/readiness.rs, with its TCP and file probes; the
-- creation of temporary directories and the lock of the registry file in src/leases.rs; the choice
-- of the data directory, what a failed creation leaves behind, and file permissions in
-- src/store.rs; the call of CreateProcessW in src/windows_detach.rs; src/main.rs and src/lib.rs.
-- These are calls of the operating system and of other libraries.
pub mod Prelude
pub mod Error
pub mod Model
pub mod Hex
pub mod Readiness
pub mod Logs
pub mod Leases
pub mod Store
pub mod Supervisor
pub mod WindowsDetach
pub mod Cli
pub mod Tests
