-- ===== src/Lib.antt =====
-- Verification of julie-semantic-sidecar, an embedding service that speaks a protocol of JSON lines
-- over standard input and output, or over a local socket as a broker that many clients share.
--
-- The parts of the program, and the files that model them:
--
-- - Prelude: Boolean tests, lists, results and text, shared by all, with the calls of a function that
--   has a state. Json: the values of serde_json,
--   with parsing, printing and number arithmetic as the parameter `Serde`.
-- - EngineTrait (src/engine_trait.rs): the interface between the protocol and an engine, a record of
--   operations on an engine state. Protocol and broker take any such record.
-- - Manifest (src/manifest.rs): the pinned models. Sanitize (src/sanitize.rs) and Truncate
--   (src/truncate.rs): what is done to a text before it is embedded.
-- - Engine (src/engine.rs): Engine/Group is `group_by_cell_budget`, Engine/Isolate is `isolate`,
--   Engine/Encode is `encode_group`, Engine/Lane is `serve_lane`, and Engine/Embed is `embed` with
--   `build_input`, which puts them together. llama.cpp is the parameter `Llama` and f32 arithmetic the
--   parameter `Float`; nothing is assumed of either.
--   Before that, Engine/Load loads one candidate and times it, Engine/Devices lists the devices with
--   the identities of their drivers, and Engine/Policy is `load_with_policy`, which chooses a backend,
--   falls back to the CPU, and gives the engine that EngineTrait describes.
-- - Health (src/health.rs): the health object.
-- - Backend (src/backend_select.rs): Backend/Discovery is `discover_candidates`, Backend/Cache the
--   cache of earlier choices, Backend/Select `select_runtime_with`, Backend/Modules the loading of
--   packaged modules. Backend/Selection is the data of a decision, and Backend/Runtime the choice
--   between the devices that were timed.
-- - Prepare (src/prepare.rs): Prepare/Acquire is `acquire` with its download, Prepare/Partials
--   `clean_stale_partials`. The file system, the server and other processes are parameters.
-- - Package (src/package_manifest.rs): Package/Profile is the data of a manifest and the checks that
--   look at it alone, Package/Verify `verify` and `verify_patched`.
-- - Protocol (src/protocol.rs): Protocol/Framing is `read_line_capped`, Protocol/Response the response
--   envelope, Protocol/Dispatch the handling of one line, and Protocol/Serve the request loop.
-- - Broker: Broker/Queue (src/broker/queue.rs) is the queue between connections and the scheduler,
--   Broker/Engine (src/broker/engine.rs) the engine that gives up an exhausted accelerator, and
--   Broker/Loader its loader, over the engine of src/engine.rs.
--   Broker/Connection (src/broker/mod.rs) is what a connection reads off a line.
-- - Cli (src/main.rs): the command line.
--
-- How state is modelled: an operation that changes a state takes it and returns the new one. The queue
-- is behind a mutex, so a history of it is a sequence of calls, which stand for all interleavings of
-- its threads. A shared reference whose call may change what is behind it passes the state on. Errors
-- of Rust's `Result` are values of `Result`, and a panic of `expect` is `none`.
--
-- Bounds and fuel: numbers are natural numbers. `saturating_sub` is subtraction that stops at zero, and
-- the conversions to 32 bits in `encode_group` are tests against the powers of two; lengths of lists
-- in memory do not reach the word size. `isolate` runs on fuel, one more than the slice has items,
-- which is enough, since each half is shorter; decimal printing on one more than the number. The
-- request loop takes its fuel as an argument, since it may be fed for ever.
--
-- Not modelled: sockets, pipes, file locks, threads and watchdogs (src/broker/transport, lease.rs,
-- watchdog.rs, and the loops of src/broker/mod.rs) and the guard of the standard streams
-- (src/stdio_guard.rs), which are calls of the system; what src/main.rs and `run` and `cache_dir` of
-- src/prepare.rs do with the environment and exit codes; `serve` of src/protocol.rs; the digest
-- `packaged_backend_identity` and the calls of the native loader in src/backend_select.rs; the writing
-- of a package manifest, with `create` and `runtime_identity`; the scripts that build and package the
-- program.
pub mod Prelude
pub mod Json
pub mod EngineTrait
pub mod Manifest
pub mod Sanitize
pub mod Truncate
pub mod Health
pub mod Backend
pub mod Engine
pub mod Protocol
pub mod Broker
pub mod Cli
pub mod Package
pub mod Prepare
