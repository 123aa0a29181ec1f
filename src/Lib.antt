-- ===== src/Lib.antt =====
-- Verification of the orchestrator service of minerva (services/orchestrator/src).
--
-- The program takes runs of an agent: a run is queued for its user, leased to an executor, which
-- is meant to keep one run of a user active at a time, started with a timeout and a cancellation
-- signal, and ends as completed, failed, cancelled or timed out; its events are numbered, buffered
-- and streamed to clients.
--
-- The parts, and the files that model them (all of services/orchestrator/src):
--
-- - services/orchestrator/src/types/run.ts and services/orchestrator/src/types/errors.ts: Run. The
--   states are `RunState`, the table is `valid_state_transitions`; Run/Transitions draws the
--   documented diagram as a relation.
-- - services/orchestrator/src/types/owner.ts: Owner, with `encodeURIComponent` written out on the
--   characters of a text.
-- - services/orchestrator/src/services/queue.ts: Queue. `RunQueue` has the maps `queues` and
--   `runToUser` of the class.
-- - services/orchestrator/src/services/lease.ts: Lease. `LeaseManager` has the maps `leases` and
--   `tokenToUser`.
-- - services/orchestrator/src/services/cancellation.ts: Cancellation. A context is an object that
--   the registry shares with the holder of its signal, so the contexts stand in a store and the
--   registry maps a run to an index.
-- - services/orchestrator/src/services/timeout.ts: Timeout. The state has the map of handles and
--   the timers that the event loop has pending; `fire` is the event loop running a timer, which
--   does nothing before its time.
-- - services/orchestrator/src/services/run-manager.ts: RunManager, whose state holds the in-memory
--   repository and the four services above; RunManager/Operations has one action for each method,
--   in the order of its calls. RunManager/Invariant says how the services agree on every run,
--   RunManager/Events takes calls and timers as events, and RunManager/Histories takes sequences
--   of events.
-- - services/orchestrator/src/sse/types.ts: Sse. services/orchestrator/src/sse/envelope.ts:
--   Sse/Sequencer. services/orchestrator/src/sse/mapper.ts and
--   services/orchestrator/src/sse/tool-events.ts: Sse/Mapper.
--   services/orchestrator/src/sse/buffer.ts: Sse/Buffer. services/orchestrator/src/sse/stream.ts:
--   Sse/Streams, where the sets of streams are shared with the cleanup functions and so stand in a
--   store. services/orchestrator/src/sse/sse.service.ts: Sse/Service.
--   services/orchestrator/src/sse/sse.controller.ts, as far as a client gets events when it
--   connects: Sse/Controller.
-- - services/orchestrator/src/sandbox/strategy.ts and
--   services/orchestrator/src/sandbox/workspace-manager.ts: Workspaces, where the answers of the
--   sandbox service's client are arguments of the calls that ask for them.
-- - services/orchestrator/src/packs/types.ts and services/orchestrator/src/packs/errors.ts: Packs.
--   services/orchestrator/src/packs/loader.ts: Packs/Loader.
--   services/orchestrator/src/packs/validator.ts: Packs/Validator.
--   services/orchestrator/src/packs/assembler.ts: Packs/Assembler, with the orders of skills in
--   Packs/Ordering. What `node:fs` and `node:path` answer is the record `FileSystem` of
--   Packs/Files; the comparison `localeCompare` and the printing of numbers and dates are
--   arguments.
-- - services/orchestrator/src/runtime/run-execution.service.ts: Execution, whose state holds the
--   run manager and the stream service. Execution/Operations has the methods; `createRun` has
--   the parts `admit_run` and `announce_run`, before and after its await, and `executeRun` those
--   that its awaits leave: `start_execution`, `attach_agent`, `agent_event`,
--   `complete_execution`, and `fail_execution` for its `catch`; the listener of the abort signal
--   is `notify`. Execution/Attempt puts the parts together where no other call comes between, and
--   has the loop of `processUserQueue` on fuel. Execution/Errors: `enhanceProviderError`.
-- - services/orchestrator/src/tools/types.ts: Tools, with what the three tools do alike.
--   services/orchestrator/src/tools/bash.ts: Tools/Bash. services/orchestrator/src/tools/read.ts:
--   Tools/ReadFile. services/orchestrator/src/tools/write.ts: Tools/WriteFile.
--   services/orchestrator/src/tools/index.ts: Tools/Registry. A session holds the sandbox, which
--   the adapter's methods work on, and the events of the call in their order.
-- - services/orchestrator/src/sandbox/security.ts: Sandbox, with the operations of `node:path`
--   written out on the parts of a path in Sandbox/Paths.
--   services/orchestrator/src/sandbox/filesystem.ts: Sandbox/Files, where the calls of the
--   sandbox's client are the record `SandboxFs`. services/orchestrator/src/sandbox/execution.ts:
--   Sandbox/Streaming, and Sandbox/Composition for the tool bash over it.
--   services/orchestrator/src/sandbox/adapter.ts, once the sandbox is found: Sandbox/Adapter, and
--   Sandbox/RoundTrip for the tools write and read over it.
-- - services/orchestrator/src/auth/gateway-auth.service.ts: Gateway.
--
-- Base has the shared names and lemmas, the stable sort and the operations on texts, Dict the
-- language's `Map` in insertion order, Exec the actions: functions from a state to a result or an
-- error, with what was written before a throw kept. Tests has the theorems at concrete inputs.
--
-- Numbers are natural numbers: times in milliseconds, positions and counters, none of which the
-- code lets fall below 0; they stay far below 2^53, where the language's numbers are exact. The
-- clock is an argument, read once for each call, by the tools as often as the code reads it; so
-- are the random parts of run ids and lease tokens, of which the results assume only that they
-- are new. What a stream does when it is written to is an argument too. Recursion is structural;
-- the fuel of the decimal digits of a duration is 21, which is enough below 10^21; the fuel of the
-- loop of `processUserQueue` is a number above the length of the queue. An action of the run
-- manager runs to its end before the next one begins, but in RunManager/Races, where a step of
-- `cancelRun` comes between two of
-- `acquireNextRun`.
--
-- Not modelled: the other interleavings of two methods between their awaits; the regular
-- expressions of `parseIdentity`, an argument of the loader; the scripted stream; the network
-- checks, the adapter's cache and the client of the sandbox, the collecting variant of its
-- commands, the model provider, configuration, persistence, HTTP handlers and their timers,
-- logging and module wiring.
pub mod Base
pub mod Dict
pub mod Exec
pub mod Owner
pub mod Run
pub mod Queue
pub mod Lease
pub mod Cancellation
pub mod Timeout
pub mod RunManager
pub mod Sse
pub mod Workspaces
pub mod Packs
pub mod Execution
pub mod Tools
pub mod Sandbox
pub mod Gateway
pub mod Tests
