-- ===== src/Lib.antt =====
-- NanoClaw's core on the host: the queue that runs agents, the sweep that recovers them, the check on
-- what they may mount, and the delivery of what they answer.
--
-- The program. Messages of a chat reach src/group-queue.ts, which starts a container with an agent for
-- the chat, pipes later messages to it, runs scheduled tasks in slots of their own, and keeps to a
-- limit of containers. The agent's session is two SQLite files; src/host-sweep.ts looks at each
-- session once a minute, kills a container that hangs and puts its messages back, by the statements
-- of src/db/session-db.ts. Before a container starts, src/mount-security.ts decides which further
-- host directories it may see. What the agent answers is in a table of its session, which
-- src/delivery.ts polls and hands to the channels. A first direct message is held by src/v2-access.ts until the
-- owner redeems the code that the sender was told. src/task-scheduler.ts puts the tasks of the table that
-- are due into the queue, as runs of their own. At the start of the process
-- src/circuit-breaker.ts delays it after crashes. src/flash-edit-coalescer.ts limits the edits of a
-- preview while the agent thinks, src/progress-draft.ts shows the tools that it runs in one message, src/modules/typing/index.ts shows that it works; src/jsonc.ts reads
-- configuration with comments, and src/command-gate.ts keeps some slash commands from the container.
--
-- The files.
--   Base      shared names, tests on numbers, lists, string-keyed maps, signed integers
--   Queue     src/group-queue.ts: the class GroupQueue. `GroupState` and `GroupQueue` hold its fields;
--             Run (runForGroup, runTask, scheduleRetry, drainGroup, drainWaiting), Enqueue
--             (enqueueMessageCheck, enqueueTask), Pipe (sendMessage, requestDeliveryRetry and the
--             notifications), Process (registerProcess and the exit handler) and Shutdown (killActive,
--             closeTaskStdin, shutdown) hold its methods, Events the calls as steps. An async method is
--             split at its `await`; any interleaving is a list of events. Accounting, Lines, Delivery,
--             Retry, Tasks and Kill hold proofs.
--   Scheduler src/task-scheduler.ts: computeNextRun; Rows has the tables and statements of src/db.ts, Run
--             runTask split at its `await`, Stream its callback on what the agent streams, Poll a round of
--             the loop over the queue. Advance, Due, Missing, Kept, Overlap, Preview and Found hold proofs.
--   Pairing   src/pairing/code.ts: codes; Store has the tables of src/v2-access.ts with sweepExpired and
--             holdMessageForPairing, Redeem redeemPairingCode, revokePairingCode and listPendingPairings, Allowed
--             isUserConfigAllowed and maybeHoldForPairing, Events the calls as steps, Mailbox a
--             specification by boxes of messages. RoundTrip, OneLive, Replays, Spent, Answers, Refinement
--             and Runs hold proofs.
--   Access    src/modules/permissions/access.ts and the tables of src/modules/permissions/db that it reads:
--             roles and members. Grants holds proofs.
--   Draft     src/progress-draft.ts: the lines and their text; Session has createProgressDraftSession, its awaits
--             as steps of their own. Visible, Silent, Edits, Final and Once hold proofs.
--   Names     src/group-folder.ts, src/attachment-safety.ts, src/platform-id.ts: which names may become
--             paths. Folder and Safe hold proofs.
--   Sweep     src/host-sweep.ts: decideStuckAction and the reset of stuck rows with the rows of
--             src/db/session-db.ts; Session has sweepSession. Clock, Decide and Reset hold proofs.
--   Mounts    src/mount-security.ts: Load has loadMountAllowlist and its cache, Validate the checks,
--             Strings the string and path functions. Blocked, Roots, Cached, Grants
--             and Safe hold proofs.
--   Outbound  src/delivery.ts: Message has deliverMessage and handleSystemAction, Drain the round of
--             drainSession, Polls deliverSessionMessages as steps of polls that interleave. Accepted,
--             Rounds, Apart, Waiting, Once, Permission, Attempts and Unsent hold proofs.
--   Jsonc     src/jsonc.ts: stripJsonComments and parseJsonc. Comments holds proofs.
--   Coalescer src/flash-edit-coalescer.ts: createFlashEditCoalescer, its worker split at the `await`.
--             Latest, Balance and Single hold proofs.
--   Typing    src/modules/typing/index.ts: the refresh entries and their ticks. Quiet holds proofs.
--   Gate      src/command-gate.ts: gateCommand and isAdmin. Words holds proofs.
--   Breaker   src/circuit-breaker.ts: enforceStartupBackoff and its schedule. Schedule holds proofs.
--
-- Bounds. Each loop is a recursion on a list, but the one of computeNextRun that skips missed intervals: it
-- runs on fuel, one round for each millisecond since 1970 and one more, which is enough as each round adds
-- a millisecond at least. Numbers are unbounded; the counter of active containers is signed, since the program can take it below zero. Instants are milliseconds,
-- and a delay that SQLite computes is cut to the second.
--
-- Parameters. The concurrency limit; randomInt and randomUUID; SQLite's order of texts; cron-parser; the registered groups; the names of agents; `Date.parse`; `JSON.parse`; how the operating system answers
-- signals and file calls; what realpath and path.resolve answer; the recurrence module; what the
-- channel adapters, the handlers of system actions and the central tables answer.
--
-- Not modelled. Logging; the timers themselves (a timer is an effect, its callback an event); failures
-- of SQLite statements on an open file; the channels, the agent runners, the relay and the set-up
-- programs, which are input and output around these parts.
pub mod Base
pub mod Access
pub mod Draft
pub mod Pairing
pub mod Names
pub mod Scheduler
pub mod Queue
pub mod Sweep
pub mod Mounts
pub mod Outbound
pub mod Jsonc
pub mod Breaker
pub mod Coalescer
pub mod Typing
pub mod Gate
