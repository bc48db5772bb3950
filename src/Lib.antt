-- ===== src/Lib.antt =====
-- The governed AI dev team framework, as a verification library.
--
-- The framework lets software agents work on a repository under rules that are
-- kept in files. Commands change documents (Work Units, Runs, decisions) after
-- checks; a change is made by a transaction that survives a crash; a supervisor
-- keeps a queue of work that leases items to workers. The parts meet in the
-- store of documents: a handler reads the store and plans writes, the
-- transaction makes them, the supervisor's items name the runs.
--
-- Files, and the code each is about (paths under src/governed_ai/):
--   Common, Common/Lists, Common/Dict, Common/Directory: tests, lists,
--     association lists and a directory of files in name order.
--   Machine, Machine/Passage: a table of permitted transitions, and paths
--     through it.
--   Errors, Documents, Documents/Store: core/commands/errors.py, the documents
--     that handlers read, and the store with the writes they plan.
--   WorkUnit/Status, WorkUnit/Done, WorkUnit/Transition: the state machine, the
--     definition of done (core/domain/work_unit/) and the handler
--     core/commands/handlers/transition_work_unit.py.
--   Run/Status, Run/Fencing: core/domain/run/ state_machine.py, fencing.py and
--     parallelism.py. Run/Leases: the handlers acquire_worker_lease.py,
--     record_worker_heartbeat.py and release_worker_lease.py of
--     core/commands/handlers/, with their contract in Run/Leases/Step.
--   Run/Ceiling: core/domain/run/execution_ceiling.py, and Run/Ceiling/Tighten its
--     handler core/commands/handlers/tighten_execution_ceiling.py.
--   Run/Convergence: core/domain/run/convergence.py.
--   Run/Writes: the handlers write_checkpoint.py and record_integration_merge.py,
--     with the checks they share in Run/Writes/Fence; Run/Writes/Attempts the
--     handler record_execution_attempt.py.
--   Run/Close: the handler close_run.py with core/domain/run/stop_conditions.py.
--   Run/Escalate: the handler escalate_work_unit_risk.py.
--   Run/Policy: core/domain/run/autonomy_policy.py, with the policies of the presets
--     in Run/Policy/Presets, the merge of overrides in Run/Policy/Merge, and the
--     rules of every policy in Run/Policy/Invariants.
--   Gateway: core/commands/gateway.py, with the envelopes and the table of
--     handlers in Gateway/Envelopes, core/commands/authorization.py in
--     Gateway/Roles, core/commands/run_authorization.py in Gateway/Grants, and
--     with core/domain/run/area_filter.py for OpenRun in Gateway/Grants/Opening,
--     and core/persistence/idempotency.py in Gateway/Idempotency. Gateway/Replay,
--     Gateway/Gated and Gateway/Interrupted are about whole commands.
--   Persistence/Transaction, Persistence/Commit, Persistence/Recover:
--     core/persistence/transaction.py. Persistence/Crash and its children are
--     the crash model and its proofs.
--   Supervisor/Protocol, Supervisor/Queue, Supervisor/Queue/Items,
--     Supervisor/Queue/Leases, Supervisor/Queue/Holder:
--     core/supervisor/protocol.py and core/supervisor/queue.py.
--     Supervisor/Queue/Step is the contract of the queue as a step relation.
--
-- How the model stands for the code. A document is a record whose fields are
-- the keys the code reads and writes; an absent text is the empty string or
-- none, as the reader treats it. A handler returns its planned writes or a
-- GatewayError, in place of a raised exception. Times are natural numbers of
-- microseconds. Random identifiers, the clock, the hashes of files and the
-- text of a parsed file are arguments. A queue operation runs under the lock of
-- the queue, so it is one function of the whole directory; a direct call of
-- dead_letter takes no lock in the code, and is one step here all the same.
-- A commit is the list of its atomic file replacements, and a crash stops it
-- after any number.
-- No function of the model takes fuel: every loop is over a list.
--
-- Not modelled: the file system below one atomic replacement, locks and
-- processes, validation against schemas, git, the adapters that call agents,
-- mail, reports, the installer, the parser of
-- envelopes, and the handlers that copy a payload.
pub mod Common
pub mod Machine
pub mod Errors
pub mod Documents
pub mod WorkUnit
pub mod Run
pub mod Gateway
pub mod Persistence
pub mod Supervisor
