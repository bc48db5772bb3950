-- ===== src/Supervisor/Queue.antt =====
-- core/supervisor/queue.py: the file-backed work queue. The file lock makes each operation a single
-- step; a direct call of `dead_letter` takes no lock and is one step all the same. Time is in
-- microseconds; fresh ids and the clock are arguments; payloads, results and errors are texts.
-- `KeyError` and `PermissionError` are the two errors.
pub mod Items
pub mod Leases
pub mod Holder
pub mod Step
pub mod Guards
pub mod Refines
pub mod Trace
pub mod Sound
pub mod Fencing
pub mod Exact
mod Samples
