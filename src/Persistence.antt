-- ===== src/Persistence.antt =====
-- core/persistence: the transactional journal and its recovery after a crash.
pub mod Transaction
pub mod Commit
pub mod Recover
pub mod Crash
