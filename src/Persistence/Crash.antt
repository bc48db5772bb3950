-- ===== src/Persistence/Crash.antt =====
-- Crashes of `commit` and their recovery.
pub mod Plan
pub mod Toward
pub mod Finish
pub mod Prefix
pub mod Phases
pub mod Recovery
pub mod Atomic
pub mod Planning
pub mod Again
pub mod Doubled
mod Samples
