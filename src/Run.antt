-- ===== src/Run.antt =====
-- core/domain/run and the command handlers that change a Run.
pub mod Status
pub mod Fencing
pub mod Leases
pub mod Ceiling
pub mod Convergence
pub mod Writes
pub mod Close
pub mod Escalate
pub mod Policy
