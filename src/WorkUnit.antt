-- ===== src/WorkUnit.antt =====
-- core/domain/work_unit: the aggregate of a Work Unit.
pub mod Status
pub mod Done
pub mod Transition
mod Samples
