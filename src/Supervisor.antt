-- ===== src/Supervisor.antt =====
-- core/supervisor: the durable work queue of the supervisor and the protocol of a worker attempt.
pub mod Protocol
pub mod Queue
