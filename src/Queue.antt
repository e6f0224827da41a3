-- ===== src/Queue.antt =====
-- src/queue/: work that is claimed from a queue and settled.
pub mod Statements
pub mod Worker
pub mod Settling
