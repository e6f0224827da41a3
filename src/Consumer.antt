-- ===== src/Consumer.antt =====
-- src/consumer/: messages that are read from a topic and settled.
pub mod Statements
pub mod Settling
pub mod Run
