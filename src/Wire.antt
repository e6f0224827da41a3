-- ===== src/Wire.antt =====
-- src/wire/: frames on a connection, and what they carry.
pub mod Stream
pub mod Kind
pub mod Frame
pub mod Body
pub mod Settlement
pub mod Redirect
pub mod Push
pub mod Answer
pub mod Request
