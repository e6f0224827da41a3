-- ===== src/Http.antt =====
-- src/http/: the node's other surface, where files, series, backups and health are served.
pub mod Basic
pub mod Paths
pub mod Events
pub mod Calendar
pub mod Json
pub mod Reply
pub mod Operations
pub mod Calls
