-- ===== src/Query.antt =====
-- src/query/: statements built without a value in their text.
pub mod Fault
pub mod Names
pub mod Span
pub mod Decimal
pub mod Binder
pub mod Filter
pub mod Select
pub mod Write
pub mod Builders
pub mod Blind
pub mod Plain
