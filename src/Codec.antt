-- ===== src/Codec.antt =====
-- src/codec/: values as the bytes that the protocol carries.
pub mod Tag
pub mod ShapeKind
pub mod NumberKind
pub mod BoundKind
pub mod RecordIdKind
pub mod Fault
pub mod Write
pub mod Reader
pub mod Read
pub mod RoundTrip
pub mod Prefix
