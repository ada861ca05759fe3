-- ===== src/Protocol.antt =====
-- The wire protocol (rpmem_protocol.c, rpmem_protocol.h): `Buffer` is a command buffer and its
-- big-endian fields, `Messages` the opcodes and the pack and unpack functions.
mod Buffer
mod Messages
mod Fields
pub mod Spec
pub mod RoundTrip
pub mod Frame
pub mod Carries
mod Tests
unfoldable pub use Buffer.*
unfoldable pub use Messages.*
pub use Fields.*
