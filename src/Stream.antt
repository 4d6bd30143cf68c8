-- ===== src/Stream.antt =====
-- wisp/src/stream and the state of a stream in wisp/src/mux/inner.rs.
pub mod Channel
pub mod Info
pub mod Deliver
pub mod Read
pub mod Write
pub mod Bytes
