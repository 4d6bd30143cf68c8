-- ===== src/Sink.antt =====
-- wisp/src/locked_sink.rs: the lock around the write half of the transport.
pub mod Waiter
pub mod Transport
pub mod Lock
