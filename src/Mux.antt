-- ===== src/Mux.antt =====
-- wisp/src/mux: the multiplexor.
pub mod Known
pub mod State
pub mod Handlers
pub mod Events
pub mod Live
pub mod Preserve
pub mod Shutdown
pub mod Streams
pub mod Supported
pub mod Conn
pub mod Handshake
pub mod Select
pub mod Create
pub mod Agreement
pub mod Udp
pub mod Intersection
