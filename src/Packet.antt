-- ===== src/Packet.antt =====
-- wisp/src/packet.rs: the frames of the Wisp protocol.
pub mod Kinds
pub mod Codec
pub mod RoundTrip
pub mod Decode
pub mod Info
pub mod Extended
