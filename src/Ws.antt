-- ===== src/Ws.antt =====
-- wisp/src/ws: transports that are made from asynchronous functions.
pub mod Unfold
